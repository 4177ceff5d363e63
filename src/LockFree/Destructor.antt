-- ===== src/LockFree/Destructor.antt =====
-- include/lockfree_queue_scheduler.hpp: `dequeue` by a thread that is alone with the ring, and the loop
-- of the destructor over it.
pub mod Alone
pub mod Drain
mod Tests
use lock_free_work_stealing.Base.{
  ℕ, zero, suc, Bool, true, false, Option, none, some, List, [], ◌∷◌, if◌then◌else◌, ◌>>=◌,
}
use lock_free_work_stealing.LockFree.{Op, loading, Ring, set_op, op_step}
use lock_free_work_stealing.LockFree.Scheduler.{is_idle, dequeued}

-- The rest of `dequeue`: the ring after it and what it returns, or none where the fuel does not
-- reach.
unfoldable pub finish : ℕ → Ring → ℕ → Op → Option (Ring × Option ℕ)
finish zero s i op = none
finish (suc n) s i op =
    let t = op_step s i false op in
    let rest = finish n t i (t.threads i) in
    if is_idle (t.threads i) then some (t, dequeued s op) else rest

-- Without interference, and where no compare-and-swap fails without a reason, five actions suffice.
unfoldable pub dequeue : Ring → ℕ → Option (Ring × Option ℕ)
unfolding finish
dequeue s i = finish 5 (set_op s i loading) i loading

-- What the destructor does with the result of `dequeue`: nullptr ends its loop.
abbrev pub delete_next : (Ring → Option (Ring × List ℕ)) → Ring × Option ℕ → Option (Ring × List ℕ)
delete_next rest (t, none) = some (t, [])
delete_next rest (t, some task) = rest t >>= (λ r. some (r.0, task ∷ r.1))

-- The loop of the destructor: the ring after it, and the tasks that it deletes, in this order.
unfoldable pub drain : ℕ → Ring → ℕ → Option (Ring × List ℕ)
drain zero s i = none
drain (suc n) s i = dequeue s i >>= delete_next (λ t. drain n t i)

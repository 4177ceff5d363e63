-- ===== src/LockFree/Destructor/Tests.antt =====
-- include/lockfree_queue_scheduler.hpp: the destructor of a scheduler that was never run.
use lock_free_work_stealing.Base.{ℕ, ◌^◌, ◌<◌, ◌≡◌, refl, arith, false, some, [], ◌∷◌, add64}
use lock_free_work_stealing.LockFree.{
  idle, Ring, reserve, op_step, enqueues, moves, Reach, here, next,
}
use lock_free_work_stealing.LockFree.Invariant.Steps.{enqueued}
use lock_free_work_stealing.LockFree.Queue.{queued}
use lock_free_work_stealing.LockFree.Destructor.{drain}
use lock_free_work_stealing.LockFree.Destructor.Drain.{drain-deletes}

-- Thread 1 enqueues 7, then thread 2 enqueues 8.
abbrev one : (s : Ring) × Reach s
unfolding reserve op_step add64
one =
    let r = next here (enqueues 1 7 refl) in
    (_, next (next (next r (moves 1 false)) (moves 1 false)) (moves 1 false))

abbrev two : (s : Ring) × Reach s
unfolding reserve op_step add64
two =
    let r = next (one.1) (enqueues 2 8 refl) in
    (_, next (next (next r (moves 2 false)) (moves 2 false)) (moves 2 false))

two_small : enqueued (two.1) < 2 ^ 62
unfolding reserve op_step add64
two_small = omega arith

two_queued : queued (two.0) ≡ 7 ∷ 8 ∷ []
unfolding reserve op_step add64
two_queued = refl

two_quiet : (j : ℕ) → (two.0).threads j ≡ idle
unfolding reserve op_step add64
two_quiet j = ground arith

drain-deletes_example : (t : Ring) × ((drain 3 (two.0) 0 ≡ some (t, 7 ∷ 8 ∷ [])) × (queued t ≡ []))
unfolding reserve op_step add64
drain-deletes_example = drain-deletes (two.1) two_small two_quiet 0

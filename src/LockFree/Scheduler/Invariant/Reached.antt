-- ===== src/LockFree/Scheduler/Invariant/Reached.antt =====
-- include/lockfree_queue_scheduler.hpp: the accounts in every state that is reached.
use lock_free_work_stealing.Base.{
  ℕ, ◌^◌, ◌≤◌, ◌<◌, ◌≡◌, refl, ap, arith, Bool, true, false, List, length, sum_to, sum_of,
  sum_to-zero, if◌then◌else◌, lt_i64,
}
use lock_free_work_stealing.LockFree.{
  Op, idle, awaiting, storing, publishing, loading, reading, claiming, taking, returning, reloading,
}
use lock_free_work_stealing.LockFree.Invariant.Steps.{fresh-Inv}
use lock_free_work_stealing.LockFree.Scheduler.{
  Phase, outside, announcing, inserting, entering, polling, running, finishing, checking, returned,
  Driver, resting, watching, stopping, joining, Pool, start, thread_step, run_start, run_driver,
  all_returned, Step, moves, child, external, runs, drives, Reach, here, next, enter, poll,
}
use lock_free_work_stealing.LockFree.Scheduler.Invariant.{PoolInv}
use lock_free_work_stealing.LockFree.Scheduler.Invariant.Steps.{Step-PoolInv}

pub start-PoolInv : (limit : ℕ) → PoolInv limit start
unfolding sum_to sum_of
start-PoolInv limit = record {
  ring = fresh-Inv;
  fits = λ i. refl;
  entered = λ w. omega (arith, sum_to-zero limit);
  taken = λ w. omega (arith, sum_to-zero limit);
  started = λ w. omega (arith, sum_to-zero limit);
  counted = refl;
  bounded = omega arith;
}

if-submitted :
    (x y : Pool) (h : List ℕ) (b : Bool)
    → x.submitted ≡ h
    → y.submitted ≡ h
    → (if b then x else y).submitted ≡ h
if-submitted x y h true p q = p
if-submitted x y h false p q = q

module _ (s : Pool) (i : ℕ) (spurious : Bool) where
  poll-submitted : (o : Op) → (poll s i spurious o).submitted ≡ s.submitted
  unfolding poll
  poll-submitted idle = refl
  poll-submitted (awaiting pos task) = if-submitted _ _ s.submitted _ refl refl
  poll-submitted (storing pos task) = if-submitted _ _ s.submitted _ refl refl
  poll-submitted (publishing pos) = if-submitted _ _ s.submitted _ refl refl
  poll-submitted loading = if-submitted _ _ s.submitted _ refl refl
  poll-submitted (reading pos) = if-submitted _ _ s.submitted _ refl refl
  poll-submitted (claiming pos) = if-submitted _ _ s.submitted _ refl refl
  poll-submitted (taking pos) = if-submitted _ _ s.submitted _ refl refl
  poll-submitted (returning pos) = if-submitted _ _ s.submitted _ refl refl
  poll-submitted reloading = if-submitted _ _ s.submitted _ refl refl

  thread_step-submitted :
      (p : Phase) → length s.submitted ≤ length (thread_step s i spurious p).submitted
  unfolding thread_step enter
  thread_step-submitted outside = omega arith
  thread_step-submitted (announcing caller task) = omega arith
  thread_step-submitted (inserting caller task) = omega arith
  thread_step-submitted (entering caller) = omega arith
  thread_step-submitted polling = omega (arith, ap length (poll-submitted (s.ring.threads i)))
  thread_step-submitted (running task) = omega arith
  thread_step-submitted (finishing task) = omega arith
  thread_step-submitted checking = omega arith
  thread_step-submitted returned = omega arith

run_driver-submitted : (s : Pool) (d : Driver) → (run_driver s d).submitted ≡ s.submitted
unfolding run_driver
run_driver-submitted s resting = refl
run_driver-submitted s watching = if-submitted _ _ s.submitted (lt_i64 0 s.pending) refl refl
run_driver-submitted s stopping = refl
run_driver-submitted s joining = if-submitted _ _ s.submitted (all_returned s s.size) refl refl

Step-submitted : {limit : ℕ} {s t : Pool} → Step limit s t → length s.submitted ≤ length t.submitted
unfolding run_start
Step-submitted {limit} {s} (moves i spurious l) = thread_step-submitted s i spurious (s.threads i)
Step-submitted (child i task new l e) = omega arith
Step-submitted (external i new l o e) = omega arith
Step-submitted (runs n b d free) = omega arith
Step-submitted {limit} {s} drives = omega (arith, ap length (run_driver-submitted s s.driver))

pub Reach-PoolInv :
    {limit : ℕ} {s : Pool} → Reach limit s → length s.submitted < 2 ^ 62 → PoolInv limit s
Reach-PoolInv {limit} here small = start-PoolInv limit
Reach-PoolInv (next r st) small =
    let before = Step-submitted st in Step-PoolInv (Reach-PoolInv r (omega arith)) st (omega arith)

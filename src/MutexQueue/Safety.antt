-- ===== src/MutexQueue/Safety.antt =====
-- include/mutex_queue_scheduler.hpp: no task is lost or run twice, and what is done where the wait of
-- `run` ends.
use lock_free_work_stealing.Base.{
  ℕ, ◌+◌, ◌^◌, ◌≤◌, ◌<◌, ◌≡◌, arith, true, List, [], ◌∷◌, ◌==◌, if◌then◌else◌, count, length,
  one_if_eq, count-sum, ℕ_discrete,
}
use lock_free_work_stealing.MutexQueue.{deciding, dozing, announcing, Monitor, run_driver, Reach}
use lock_free_work_stealing.MutexQueue.Invariant.{busy_count}
use lock_free_work_stealing.MutexQueue.Reached.{Reach-Inv}

count-le : (task : ℕ) (xs : List ℕ) → count task xs ≤ length xs
count-le task [] = omega arith
count-le task (x ∷ xs) = ground (arith, count-le task xs)

module _ {s : Monitor} (r : Reach s) (small : length s.submitted < 2 ^ 63) where
  -- In every state of the mutex scheduler that is reached with fewer than 2^63 submissions: of each
  -- task, as many copies were submitted as wait in the queue or were started; and `pending_` is the
  -- number of tasks in the queue and of workers that have a task.
  pub Monitor-accounts :
      (task : ℕ)
      → (count task s.submitted ≡ count task s.queue + count task s.ran)
        × (s.pending ≡ length s.queue + busy_count s)
  Monitor-accounts task =
      let inv = Reach-Inv r small in
      (
        omega (
          arith,
          inv.conserve (λ x. one_if_eq x task),
          count-sum task s.submitted,
          count-sum task s.queue,
          count-sum task s.ran,
        ),
        inv.counted,
      )

  -- In every state of the mutex scheduler that is reached with fewer than 2^63 submissions: where
  -- `run` finds its condition true, each task was started as often as it was submitted, and no
  -- worker has a task.
  pub wait_ends-all_ran :
      (task : ℕ)
      → s.driver ≡ deciding
      → (run_driver s deciding).driver ≡ announcing
      → (count task s.submitted ≡ count task s.ran) × (busy_count s ≡ 0)
  unfolding run_driver
  wait_ends-all_ran task d e =
      let (a, b) = Monitor-accounts task in
      let z : s.pending ≡ 0 = is_zero s.pending e in
      let q : count task s.queue ≤ length s.queue = count-le task s.queue in
      (omega arith, omega arith)
    where
      is_zero :
          (n : ℕ)
          → (if n == 0
              then record s { shutdown = true; driver = announcing }
              else record s { driver = dozing }).driver
            ≡ announcing
          → n ≡ 0
      is_zero n e = elim (ℕ_discrete n 0) [ yes z ↦ z | no nz ↦ absurd (ground (arith, e, nz)) ]

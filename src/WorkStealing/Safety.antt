-- ===== src/WorkStealing/Safety.antt =====
-- include/work_stealing_scheduler.hpp: no task is lost or run twice, and what is done where the loop of
-- `run` ends.
use lock_free_work_stealing.Base.{
  ℕ, ◌+◌, ◌^◌, ◌<◌, ◌≡◌, refl, arith, List, [], ◌∷◌, count, length, sum_of, sum_of-ones,
  sum_to-term, sum_to-vanish, sum_of-vanish, one_if_eq,
}
use lock_free_work_stealing.WorkStealing.{joining, Scheduler, fresh}
use lock_free_work_stealing.WorkStealing.Worker.{Reach}
use lock_free_work_stealing.WorkStealing.Invariant.{
  one, phase_weight, busy, busy_count, injection, held, Inv,
}
use lock_free_work_stealing.WorkStealing.Invariant.Runs.{phase-vanish}
use lock_free_work_stealing.WorkStealing.Invariant.Reached.{Reach-Inv}

-- The weight that counts the copies of a task.
abbrev pub copies : ℕ → ℕ → ℕ
copies task x = one_if_eq x task

count-sum : (task : ℕ) (xs : List ℕ) → sum_of (copies task) xs ≡ count task xs
unfolding sum_of
count-sum task [] = refl
count-sum task (x ∷ xs) = ground (arith, count-sum task xs)

module _ {s : Scheduler} (r : Reach fresh s) (small : length s.submitted < 2 ^ 63) where
  Inv-s : Inv s
  Inv-s = Reach-Inv r (omega (arith, sum_of-ones s.submitted))

  -- In every state that is reached with fewer than 2^63 submissions: of each task, as many copies
  -- were submitted as were started or are held (by the injection queue, a deque, or a `submit` that
  -- has not ended); and `pending_` is the number of held tasks and of workers that have a task.
  pub Reach-accounts :
      (task : ℕ)
      → (count task s.submitted ≡ held (copies task) s + count task s.ran)
        × (s.pending ≡ held one s + busy_count s)
  Reach-accounts task =
      let inv = Inv-s in
      let a = inv.conserve (copies task) in
      (omega (arith, a, count-sum task s.submitted, count-sum task s.ran), inv.counted)

  module _ (ended : s.driver ≡ joining) where
    -- In every state that is reached with fewer than 2^63 submissions, where the loop of `run` has
    -- ended: each task was started as often as it was submitted, but for those that other threads
    -- have submitted and that wait in the injection queue.
    pub joining-all_ran :
        (task : ℕ) → count task s.submitted ≡ count task s.ran + injection (copies task) s
    joining-all_ran task =
        let inv = Inv-s in
        let (a, b) = Reach-accounts task in
        let q = inv.quiet ended in
        let d =
          sum_to-vanish s.size (λ i. sum_of one (s.workers i).deque)
            (λ i. sum_of (copies task) (s.workers i).deque)
            (λ i. sum_of-vanish (copies task) (s.workers i).deque) (omega arith) in
        let n =
          sum_to-vanish s.size (λ i. phase_weight one (s.threads i).phase)
            (λ i. phase_weight (copies task) (s.threads i).phase)
            (λ i. phase-vanish (copies task) (s.threads i).phase) (omega arith) in
        omega arith

    -- In every state that is reached with fewer than 2^63 submissions, where the loop of `run` has
    -- ended: the deque of each worker is empty and no worker is in a task.
    pub joining-idle :
        (i : ℕ) → i < s.size → (length (s.workers i).deque ≡ 0) × (busy (s.threads i).phase ≡ 0)
    joining-idle i p =
        let inv = Inv-s in
        let q = inv.quiet ended in
        let d = sum_to-term s.size (λ k. sum_of one (s.workers k).deque) i p in
        let b = sum_to-term s.size (λ k. busy (s.threads k).phase) i p in
        let l = sum_of-ones (s.workers i).deque in (omega arith, omega arith)

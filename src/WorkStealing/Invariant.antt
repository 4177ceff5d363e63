-- ===== src/WorkStealing/Invariant.antt =====
-- include/work_stealing_scheduler.hpp: `pending_` and the histories against the tasks that the
-- scheduler holds.
pub mod Changes
pub mod Submits
pub mod Steps
pub mod Runs
pub mod Reached
use lock_free_work_stealing.Base.{ℕ, ◌+◌, ◌≤◌, ◌<◌, ◌≡◌, Option, none, some, List, sum_to, sum_of}
use lock_free_work_stealing.WorkStealing.{
  Phase, popping, running, submitting, finishing, checking_pending, checking_shutdown, stealing,
  returned, Thread, WorkerCtx, Driver, outside, waiting, joining, Scheduler,
}

-- Tasks are added up by a weight: one for each counts them, and a weight of one task alone counts
-- its copies.
abbrev pub one : ℕ → ℕ
one _ = 1

abbrev pub opt_weight : (ℕ → ℕ) → Option ℕ → ℕ
opt_weight w none = 0
opt_weight w (some task) = w task

abbrev pub phase_weight : (ℕ → ℕ) → Phase → ℕ
phase_weight w (submitting task new) = w new
phase_weight w _ = 0

-- Does it run a task, or has it to count one that ran?
abbrev pub busy : Phase → ℕ
busy (running task) = 1
busy (submitting task new) = 1
busy finishing = 1
busy _ = 0

abbrev pub deques : (ℕ → ℕ) → Scheduler → ℕ
deques w s = sum_to s.size (λ i. sum_of w (s.workers i).deque)

abbrev pub announced : (ℕ → ℕ) → Scheduler → ℕ
announced w s = sum_to s.size (λ i. phase_weight w (s.threads i).phase)

abbrev pub busy_count : Scheduler → ℕ
busy_count s = sum_to s.size (λ i. busy (s.threads i).phase)

-- The tasks that were submitted and did not start.
abbrev pub injection : (ℕ → ℕ) → Scheduler → ℕ
injection w s = sum_of w s.inject_queue + opt_weight w s.injecting

abbrev pub held : (ℕ → ℕ) → Scheduler → ℕ
held w s = injection w s + (deques w s + announced w s)

pub record Inv (s : Scheduler) : Type 0 where
  pub conserve : (w : ℕ → ℕ) → sum_of w s.submitted ≡ held w s + sum_of w s.ran
  pub counted : s.pending ≡ held one s + busy_count s
  pub fewer : busy_count s ≤ sum_of one s.ran
  pub quiet : s.driver ≡ joining → deques one s + (announced one s + busy_count s) ≡ 0
  pub cleared : s.driver ≡ outside → s.size ≡ 0

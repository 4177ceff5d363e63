-- ===== src/Contract/Schedulers.antt =====
-- include/mutex_queue_scheduler.hpp, lockfree_queue_scheduler.hpp and work_stealing_scheduler.hpp keep
-- the contract of a scheduler.
use lock_free_work_stealing.Base.{ℕ, ◌^◌, ◌≡◌, ap, arith, none, [], sum_of}
use lock_free_work_stealing.Contract.{Contract}
use lock_free_work_stealing.MutexQueue
use lock_free_work_stealing.MutexQueue.Safety.{wait_ends-all_ran}
use lock_free_work_stealing.LockFree.Scheduler
use lock_free_work_stealing.LockFree.Scheduler.Safety.{stopping-all_ran}
use lock_free_work_stealing.WorkStealing
use lock_free_work_stealing.WorkStealing.Worker
use lock_free_work_stealing.WorkStealing.Invariant.{injection, opt_weight}
use lock_free_work_stealing.WorkStealing.Safety.{copies, joining-all_ran}

-- `run` has read zero from `pending_`.
abbrev pub mutex_contract : Contract
mutex_contract = record {
  State = MutexQueue.Monitor;
  Reached = MutexQueue.Reach;
  IsOver = λ s.
      (s.driver ≡ MutexQueue.deciding)
      × ((MutexQueue.run_driver s MutexQueue.deciding).driver ≡ MutexQueue.announcing);
  submitted = λ s. s.submitted;
  ran = λ s. s.ran;
  bound = 2 ^ 63;
  runs_all = λ s r small over task. (wait_ends-all_ran r small task (over.0) (over.1)).0;
}

abbrev pub lock_free_contract : ℕ → Contract
lock_free_contract limit = record {
  State = Scheduler.Pool;
  Reached = Scheduler.Reach limit;
  IsOver = λ s.
      (s.driver ≡ Scheduler.watching)
      × ((Scheduler.run_driver s Scheduler.watching).driver ≡ Scheduler.stopping);
  submitted = λ s. s.submitted;
  ran = λ s. s.ran;
  bound = 2 ^ 62;
  runs_all = λ s r small over task. (stopping-all_ran r small task (over.0) (over.1)).0;
}

pub no_injection :
    (w : ℕ → ℕ) (s : WorkStealing.Scheduler)
    → s.inject_queue ≡ []
    → s.injecting ≡ none
    → injection w s ≡ 0
unfolding sum_of
no_injection w s a b = omega (arith, ap (sum_of w) a, ap (opt_weight w) b)

-- `run` is in its joins, and no other thread has submitted since it began.
abbrev pub work_stealing_contract : Contract
work_stealing_contract = record {
  State = WorkStealing.Scheduler;
  Reached = Worker.Reach WorkStealing.fresh;
  IsOver = λ s. (s.driver ≡ WorkStealing.joining) × ((s.inject_queue ≡ []) × (s.injecting ≡ none));
  submitted = λ s. s.submitted;
  ran = λ s. s.ran;
  bound = 2 ^ 63;
  runs_all = λ s r small over task. omega (
    arith,
    joining-all_ran r small (over.0) task,
    no_injection (copies task) s (over.1.0) (over.1.1),
  );
}

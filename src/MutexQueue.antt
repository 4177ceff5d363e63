-- ===== src/MutexQueue.antt =====
-- include/mutex_queue_scheduler.hpp: the queue, the critical sections under `mu_`, and the waits on the
-- two condition variables.
pub mod Invariant
pub mod Reached
pub mod Safety
pub mod LostWakeup
mod Tests
use lock_free_work_stealing.Base.{
  ℕ, zero, suc, ◌+◌, ◌-◌, ◌<◌, ◌≡◌, ◌≢◌, Bool, true, false, Option, none, some, List, [], ◌∷◌, ◌++◌,
  ◌==◌, ◌&&◌, add64, sub64, if◌then◌else◌, update,
}

-- A worker: before it locks `mu_`; blocked in `cv_.wait`; in a task; before `fetch_sub`; before
-- `done_cv_.notify_all`; returned.
pub data Phase : Type 0 where
  locking : Phase
  sleeping : Phase
  running : ℕ → Phase
  finishing : Phase
  notifying : Phase
  returned : Phase

-- The thread that calls `run`: outside of it; before it locks `mu_` for the wait; with `mu_`, before
-- the test of `pending_`, and where the test was false; blocked in `done_cv_.wait`; before
-- `cv_.notify_all`; in the joins.
pub data Driver : Type 0 where
  outside : Driver
  entering : Driver
  deciding : Driver
  dozing : Driver
  blocked : Driver
  announcing : Driver
  joining : Driver

-- The members, the workers below `size`, the calls of `notify_one` that are due, and the histories
-- of tasks that were submitted and that were started, newest first.
pub record Monitor : Type 0 where
  pub queue : List ℕ
  pub pending : ℕ
  pub shutdown : Bool
  pub threads : ℕ → Phase
  pub size : ℕ
  pub driver : Driver
  pub notices : ℕ
  pub submitted : List ℕ
  pub ran : List ℕ

-- The constructor
abbrev pub fresh : Monitor
fresh = record {
  queue = [];
  pending = 0;
  shutdown = false;
  threads = λ _. returned;
  size = 0;
  driver = outside;
  notices = 0;
  submitted = [];
  ran = [];
}

-- `run` has `mu_` between its test and its block; every other critical section is one step.
abbrev pub holds_lock : Driver → Bool
holds_lock deciding = true
holds_lock dozing = true
holds_lock _ = false

-- The critical section of `submit`
unfoldable pub submit : Monitor → ℕ → Monitor
submit s task = record s {
  queue = s.queue ++ task ∷ [];
  pending = add64 s.pending 1;
  notices = s.notices + 1;
  submitted = task ∷ s.submitted;
}

-- `cv_.notify_one`, where worker `i` is the one that may be woken.
unfoldable pub notify_one : Monitor → ℕ → Phase → Monitor
notify_one s i sleeping = record s { notices = s.notices - 1; threads = update s.threads i locking }
notify_one s i _ = record s { notices = s.notices - 1 }

-- The critical section of `worker_loop`: the test of the wait, and what follows it.
unfoldable pub take_task : Monitor → ℕ → List ℕ → Monitor
take_task s i [] = record s {
  threads = update s.threads i (if s.shutdown then returned else sleeping);
}
take_task s i (task ∷ rest) = record s {
  queue = rest;
  threads = update s.threads i (running task);
  ran = task ∷ s.ran;
}

-- `done_cv_.notify_all`
abbrev pub wake_driver : Driver → Driver
wake_driver blocked = entering
wake_driver d = d

-- The next action of worker `i`.
unfoldable pub worker_step : Monitor → ℕ → Phase → Monitor
unfolding take_task
worker_step s i locking = take_task s i s.queue
worker_step s i sleeping = s
worker_step s i (running task) = record s { threads = update s.threads i finishing }
worker_step s i finishing =
    let remaining = sub64 s.pending 1 in
    record s {
      pending = remaining;
      threads = update s.threads i (if remaining == 0 then notifying else locking);
    }
worker_step s i notifying = record s {
  driver = wake_driver s.driver;
  threads = update s.threads i locking;
}
worker_step s i returned = s

-- `run` before its wait
unfoldable pub run_start : Monitor → ℕ → Monitor
run_start s num_workers = record s {
  shutdown = false;
  threads = λ _. locking;
  size = num_workers;
  driver = entering;
}

-- `cv_.notify_all`
abbrev pub wake : Phase → Phase
wake sleeping = locking
wake p = p

abbrev pub has_returned : Phase → Bool
has_returned returned = true
has_returned _ = false

abbrev pub all_returned : Monitor → ℕ → Bool
all_returned s zero = true
all_returned s (suc n) = has_returned (s.threads n) && all_returned s n

-- The next action of `run`.
unfoldable pub run_driver : Monitor → Driver → Monitor
run_driver s outside = s
run_driver s entering = record s { driver = deciding }
run_driver s deciding =
    if s.pending == 0
    then record s { shutdown = true; driver = announcing }
    else record s { driver = dozing }
run_driver s dozing = record s { driver = blocked }
run_driver s blocked = s
run_driver s announcing = record s { threads = λ i. wake (s.threads i); driver = joining }
run_driver s joining = if all_returned s s.size then record s { size = 0; driver = outside } else s

-- The destructor
unfoldable pub destroy : Monitor → Monitor
destroy s = record s { shutdown = true; threads = λ i. wake (s.threads i) }

-- A step that no other thread than the workers and the caller of `run` makes. A worker may also wake
-- without a notification.
pub data Step (s : Monitor) : Monitor → Type 0 where
  child :
      (i task new : ℕ)
      → i < s.size
      → s.threads i ≡ running task
      → holds_lock s.driver ≡ false
      → Step s (submit s new)
  notice : (i : ℕ) → i < s.size → 0 < s.notices → Step s (notify_one s i (s.threads i))
  locked :
      (i : ℕ)
      → i < s.size
      → s.threads i ≡ locking
      → holds_lock s.driver ≡ false
      → Step s (worker_step s i locking)
  works :
      (i : ℕ) (p : Phase) → i < s.size → s.threads i ≡ p → p ≢ locking → Step s (worker_step s i p)
  awakens :
      (i : ℕ)
      → i < s.size
      → s.threads i ≡ sleeping
      → Step s (record s { threads = update s.threads i locking })
  drives : Step s (run_driver s s.driver)

-- A run of these steps, of submissions by other threads, of wake-ups of `run` without a notification,
-- of calls of `run`, and of the destructor.
pub data Reach : Monitor → Type 0 where
  here : Reach fresh
  next : {s t : Monitor} → Reach s → Step s t → Reach t
  external :
      {s : Monitor} (task : ℕ) → Reach s → holds_lock s.driver ≡ false → Reach (submit s task)
  runs : {s : Monitor} (n : ℕ) → Reach s → s.driver ≡ outside → Reach (run_start s n)
  rouses : {s : Monitor} → Reach s → s.driver ≡ blocked → Reach (record s { driver = entering })
  destroys : {s : Monitor} → Reach s → s.driver ≡ outside → Reach (destroy s)

-- ===== src/WorkStealing.antt =====
-- include/work_stealing_scheduler.hpp: the state of a scheduler, `submit`, and `run`. A deque is the
-- list of its tasks, the oldest first, which each of its operations changes in one step, as
-- include/chase_lev_deque.hpp promises.
pub mod Worker
pub mod Invariant
pub mod Safety
pub mod Stranded
pub mod Victims
pub mod Deques
mod Tests
use lock_free_work_stealing.Base.{
  ℕ, zero, suc, ◌+◌, ◌-◌, ◌%◌, ◌<◌, ◌≡◌, Bool, true, false, Option, none, some, List, [], ◌∷◌, ◌++◌,
  ltb, ◌==◌, ◌||◌, add64, le_i64, if◌then◌else◌, update,
}

-- Where a worker stands in `worker_loop`: before `pop_bottom`; in `run` of a task, or there in
-- `submit` between the two actions of its first branch; before `fetch_sub`; before the two loads of
-- the test for the end; before the attempt to steal with the given `start` and `attempt`; returned.
pub data Phase : Type 0 where
  popping : Phase
  running : ℕ → Phase
  submitting : ℕ → ℕ → Phase
  finishing : Phase
  checking_pending : Phase
  checking_shutdown : Phase
  stealing : ℕ → ℕ → Phase
  returned : Phase

-- A thread's locals.
pub record Thread : Type 0 where
  pub phase : Phase
  pub backoff : ℕ

pub record WorkerCtx : Type 0 where
  pub deque : List ℕ
  pub id : ℕ

-- The thread that calls `run`: outside of it, in the loop on `pending_`, or in the joins.
pub data Driver : Type 0 where
  outside : Driver
  waiting : Driver
  joining : Driver

-- The members; `workers_[i]` is `workers i` for `i` below the size. `injecting` is the task of the
-- thread that holds `inject_mu_` in `submit`, between the two actions of its second branch. The
-- last two are histories, newest first: of tasks given to `submit`, and of those that `run` was
-- called of.
pub record Scheduler : Type 0 where
  pub workers : ℕ → WorkerCtx
  pub size : ℕ
  pub inject_queue : List ℕ
  pub injecting : Option ℕ
  pub pending : ℕ
  pub shutdown : Bool
  pub threads : ℕ → Thread
  pub driver : Driver
  pub submitted : List ℕ
  pub ran : List ℕ

abbrev pub new_worker : ℕ → WorkerCtx
new_worker i = record { deque = []; id = i }

-- The start of `worker_loop`
abbrev pub new_thread : Thread
new_thread = record { phase = popping; backoff = 1 }

-- The constructor
abbrev pub fresh : Scheduler
fresh = record {
  workers = new_worker;
  size = 0;
  inject_queue = [];
  injecting = none;
  pending = 0;
  shutdown = false;
  threads = λ _. record { phase = returned; backoff = 1 };
  driver = outside;
  submitted = [];
  ran = [];
}

-- `workers_[i]->deque.push_bottom(task)`
unfoldable pub push_bottom : (ℕ → WorkerCtx) → ℕ → ℕ → ℕ → WorkerCtx
push_bottom workers i task =
    update workers i (record (workers i) { deque = (workers i).deque ++ task ∷ [] })

unfoldable pub set_phase : Scheduler → ℕ → Phase → Scheduler
set_phase s i p = record s { threads = update s.threads i (record (s.threads i) { phase = p }) }

-- `submit` up to its increment of `pending_`, by a thread with the given `tl_worker_id_` (none is
-- -1): the thread that runs `running_task`, or one that has taken `inject_mu_`.
unfoldable pub submit : Scheduler → Option ℕ → ℕ → ℕ → Scheduler
unfolding set_phase
submit s (some wid) running_task task =
    if ltb wid s.size
    then set_phase (record s { pending = add64 s.pending 1; submitted = task ∷ s.submitted }) wid
        (submitting running_task task)
    else record s {
      pending = add64 s.pending 1;
      submitted = task ∷ s.submitted;
      injecting = some task;
    }
submit s none running_task task = record s {
  pending = add64 s.pending 1;
  submitted = task ∷ s.submitted;
  injecting = some task;
}

-- The end of `submit` in each branch.
unfoldable pub submit_local : Scheduler → ℕ → ℕ → ℕ → Scheduler
unfolding push_bottom set_phase
submit_local s wid running_task task =
    set_phase (record s { workers = push_bottom s.workers wid task }) wid (running running_task)

unfoldable pub submit_injected : Scheduler → ℕ → Scheduler
submit_injected s task = record s { inject_queue = s.inject_queue ++ task ∷ []; injecting = none }

unfoldable pub push_all : (ℕ → WorkerCtx) → ℕ → List ℕ → ℕ → WorkerCtx
unfolding push_bottom
push_all workers i [] = workers
push_all workers i (task ∷ rest) = push_all (push_bottom workers i task) i rest

-- `run` up to its loop on `pending_`; the threads have not begun.
unfoldable pub run_start : Scheduler → ℕ → Scheduler
unfolding push_all
run_start s num_workers = record s {
  workers = push_all new_worker 0 s.inject_queue;
  size = num_workers;
  shutdown = false;
  inject_queue = [];
  threads = λ _. new_thread;
  driver = waiting;
}

abbrev pub all_returned : Scheduler → ℕ → Bool
all_returned s zero = true
all_returned s (suc n) = elim (s.threads n).phase [ returned ↦ all_returned s n | _ ↦ false ]

-- `run` from there on: a load of `pending_` that ends the loop, and the joins.
unfoldable pub run_driver : Scheduler → Driver → Scheduler
run_driver s outside = s
run_driver s waiting =
    if le_i64 s.pending 0 then record s { shutdown = true; driver = joining } else s
run_driver s joining =
    if all_returned s s.size
    then record s { workers = new_worker; size = 0; driver = outside }
    else s

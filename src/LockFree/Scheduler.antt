-- ===== src/LockFree/Scheduler.antt =====
-- include/lockfree_queue_scheduler.hpp: submit, run and worker_loop over the ring, one access of
-- shared memory at a time.
pub mod Moves
pub mod Invariant
pub mod Safety
mod Tests
use lock_free_work_stealing.Base.{
  ℕ, zero, suc, ◌+◌, ◌≤◌, ◌<◌, ◌≡◌, Bool, true, false, Option, none, some, List, [], ◌∷◌, ◌&&◌, ltb,
  lt_i64, add64, sub64, if◌then◌else◌, update,
}
use lock_free_work_stealing.LockFree.{
  Op, idle, loading, returning, Ring, fresh, set_op, reserve, op_step,
}

-- A thread. In `submit`, called by a task or, where there is none, by a thread that is no worker:
-- before the addition to `pending_`, before that to `head_`, in the rest of `enqueue`. In
-- `worker_loop`: in `dequeue` or before its call, in a task, before the subtraction from `pending_`,
-- before the load of `shutdown_`, after its return.
pub data Phase : Type 0 where
  outside : Phase
  announcing : Option ℕ → ℕ → Phase
  inserting : Option ℕ → ℕ → Phase
  entering : Option ℕ → Phase
  polling : Phase
  running : ℕ → Phase
  finishing : ℕ → Phase
  checking : Phase
  returned : Phase

-- The caller of `run`: outside of it, before the load of `pending_`, before the store of `shutdown_`,
-- in the joins.
pub data Driver : Type 0 where
  resting : Driver
  watching : Driver
  stopping : Driver
  joining : Driver

-- The members, the workers below `size`, and the histories of the tasks that were counted in
-- `pending_`, that were started, and that were counted as done, newest first.
pub record Pool : Type 0 where
  pub ring : Ring
  pub pending : ℕ
  pub shutdown : Bool
  pub threads : ℕ → Phase
  pub size : ℕ
  pub driver : Driver
  pub submitted : List ℕ
  pub ran : List ℕ
  pub done : List ℕ

-- The constructor
abbrev pub start : Pool
start = record {
  ring = fresh;
  pending = 0;
  shutdown = false;
  threads = λ _. outside;
  size = 0;
  driver = resting;
  submitted = [];
  ran = [];
  done = [];
}

-- Where a thread goes on after `submit`.
abbrev pub resume : Option ℕ → Phase
resume none = outside
resume (some task) = running task

abbrev pub is_idle : Op → Bool
is_idle idle = true
is_idle _ = false

-- What `dequeue` returns where this action is its last.
abbrev pub dequeued : Ring → Op → Option ℕ
dequeued r (returning pos) = r.got pos
dequeued r _ = none

-- `if (TaskPtr task = dequeue())`
abbrev pub branch : Option ℕ → Phase
branch none = checking
branch (some task) = running task

abbrev pub log_start : Option ℕ → List ℕ → List ℕ
log_start none h = h
log_start (some task) h = task ∷ h

-- The next action of a thread in `enqueue`.
unfoldable pub enter : Pool → ℕ → Bool → Option ℕ → Pool
enter s i spurious caller =
    let ring = op_step s.ring i spurious (s.ring.threads i) in
    record s {
      ring = ring;
      threads =
          update s.threads i (if is_idle (ring.threads i) then resume caller else entering caller);
    }

-- The next action of a worker in `dequeue`, which it calls where it is in no method of the ring.
unfoldable pub poll : Pool → ℕ → Bool → Op → Pool
poll s i spurious idle = record s { ring = set_op s.ring i loading }
poll s i spurious op =
    let ring = op_step s.ring i spurious op in
    if is_idle (ring.threads i)
    then record s {
      ring = ring;
      threads = update s.threads i (branch (dequeued s.ring op));
      ran = log_start (dequeued s.ring op) s.ran;
    }
    else record s { ring = ring }

-- The next action of thread `i`. A task that calls `submit` once more is a step of its own.
unfoldable pub thread_step : Pool → ℕ → Bool → Phase → Pool
unfolding enter poll
thread_step s i spurious outside = s
thread_step s i spurious (announcing caller task) = record s {
  pending = add64 s.pending 1;
  threads = update s.threads i (inserting caller task);
  submitted = task ∷ s.submitted;
}
thread_step s i spurious (inserting caller task) = record s {
  ring = reserve s.ring i task;
  threads = update s.threads i (entering caller);
}
thread_step s i spurious (entering caller) = enter s i spurious caller
thread_step s i spurious polling = poll s i spurious (s.ring.threads i)
thread_step s i spurious (running task) = record s { threads = update s.threads i (finishing task) }
thread_step s i spurious (finishing task) = record s {
  pending = sub64 s.pending 1;
  threads = update s.threads i polling;
  done = task ∷ s.done;
}
thread_step s i spurious checking = record s {
  threads = update s.threads i (if s.shutdown then returned else polling);
}
thread_step s i spurious returned = s

abbrev pub call_submit : Pool → ℕ → Option ℕ → ℕ → Pool
call_submit s i caller task = record s { threads = update s.threads i (announcing caller task) }

-- `run` up to its wait
unfoldable pub run_start : Pool → ℕ → Pool
run_start s num_workers = record s {
  shutdown = false;
  threads = λ i. if ltb i num_workers then polling else s.threads i;
  size = num_workers;
  driver = watching;
}

abbrev pub has_returned : Phase → Bool
has_returned returned = true
has_returned _ = false

abbrev pub all_returned : Pool → ℕ → Bool
all_returned s zero = true
all_returned s (suc n) = has_returned (s.threads n) && all_returned s n

-- The next action of `run` from its wait on.
unfoldable pub run_driver : Pool → Driver → Pool
run_driver s resting = s
run_driver s watching = if lt_i64 0 s.pending then s else record s { driver = stopping }
run_driver s stopping = record s { shutdown = true; driver = joining }
run_driver s joining =
    if all_returned s s.size
    then record s {
      threads = λ i. if ltb i s.size then outside else s.threads i;
      size = 0;
      driver = resting;
    }
    else s

-- One action of one of `limit` threads.
pub data Step (limit : ℕ) (s : Pool) : Pool → Type 0 where
  moves :
      (i : ℕ) (spurious : Bool) → i < limit → Step limit s (thread_step s i spurious (s.threads i))
  child :
      (i task new : ℕ)
      → i < limit
      → s.threads i ≡ running task
      → Step limit s (call_submit s i (some task) new)
  external :
      (i new : ℕ)
      → i < limit
      → s.size ≤ i
      → s.threads i ≡ outside
      → Step limit s (call_submit s i none new)
  runs :
      (n : ℕ)
      → n ≤ limit
      → s.driver ≡ resting
      → ((i : ℕ) → i < n → s.threads i ≡ outside)
      → Step limit s (run_start s n)
  drives : Step limit s (run_driver s s.driver)

pub data Reach (limit : ℕ) : Pool → Type 0 where
  here : Reach limit start
  next : {s t : Pool} → Reach limit s → Step limit s t → Reach limit t

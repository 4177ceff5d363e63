-- ===== src/WorkStealing/Worker.antt =====
-- include/work_stealing_scheduler.hpp, worker_loop: the next action of a worker, and the runs of a
-- scheduler whose tasks submit any tasks and whose thieves lose any races.
use lock_free_work_stealing.Base.{
  ℕ, ◌+◌, ◌-◌, ◌%◌, ◌*◌, ◌<◌, ◌≡◌, ◌⊎◌, Bool, true, false, Option, none, some, List, [], ◌∷◌, ltb,
  leb, ◌==◌, sub64, if◌then◌else◌, update, pop_back,
}
use lock_free_work_stealing.WorkStealing.{
  Phase, popping, running, submitting, finishing, checking_pending, checking_shutdown, stealing,
  returned, outside, Scheduler, set_phase, submit, submit_local, submit_injected, run_start,
  run_driver,
}

-- `start = rng() % (n - 1); if (start >= id) ++start;`
unfoldable pub start_victim : ℕ → ℕ → ℕ → ℕ
start_victim n id roll = let start = roll % (n - 1) in if leb id start then start + 1 else start

-- The victim of an attempt.
unfoldable pub victim_at : ℕ → ℕ → ℕ → ℕ → ℕ
victim_at n id start attempt =
    let victim = (start + attempt) % n in if victim == id then (victim + 1) % n else victim

-- `backoff = std::min(backoff * 2, 128u)`
unfoldable pub back_off : ℕ → ℕ
back_off backoff = if ltb (backoff * 2) 128 then backoff * 2 else 128

-- Nothing was found: back to the start of the loop.
unfoldable pub none_found : Scheduler → ℕ → Scheduler
unfolding back_off
none_found s i = record s {
  threads =
      update s.threads i (record { phase = popping; backoff = back_off (s.threads i).backoff });
}

-- The body of the loop over attempts runs while `attempt < n - 1`.
unfoldable pub try_attempt : Scheduler → ℕ → ℕ → ℕ → Scheduler
unfolding none_found set_phase
try_attempt s i start attempt =
    if ltb attempt (s.size - 1) then set_phase s i (stealing start attempt) else none_found s i

-- A task that was popped or stolen starts to run.
unfoldable pub start_task : Scheduler → ℕ → ℕ → Scheduler
unfolding set_phase
start_task s i task = set_phase (record s { ran = task ∷ s.ran }) i (running task)

unfoldable pub set_deque : Scheduler → ℕ → List ℕ → Scheduler
set_deque s i tasks = record s {
  workers = update s.workers i (record (s.workers i) { deque = tasks });
}

-- `self.deque.pop_bottom()`
unfoldable pub pop_task : Scheduler → ℕ → Option (List ℕ × ℕ) → Scheduler
unfolding start_task set_deque set_phase
pop_task s i (some (rest, task)) = start_task (set_deque s i rest) i task
pop_task s i none = set_phase s i checking_pending

-- `workers_[victim]->deque.steal()`, which also returns nothing where it loses a race.
unfoldable pub steal_task : Scheduler → ℕ → ℕ → ℕ → ℕ → Bool → List ℕ → Scheduler
unfolding start_task set_deque try_attempt
steal_task s i start attempt victim false (task ∷ rest) =
    start_task (set_deque s victim rest) i task
steal_task s i start attempt victim true (task ∷ rest) = try_attempt s i start (attempt + 1)
steal_task s i start attempt victim lost [] = try_attempt s i start (attempt + 1)

-- `fetch_sub(1)`
unfoldable pub finish_task : Scheduler → ℕ → Scheduler
finish_task s i = record s {
  pending = sub64 s.pending 1;
  threads = update s.threads i (
      if s.pending == 1
      then record (s.threads i) { phase = returned }
      else record { phase = popping; backoff = 1 });
}

-- The next action of worker `i`, with the random number and the lost race that it may meet.
unfoldable pub worker_step : Scheduler → ℕ → ℕ → Bool → Phase → Scheduler
unfolding start_victim victim_at none_found try_attempt start_task set_deque pop_task steal_task
    finish_task set_phase submit_local pop_back
worker_step s i roll lost popping = pop_task s i (pop_back (s.workers i).deque)
worker_step s i roll lost (running task) = set_phase s i finishing
worker_step s i roll lost (submitting task child) = submit_local s i task child
worker_step s i roll lost finishing = finish_task s i
worker_step s i roll lost checking_pending =
    set_phase s i (if s.pending == 0 then returned else checking_shutdown)
worker_step s i roll lost checking_shutdown =
    if s.shutdown
    then set_phase s i returned
    else if ltb 1 s.size
    then try_attempt s i (start_victim s.size i roll) 0
    else none_found s i
worker_step s i roll lost (stealing start attempt) =
    let victim = victim_at s.size i start attempt in
    steal_task s i start attempt victim lost (s.workers victim).deque
worker_step s i roll lost returned = s

pub data Step (s : Scheduler) : Scheduler → Type 0 where
  -- A thread that is no worker calls `submit`, and ends it.
  external : (task : ℕ) → s.injecting ≡ none → Step s (submit s none 0 task)
  injected : (task : ℕ) → s.injecting ≡ some task → Step s (submit_injected s task)
  -- A task calls `submit`.
  child :
      (i task new : ℕ)
      → i < s.size
      → (s.threads i).phase ≡ running task
      → Step s (submit s (some i) task new)
  works :
      (i roll : ℕ) (lost : Bool)
      → i < s.size
      → Step s (worker_step s i roll lost (s.threads i).phase)
  -- Without workers, `run` has no place for the tasks of the injection queue.
  runs :
      (n : ℕ)
      → (0 < n) ⊎ (s.inject_queue ≡ [])
      → s.driver ≡ outside
      → s.injecting ≡ none
      → Step s (run_start s n)
  drives : Step s (run_driver s s.driver)

pub data Reach (start : Scheduler) : Scheduler → Type 0 where
  here : Reach start start
  next : {s t : Scheduler} → Reach start s → Step s t → Reach start t

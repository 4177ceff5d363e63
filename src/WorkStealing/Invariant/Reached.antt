-- ===== src/WorkStealing/Invariant/Reached.antt =====
-- include/work_stealing_scheduler.hpp: what a step adds to the history of `submit`, and the invariant
-- of every state that is reached.
use lock_free_work_stealing.Base.{
  ℕ, ◌+◌, ◌-◌, ◌^◌, ◌≤◌, ◌<◌, ◌≡◌, refl, ap, arith, Bool, true, false, Option, none, some, List, [],
  ◌∷◌, pop_back, ltb, sum_of, if◌then◌else◌, le_i64,
}
use lock_free_work_stealing.WorkStealing.{
  Phase, popping, running, submitting, finishing, checking_pending, checking_shutdown, stealing,
  returned, submit_local, set_phase, Driver, outside, waiting, joining, Scheduler, fresh, submit,
  submit_injected, run_start, run_driver, all_returned,
}
use lock_free_work_stealing.WorkStealing.Worker.{
  start_task, set_deque, victim_at, none_found, try_attempt, pop_task, steal_task, finish_task,
  worker_step, Step, external, injected, child, works, runs, drives, Reach, here, next,
}
use lock_free_work_stealing.WorkStealing.Invariant.{one, Inv}
use lock_free_work_stealing.WorkStealing.Invariant.Runs.{
  fresh-Inv, external-Inv, injected-Inv, run_driver-Inv, run_start-Inv,
}
use lock_free_work_stealing.WorkStealing.Invariant.Submits.{child-Inv}
use lock_free_work_stealing.WorkStealing.Invariant.Steps.{worker_step-Inv}

-- What only `submit` and `run` change.
abbrev pub kept : Scheduler → List ℕ × (List ℕ × Driver)
kept s = (s.submitted, (s.inject_queue, s.driver))

pop_task-kept : (s : Scheduler) (i : ℕ) (o : Option (List ℕ × ℕ)) → kept (pop_task s i o) ≡ kept s
unfolding pop_task start_task set_deque set_phase
pop_task-kept s i none = refl
pop_task-kept s i (some (rest, task)) = refl

if-kept :
    (x y : Scheduler) (l : List ℕ × (List ℕ × Driver)) (b : Bool)
    → kept x ≡ l
    → kept y ≡ l
    → kept (if b then x else y) ≡ l
if-kept x y l true p q = p
if-kept x y l false p q = q

steal_task-kept :
    (s : Scheduler) (i start attempt victim : ℕ) (lost : Bool) (d : List ℕ)
    → kept (steal_task s i start attempt victim lost d) ≡ kept s
unfolding steal_task start_task set_deque set_phase try_attempt none_found
steal_task-kept s i start attempt victim false (task ∷ rest) = refl
steal_task-kept s i start attempt victim true (task ∷ rest) =
    if-kept _ _ (kept s) (ltb (attempt + 1) (s.size - 1)) refl refl
steal_task-kept s i start attempt victim true [] =
    if-kept _ _ (kept s) (ltb (attempt + 1) (s.size - 1)) refl refl
steal_task-kept s i start attempt victim false [] =
    if-kept _ _ (kept s) (ltb (attempt + 1) (s.size - 1)) refl refl

pub worker_step-kept :
    (s : Scheduler) (i roll : ℕ) (lost : Bool) (ph : Phase)
    → kept (worker_step s i roll lost ph) ≡ kept s
unfolding worker_step set_phase none_found finish_task submit_local try_attempt
worker_step-kept s i roll lost popping = pop_task-kept s i (pop_back (s.workers i).deque)
worker_step-kept s i roll lost (running task) = refl
worker_step-kept s i roll lost (submitting task new) = refl
worker_step-kept s i roll lost finishing = refl
worker_step-kept s i roll lost checking_pending = refl
worker_step-kept s i roll lost checking_shutdown =
    if-kept _ _ (kept s) s.shutdown refl (
      if-kept _ _ (kept s) (ltb 1 s.size) (if-kept _ _ (kept s) (ltb 0 (s.size - 1)) refl refl)
        refl)
worker_step-kept s i roll lost (stealing start attempt) =
    steal_task-kept s i start attempt (victim_at s.size i start attempt) lost _
worker_step-kept s i roll lost returned = refl

if-submitted :
    (x y : Scheduler) (l : List ℕ) (b : Bool)
    → x.submitted ≡ l
    → y.submitted ≡ l
    → (if b then x else y).submitted ≡ l
if-submitted x y l true p q = p
if-submitted x y l false p q = q

run_driver-submitted : (s : Scheduler) (d : Driver) → (run_driver s d).submitted ≡ s.submitted
unfolding run_driver
run_driver-submitted s outside = refl
run_driver-submitted s waiting = if-submitted _ _ s.submitted (le_i64 s.pending 0) refl refl
run_driver-submitted s joining = if-submitted _ _ s.submitted (all_returned s s.size) refl refl

submit-submitted :
    (s : Scheduler) (o : Option ℕ) (task new : ℕ)
    → (submit s o task new).submitted ≡ new ∷ s.submitted
unfolding submit set_phase
submit-submitted s none task new = refl
submit-submitted s (some i) task new = if-submitted _ _ (new ∷ s.submitted) (ltb i s.size) refl refl

submit-count :
    (s : Scheduler) (o : Option ℕ) (task new : ℕ)
    → sum_of one (submit s o task new).submitted ≡ sum_of one s.submitted + 1
unfolding sum_of
submit-count s o task new = omega (arith, ap (sum_of one) (submit-submitted s o task new))

Step-Inv : {s t : Scheduler} → Inv s → Step s t → sum_of one t.submitted < 2 ^ 63 → Inv t
Step-Inv {s} inv (external task free) small =
    external-Inv inv task free (omega (arith, submit-count s none 0 task))
Step-Inv inv (injected task e) small = injected-Inv inv task e
Step-Inv {s} inv (child i task new p e) small =
    child-Inv inv i p task new e (omega (arith, submit-count s (some i) task new))
Step-Inv {s} inv (works i roll lost p) small =
    worker_step-Inv inv i p roll lost (s.threads i).phase refl
      (omega (arith, ap (λ k. sum_of one k.0) (worker_step-kept s i roll lost (s.threads i).phase)))
Step-Inv inv (runs n p d free) small = run_start-Inv inv n p d
Step-Inv {s} inv drives small =
    run_driver-Inv inv s.driver refl
      (omega (arith, ap (sum_of one) (run_driver-submitted s s.driver)))

-- No step takes a task out of the history.
pub Step-submitted : {s t : Scheduler} → Step s t → sum_of one s.submitted ≤ sum_of one t.submitted
unfolding submit_injected run_start
Step-submitted {s} (external task free) = omega (arith, submit-count s none 0 task)
Step-submitted (injected task e) = omega arith
Step-submitted {s} (child i task new p e) = omega (arith, submit-count s (some i) task new)
Step-submitted {s} (works i roll lost p) =
    omega (arith, ap (λ k. sum_of one k.0) (worker_step-kept s i roll lost (s.threads i).phase))
Step-submitted (runs n p d free) = omega arith
Step-submitted {s} drives = omega (arith, ap (sum_of one) (run_driver-submitted s s.driver))

pub Reach-Inv : {s : Scheduler} → Reach fresh s → sum_of one s.submitted < 2 ^ 63 → Inv s
Reach-Inv here small = fresh-Inv
Reach-Inv (next r st) small = Step-Inv (Reach-Inv r (omega (arith, Step-submitted st))) st small

-- ===== src/WorkStealing/Stranded.antt =====
-- include/work_stealing_scheduler.hpp: what a submission by another thread during `run` does.
use lock_free_work_stealing.Base.{
  ℕ, ◌^◌, ◌≤◌, ◌<◌, ◌≡◌, sym, ◌∙◌, subst, arith, false, Option, none, some, [], ◌∷◌, length, sum_of,
  sum_of-ones, le_i64, le_i64-small, length-append, ltb, Bool-cases, inl, inr,
}
use lock_free_work_stealing.WorkStealing.{
  waiting, Scheduler, fresh, submit, submit_injected, run_driver, set_phase,
}
use lock_free_work_stealing.WorkStealing.Worker.{
  Step, external, injected, child, works, runs, drives, Reach, here, next,
}
use lock_free_work_stealing.WorkStealing.Invariant.{one, Inv}
use lock_free_work_stealing.WorkStealing.Invariant.Submits.{pending-le}
use lock_free_work_stealing.WorkStealing.Invariant.Reached.{
  Reach-Inv, worker_step-kept, Step-submitted,
}

-- `run` waits, and the injection queue has a task.
abbrev pub Stranded : Scheduler → Type 0
Stranded s = (s.driver ≡ waiting) × (0 < length s.inject_queue)

le_i64-pos : (n : ℕ) → 0 < n → n < 2 ^ 63 → le_i64 n 0 ≡ false
le_i64-pos n p q = le_i64-small n 0 q (omega arith) ∙ ground arith

submit-Stranded :
    (s : Scheduler) (o : Option ℕ) (task new : ℕ) → Stranded s → Stranded (submit s o task new)
unfolding submit set_phase
submit-Stranded s none task new h = h
submit-Stranded s (some i) task new h = elim (Bool-cases (ltb i s.size)) [
  | inl y ↦ rw y h
  | inr n ↦ rw n h
]

run_driver-Stranded :
    (s : Scheduler)
    → Stranded s
    → s.pending ≤ sum_of one s.submitted
    → sum_of one s.submitted < 2 ^ 63
    → 0 < s.pending
    → Stranded (run_driver s waiting)
unfolding run_driver
run_driver-Stranded s h le small pos =
    let some_left : le_i64 s.pending 0 ≡ false = le_i64-pos s.pending pos (omega arith) in
    rw some_left h

Step-Stranded :
    {s t : Scheduler} → Inv s → Step s t → sum_of one s.submitted < 2 ^ 63 → Stranded s → Stranded t
unfolding submit_injected
Step-Stranded {s} inv (external task free) small h = submit-Stranded s none 0 task h
Step-Stranded {s} inv (injected task e) small h =
    let q = h.1 in (h.0, omega (arith, length-append s.inject_queue (task ∷ [])))
Step-Stranded {s} inv (child i task new p e) small h = submit-Stranded s (some i) task new h
Step-Stranded {s} inv (works i roll lost p) small h =
    subst (λ k. (k.1.1 ≡ waiting) × (0 < length k.1.0))
      (sym (worker_step-kept s i roll lost (s.threads i).phase)) h
Step-Stranded inv (runs n p d free) small h = absurd (ground (arith, d, h.0))
Step-Stranded {s} inv drives small h =
    subst (λ d. Stranded (run_driver s d)) (sym h.0)
      (run_driver-Stranded s h (pending-le inv) small
        (omega (arith, inv.counted, sum_of-ones s.inject_queue, h.1)))

Reach-trans : {a b c : Scheduler} → Reach a b → Reach b c → Reach a c
Reach-trans r here = r
Reach-trans r (next q st) = next (Reach-trans r q) st

Stranded-stays :
    {s t : Scheduler}
    → Reach fresh s
    → Stranded s
    → Reach s t
    → sum_of one t.submitted < 2 ^ 63
    → Stranded t
Stranded-stays r h here small = h
Stranded-stays r h (next q st) small =
    let before : sum_of one _ < 2 ^ 63 = omega (arith, Step-submitted st) in
    Step-Stranded (Reach-Inv (Reach-trans r q) before) st before (Stranded-stays r h q before)

-- From a state that is reached where `run` waits and the injection queue has a task (which another
-- thread has submitted since `run` began), with fewer than 2^63 submissions, `run` never returns:
-- in every state that follows it still waits, and the queue still has a task.
pub stranded-run_waits :
    {s t : Scheduler}
    → Reach fresh s
    → s.driver ≡ waiting
    → 0 < length s.inject_queue
    → Reach s t
    → length t.submitted < 2 ^ 63
    → (t.driver ≡ waiting) × (0 < length t.inject_queue)
stranded-run_waits {s} {t} r w q st small =
    Stranded-stays r (w, q) st (omega (arith, sum_of-ones t.submitted))

-- ===== src/WorkStealing/Invariant/Steps.antt =====
-- include/work_stealing_scheduler.hpp: every step keeps the invariant.
use lock_free_work_stealing.Base.{
  ℕ, ◌+◌, ◌-◌, ◌^◌, ◌<◌, ◌≡◌, refl, sym, ap, arith, Bool, true, false, Option, none, some, List, [],
  ◌∷◌, update, sum_to, sum_of, sum_to-update, sum_to-term, sum_of-pop_back, pop_back, sub64, ltb,
  ◌==◌, if◌then◌else◌, Bool-cases, inl, inr,
}
use lock_free_work_stealing.WorkStealing.{
  Phase, popping, running, submitting, finishing, checking_pending, checking_shutdown, stealing,
  returned, Thread, Scheduler, set_phase,
}
use lock_free_work_stealing.WorkStealing.Worker.{
  start_victim, victim_at, none_found, try_attempt, pop_task, steal_task, finish_task, worker_step,
}
use lock_free_work_stealing.WorkStealing.Invariant.{
  one, phase_weight, busy, announced, busy_count, Inv,
}
use lock_free_work_stealing.WorkStealing.Invariant.Changes.{thread-Inv, start_task-Inv}
use lock_free_work_stealing.WorkStealing.Invariant.Submits.{pending-le, submit_local-Inv}

sub64-one : (a : ℕ) → 0 < a → a < 2 ^ 63 → sub64 a 1 + 1 ≡ a
unfolding sub64
sub64-one a p q = omega arith

if-Inv : {x y : Scheduler} (b : Bool) → Inv x → Inv y → Inv (if b then x else y)
if-Inv true a b = a
if-Inv false a b = b

victim_at-lt : (n id start attempt : ℕ) → id < n → victim_at n id start attempt < n
unfolding victim_at
victim_at-lt n id start attempt p = ground arith

module _ {s : Scheduler} (inv : Inv s) (i : ℕ) (p : i < s.size) where
  -- A worker that is not busy moves on in its loop.
  idle-Inv :
      (ph : Phase) (t : Thread)
      → (s.threads i).phase ≡ ph
      → busy ph ≡ 0
      → ((w : ℕ → ℕ) → phase_weight w ph ≡ 0)
      → busy t.phase ≡ 0
      → ((w : ℕ → ℕ) → phase_weight w t.phase ≡ 0)
      → Inv (record s { threads = update s.threads i t })
  idle-Inv ph t e b w b' w' =
      thread-Inv inv i p t (λ v. omega (arith, w v, w' v, ap (phase_weight v) e))
        (omega (arith, b, b', ap busy e))

  try_attempt-Inv :
      (ph : Phase) (start attempt : ℕ)
      → (s.threads i).phase ≡ ph
      → busy ph ≡ 0
      → ((w : ℕ → ℕ) → phase_weight w ph ≡ 0)
      → Inv (try_attempt s i start attempt)
  unfolding try_attempt set_phase none_found
  try_attempt-Inv ph start attempt e b w =
      if-Inv (ltb attempt (s.size - 1)) (idle-Inv ph _ e b w refl (λ _. refl))
        (idle-Inv ph _ e b w refl (λ _. refl))

  pop_task-Inv :
      (s.threads i).phase ≡ popping
      → (o : Option (List ℕ × ℕ)) → pop_back (s.workers i).deque ≡ o
      → Inv (pop_task s i o)
  unfolding pop_task set_phase
  pop_task-Inv e (some (rest, task)) f =
      start_task-Inv inv i p i p rest task (λ w. sum_of-pop_back w (s.workers i).deque rest task f)
        (λ w. ap (phase_weight w) e) (ap busy e)
  pop_task-Inv e none f = idle-Inv popping _ e refl (λ _. refl) refl (λ _. refl)

  steal_task-Inv :
      (start attempt victim : ℕ)
      → victim < s.size
      → (s.threads i).phase ≡ stealing start attempt
      → (lost : Bool) (d : List ℕ) → (s.workers victim).deque ≡ d
      → Inv (steal_task s i start attempt victim lost d)
  unfolding steal_task sum_of
  steal_task-Inv start attempt victim q e false (task ∷ rest) f =
      start_task-Inv inv i p victim q rest task (λ w. ap (sum_of w) f) (λ w. ap (phase_weight w) e)
        (ap busy e)
  steal_task-Inv start attempt victim q e true (task ∷ rest) f =
      try_attempt-Inv (stealing start attempt) start (attempt + 1) e refl (λ _. refl)
  steal_task-Inv start attempt victim q e true [] f =
      try_attempt-Inv (stealing start attempt) start (attempt + 1) e refl (λ _. refl)
  steal_task-Inv start attempt victim q e false [] f =
      try_attempt-Inv (stealing start attempt) start (attempt + 1) e refl (λ _. refl)

  finish_task-Inv :
      (s.threads i).phase ≡ finishing → sum_of one s.submitted < 2 ^ 63 → Inv (finish_task s i)
  unfolding finish_task
  finish_task-Inv e small = record {
    conserve = λ w. omega (arith, inv.conserve w, a w, ap (phase_weight w) e, weight w);
    counted =
        omega (
          arith,
          less,
          inv.counted,
          a one,
          b,
          ap busy e,
          ap (phase_weight one) e,
          weight one,
          free,
        );
    fewer = omega (arith, inv.fewer, b, ap busy e, free);
    quiet = λ d. absurd (omega (arith, inv.quiet d, some_busy));
    cleared = inv.cleared;
  }
    where
      t : Thread
      t =
          if s.pending == 1
          then record (s.threads i) { phase = returned }
          else record { phase = popping; backoff = 1 }

      weight : (w : ℕ → ℕ) → phase_weight w t.phase ≡ 0
      weight w = elim (Bool-cases (s.pending == 1)) [ inl y ↦ rw y refl | inr n ↦ rw n refl ]

      free : busy t.phase ≡ 0
      free = elim (Bool-cases (s.pending == 1)) [ inl y ↦ rw y refl | inr n ↦ rw n refl ]

      a :
          (w : ℕ → ℕ)
          → sum_to s.size (λ k. phase_weight w (update s.threads i t k).phase)
              + phase_weight w (s.threads i).phase
            ≡ announced w s + phase_weight w t.phase
      a w = sum_to-update s.size (λ c. phase_weight w c.phase) s.threads i t p

      b :
          sum_to s.size (λ k. busy (update s.threads i t k).phase) + busy (s.threads i).phase
          ≡ busy_count s + busy t.phase
      b = sum_to-update s.size (λ c. busy c.phase) s.threads i t p

      some_busy : 0 < busy_count s
      some_busy = omega (arith, ap busy e, sum_to-term s.size (λ k. busy (s.threads k).phase) i p)

      less : sub64 s.pending 1 + 1 ≡ s.pending
      less =
          sub64-one s.pending (omega (arith, inv.counted, some_busy))
            (omega (arith, pending-le inv))

  pub worker_step-Inv :
      (roll : ℕ) (lost : Bool) (ph : Phase)
      → (s.threads i).phase ≡ ph
      → sum_of one s.submitted < 2 ^ 63
      → Inv (worker_step s i roll lost ph)
  unfolding worker_step set_phase none_found
  worker_step-Inv roll lost popping e small = pop_task-Inv e (pop_back (s.workers i).deque) refl
  worker_step-Inv roll lost (running task) e small =
      thread-Inv inv i p (record (s.threads i) { phase = finishing })
        (λ w. ap (phase_weight w) (sym e)) (ap busy (sym e))
  worker_step-Inv roll lost (submitting task new) e small = submit_local-Inv inv i p task new e
  worker_step-Inv roll lost finishing e small = finish_task-Inv e small
  worker_step-Inv roll lost checking_pending e small = elim (Bool-cases (s.pending == 0)) [
    | inl y ↦ rw y (idle-Inv checking_pending _ e refl (λ _. refl) refl (λ _. refl))
    | inr n ↦ rw n (idle-Inv checking_pending _ e refl (λ _. refl) refl (λ _. refl))
  ]
  worker_step-Inv roll lost checking_shutdown e small =
      if-Inv s.shutdown (idle-Inv checking_shutdown _ e refl (λ _. refl) refl (λ _. refl)) (
        if-Inv (ltb 1 s.size)
          (try_attempt-Inv checking_shutdown (start_victim s.size i roll) 0 e refl (λ _. refl))
          (idle-Inv checking_shutdown _ e refl (λ _. refl) refl (λ _. refl)))
  worker_step-Inv roll lost (stealing start attempt) e small =
      steal_task-Inv start attempt (victim_at s.size i start attempt)
        (victim_at-lt s.size i start attempt p) e lost _ refl
  worker_step-Inv roll lost returned e small = inv

-- ===== src/WorkStealing/Invariant/Runs.antt =====
-- include/work_stealing_scheduler.hpp: the actions of other threads, and those of `run` itself, keep
-- the invariant.
use lock_free_work_stealing.Base.{
  ℕ, ◌+◌, ◌^◌, ◌<◌, ◌≡◌, ◌⊎◌, refl, sym, ap, arith, none, some, List, [], ◌∷◌, ◌++◌, sum_to, sum_of,
  sum_to-update, sum_to-zero, sum_to-vanish, sum_of-vanish, sum_of-append, add64-one, le_i64,
  le_i64-small, Bool-cases, inl, inr,
}
use lock_free_work_stealing.WorkStealing.{
  Phase, WorkerCtx, Driver, outside, waiting, joining, Scheduler, fresh, push_bottom, push_all,
  new_worker, submit, submit_injected, run_start, run_driver, all_returned,
}
use lock_free_work_stealing.WorkStealing.Invariant.{
  one, opt_weight, phase_weight, deques, announced, busy_count, Inv,
}
use lock_free_work_stealing.WorkStealing.Invariant.Submits.{pending-le}

pub fresh-Inv : Inv fresh
unfolding sum_to sum_of
fresh-Inv = record {
  conserve = λ w. refl;
  counted = refl;
  fewer = omega arith;
  quiet = λ d. refl;
  cleared = λ d. refl;
}

pub phase-vanish : (w : ℕ → ℕ) (p : Phase) → phase_weight one p ≡ 0 → phase_weight w p ≡ 0
phase-vanish w p e = ground (arith, e)

push_all-sum :
    (w : ℕ → ℕ) (n : ℕ)
    → 0 < n
    → (workers : ℕ → WorkerCtx) (tasks : List ℕ)
    → sum_to n (λ i. sum_of w (push_all workers 0 tasks i).deque)
      ≡ sum_to n (λ i. sum_of w (workers i).deque) + sum_of w tasks
unfolding push_all sum_of push_bottom
push_all-sum w n p workers [] = omega arith
push_all-sum w n p workers (task ∷ rest) = omega (
  arith,
  push_all-sum w n p (push_bottom workers 0 task) rest,
  sum_to-update n (λ c. sum_of w c.deque) workers 0
      (record (workers 0) { deque = (workers 0).deque ++ task ∷ [] }) p,
  sum_of-append w (workers 0).deque (task ∷ []),
)

module _ {s : Scheduler} (inv : Inv s) where
  pub external-Inv :
      (task : ℕ)
      → s.injecting ≡ none
      → sum_of one s.submitted + 1 < 2 ^ 63
      → Inv (submit s none 0 task)
  unfolding submit sum_of
  external-Inv task free small = record {
    conserve = λ w. omega (arith, inv.conserve w, ap (opt_weight w) free);
    counted = omega (
      arith,
      inv.counted,
      ap (opt_weight one) free,
      add64-one s.pending (omega (arith, pending-le inv)),
    );
    fewer = inv.fewer;
    quiet = inv.quiet;
    cleared = inv.cleared;
  }

  pub injected-Inv : (task : ℕ) → s.injecting ≡ some task → Inv (submit_injected s task)
  unfolding submit_injected sum_of
  injected-Inv task e = record {
    conserve = λ w.
        omega
          (arith, inv.conserve w, ap (opt_weight w) e, sum_of-append w s.inject_queue (task ∷ []));
    counted =
        omega
          (arith, inv.counted, ap (opt_weight one) e, sum_of-append one s.inject_queue (task ∷ []));
    fewer = inv.fewer;
    quiet = inv.quiet;
    cleared = inv.cleared;
  }

  pub run_driver-Inv :
      (d : Driver) → s.driver ≡ d → sum_of one s.submitted < 2 ^ 63 → Inv (run_driver s d)
  unfolding run_driver sum_to
  run_driver-Inv outside e small = inv
  run_driver-Inv waiting e small = elim (Bool-cases (le_i64 s.pending 0)) [
    | inl y ↦ rw y (record {
      conserve = inv.conserve;
      counted = inv.counted;
      fewer = inv.fewer;
      quiet = λ d. ground (
        arith,
        inv.counted,
        sym y,
        le_i64-small s.pending 0 (omega (arith, pending-le inv)) (omega arith),
      );
      cleared = λ d. absurd (ground (arith, d));
    })
    | inr n ↦ rw n inv
  ]
  run_driver-Inv joining e small = elim (Bool-cases (all_returned s s.size)) [
    | inl y ↦ rw y (record {
      conserve = λ w. omega (arith, inv.conserve w, inv.quiet e, empty w, silent w);
      counted = omega (arith, inv.counted, inv.quiet e);
      fewer = omega arith;
      quiet = λ d. omega arith;
      cleared = λ d. refl;
    })
    | inr n ↦ rw n inv
  ]
    where
      empty : (w : ℕ → ℕ) → deques w s ≡ 0
      empty w =
          sum_to-vanish s.size (λ i. sum_of one (s.workers i).deque)
            (λ i. sum_of w (s.workers i).deque) (λ i. sum_of-vanish w (s.workers i).deque)
            (omega (arith, inv.quiet e))

      silent : (w : ℕ → ℕ) → announced w s ≡ 0
      silent w =
          sum_to-vanish s.size (λ i. phase_weight one (s.threads i).phase)
            (λ i. phase_weight w (s.threads i).phase) (λ i. phase-vanish w (s.threads i).phase)
            (omega (arith, inv.quiet e))

  pub run_start-Inv :
      (n : ℕ) → (0 < n) ⊎ (s.inject_queue ≡ []) → s.driver ≡ outside → Inv (run_start s n)
  unfolding run_start sum_of sum_to
  run_start-Inv n p d = record {
    conserve = λ w. omega (arith, inv.conserve w, before w, pushed w, sum_to-zero n);
    counted = omega (arith, inv.counted, before one, pushed one, sum_to-zero n, before_busy);
    fewer = omega (arith, sum_to-zero n);
    quiet = λ j. absurd (ground (arith, j));
    cleared = λ j. absurd (ground (arith, j));
  }
    where
      before : (w : ℕ → ℕ) → deques w s + announced w s ≡ 0
      before w = rw (inv.cleared d) refl

      before_busy : busy_count s ≡ 0
      before_busy = rw (inv.cleared d) refl

      pushed :
          (w : ℕ → ℕ)
          → sum_to n (λ i. sum_of w (push_all new_worker 0 s.inject_queue i).deque)
            ≡ sum_of w s.inject_queue
      pushed w = elim p [
        | inl l ↦ omega (arith, push_all-sum w n l new_worker s.inject_queue, sum_to-zero n)
        | inr e ↦ rw e (sum_to-zero n)
      ]

-- ===== src/WorkStealing/Invariant/Submits.antt =====
-- include/work_stealing_scheduler.hpp: a submission by a task keeps the invariant.
use lock_free_work_stealing.Base.{
  ℕ, ◌+◌, ◌^◌, ◌≤◌, ◌<◌, ◌≡◌, ap, arith, true, some, List, [], ◌∷◌, ◌++◌, update, sum_to, sum_of,
  sum_to-update, sum_to-term, sum_of-append, add64-one, ltb,
}
use lock_free_work_stealing.WorkStealing.{
  running, submitting, Thread, Scheduler, set_phase, push_bottom, submit, submit_local,
}
use lock_free_work_stealing.WorkStealing.Invariant.{
  one, phase_weight, busy, deques, announced, busy_count, Inv,
}

pub pending-le : {s : Scheduler} → Inv s → s.pending ≤ sum_of one s.submitted
pending-le inv = omega (arith, inv.counted, inv.fewer, inv.conserve one)

ltb-true : (a b : ℕ) → a < b → ltb a b ≡ true
ltb-true a b p = ground arith

module _ {s : Scheduler} (inv : Inv s) (i : ℕ) (p : i < s.size) where
  -- The push that ends a submission by a task
  pub submit_local-Inv :
      (task new : ℕ) → (s.threads i).phase ≡ submitting task new → Inv (submit_local s i task new)
  unfolding submit_local set_phase push_bottom sum_of
  submit_local-Inv task new e = record {
    conserve = λ w. omega (arith, inv.conserve w, a w, c w, ap (phase_weight w) e, pushed w);
    counted =
        omega (arith, inv.counted, a one, b, c one, ap busy e, ap (phase_weight one) e, pushed one);
    fewer = omega (arith, inv.fewer, b, ap busy e);
    quiet = λ d. absurd (omega (arith, inv.quiet d, some_busy));
    cleared = inv.cleared;
  }
    where
      t : Thread
      t = record (s.threads i) { phase = running task }

      d' : List ℕ
      d' = (s.workers i).deque ++ new ∷ []

      a :
          (w : ℕ → ℕ)
          → sum_to s.size (λ k. phase_weight w (update s.threads i t k).phase)
              + phase_weight w (s.threads i).phase
            ≡ announced w s + 0
      a w = sum_to-update s.size (λ c. phase_weight w c.phase) s.threads i t p

      b :
          sum_to s.size (λ k. busy (update s.threads i t k).phase) + busy (s.threads i).phase
          ≡ busy_count s + 1
      b = sum_to-update s.size (λ c. busy c.phase) s.threads i t p

      c :
          (w : ℕ → ℕ)
          → sum_to s.size
                (λ k. sum_of w (update s.workers i (record (s.workers i) { deque = d' }) k).deque)
              + sum_of w (s.workers i).deque
            ≡ deques w s + sum_of w d'
      c w =
          sum_to-update s.size (λ c. sum_of w c.deque) s.workers i
            (record (s.workers i) { deque = d' }) p

      pushed : (w : ℕ → ℕ) → sum_of w d' ≡ sum_of w (s.workers i).deque + w new
      pushed w = omega (arith, sum_of-append w (s.workers i).deque (new ∷ []))

      some_busy : 0 < busy_count s
      some_busy = omega (arith, ap busy e, sum_to-term s.size (λ k. busy (s.threads k).phase) i p)

  -- A task submits a task.
  pub child-Inv :
      (task new : ℕ)
      → (s.threads i).phase ≡ running task
      → sum_of one s.submitted + 1 < 2 ^ 63
      → Inv (submit s (some i) task new)
  unfolding submit set_phase sum_of
  child-Inv task new e small = rw (ltb-true i s.size p) (record {
    conserve = λ w. omega (arith, inv.conserve w, a w, ap (phase_weight w) e);
    counted = omega (
      arith,
      add64-one s.pending (omega (arith, pending-le inv)),
      inv.counted,
      a one,
      b,
      ap busy e,
      ap (phase_weight one) e,
    );
    fewer = omega (arith, inv.fewer, b, ap busy e);
    quiet = λ d. absurd (omega (arith, inv.quiet d, some_busy));
    cleared = inv.cleared;
  })
    where
      t : Thread
      t = record (s.threads i) { phase = submitting task new }

      a :
          (w : ℕ → ℕ)
          → sum_to s.size (λ k. phase_weight w (update s.threads i t k).phase)
              + phase_weight w (s.threads i).phase
            ≡ announced w s + w new
      a w = sum_to-update s.size (λ c. phase_weight w c.phase) s.threads i t p

      b :
          sum_to s.size (λ k. busy (update s.threads i t k).phase) + busy (s.threads i).phase
          ≡ busy_count s + 1
      b = sum_to-update s.size (λ c. busy c.phase) s.threads i t p

      some_busy : 0 < busy_count s
      some_busy = omega (arith, ap busy e, sum_to-term s.size (λ k. busy (s.threads k).phase) i p)

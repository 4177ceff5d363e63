-- ===== src/MutexQueue/Invariant.antt =====
-- include/mutex_queue_scheduler.hpp: `pending_` and the histories against the queue and the workers.
use lock_free_work_stealing.Base.{
  ℕ, zero, suc, ◌+◌, ◌^◌, ◌≤◌, ◌<◌, ◌≡◌, refl, sym, ap, arith, Bool, true, List, [], ◌∷◌, ◌==◌,
  ◌&&◌, if◌then◌else◌, update, length, sum_to, sum_of, sum_to-update, sum_of-append, length-append,
  sum_of-ones, sub64, add64-one, Bool-cases, inl, inr, sum_to-term,
}
use lock_free_work_stealing.MutexQueue.{
  Phase, locking, sleeping, running, finishing, notifying, returned, Driver, outside, Monitor,
  fresh, submit, take_task, worker_step, has_returned, all_returned,
}

-- Does it have a task that is not counted as done?
abbrev pub busy : Phase → ℕ
busy (running task) = 1
busy finishing = 1
busy _ = 0

abbrev pub busy_count : Monitor → ℕ
busy_count s = sum_to s.size (λ i. busy (s.threads i))

pub record Inv (s : Monitor) : Type 0 where
  pub conserve : (w : ℕ → ℕ) → sum_of w s.submitted ≡ sum_of w s.queue + sum_of w s.ran
  pub counted : s.pending ≡ length s.queue + busy_count s
  pub fewer : busy_count s ≤ length s.ran
  pub cleared : s.driver ≡ outside → s.size ≡ 0

returned_only : (p : Phase) (b : Bool) → has_returned p && b ≡ true → (busy p ≡ 0) × (b ≡ true)
returned_only p b e = ground (arith, e)

pub all_returned-busy :
    (s : Monitor) (n : ℕ) → all_returned s n ≡ true → sum_to n (λ i. busy (s.threads i)) ≡ 0
unfolding sum_to
all_returned-busy s zero e = refl
all_returned-busy s (suc n) e =
    let (a, b) = returned_only (s.threads n) (all_returned s n) e in
    omega (arith, all_returned-busy s n b)

sub64-one : (a : ℕ) → 0 < a → a < 2 ^ 63 → sub64 a 1 + 1 ≡ a
unfolding sub64
sub64-one a p q = omega arith

pub fresh-Inv : Inv fresh
unfolding sum_to sum_of
fresh-Inv = record {
  conserve = λ w. refl;
  counted = refl;
  fewer = omega arith;
  cleared = λ d. refl;
}

module _ {s : Monitor} (inv : Inv s) where
  pub pending-le : s.pending ≤ length s.submitted
  pending-le = omega (
    arith,
    inv.counted,
    inv.fewer,
    inv.conserve (λ _. 1),
    sum_of-ones s.queue,
    sum_of-ones s.ran,
    sum_of-ones s.submitted,
  )

  pub submit-Inv : (task : ℕ) → length s.submitted + 1 < 2 ^ 63 → Inv (submit s task)
  unfolding submit sum_of
  submit-Inv task small = record {
    conserve = λ w. omega (arith, inv.conserve w, sum_of-append w s.queue (task ∷ []));
    counted = omega (
      arith,
      inv.counted,
      length-append s.queue (task ∷ []),
      add64-one s.pending (omega (arith, pending-le)),
    );
    fewer = inv.fewer;
    cleared = inv.cleared;
  }

  -- A worker, or the driver, that moves and keeps what it has.
  pub place-Inv :
      (i : ℕ) (p : Phase)
      → i < s.size
      → busy p ≡ busy (s.threads i)
      → (d : Driver) → (d ≡ outside → s.driver ≡ outside)
      → (n : ℕ) → Inv (record s { threads = update s.threads i p; driver = d; notices = n })
  place-Inv i p l same d f n = record {
    conserve = inv.conserve;
    counted = omega (arith, inv.counted, same, b);
    fewer = omega (arith, inv.fewer, same, b);
    cleared = λ e. inv.cleared (f e);
  }
    where
      b :
          sum_to s.size (λ k. busy (update s.threads i p k)) + busy (s.threads i)
          ≡ busy_count s + busy p
      b = sum_to-update s.size busy s.threads i p l

  pub take_task-Inv :
      (i : ℕ)
      → i < s.size
      → s.threads i ≡ locking
      → (q : List ℕ) → s.queue ≡ q
      → Inv (take_task s i q)
  unfolding take_task sum_of
  take_task-Inv i l e [] f =
      place-Inv i (if s.shutdown then returned else sleeping) l
        (elim (Bool-cases s.shutdown) [
          | inl y ↦ rw y (sym (ap busy e))
          | inr n ↦ rw n (sym (ap busy e))
        ])
        s.driver (λ d. d) s.notices
  take_task-Inv i l e (task ∷ rest) f = record {
    conserve = λ w. omega (arith, inv.conserve w, ap (sum_of w) f);
    counted = omega (arith, inv.counted, ap length f, b, ap busy e);
    fewer = omega (arith, inv.fewer, b, ap busy e);
    cleared = inv.cleared;
  }
    where
      b :
          sum_to s.size (λ k. busy (update s.threads i (running task) k)) + busy (s.threads i)
          ≡ busy_count s + 1
      b = sum_to-update s.size busy s.threads i (running task) l

  pub finish-Inv :
      (i : ℕ)
      → i < s.size
      → s.threads i ≡ finishing
      → length s.submitted < 2 ^ 63
      → Inv (worker_step s i finishing)
  unfolding worker_step
  finish-Inv i l e small = record {
    conserve = inv.conserve;
    counted = omega (arith, inv.counted, b, ap busy e, less, free);
    fewer = omega (arith, inv.fewer, b, ap busy e, free);
    cleared = inv.cleared;
  }
    where
      p : Phase
      p = if sub64 s.pending 1 == 0 then notifying else locking

      free : busy p ≡ 0
      free = elim (Bool-cases (sub64 s.pending 1 == 0)) [ inl y ↦ rw y refl | inr n ↦ rw n refl ]

      b :
          sum_to s.size (λ k. busy (update s.threads i p k)) + busy (s.threads i)
          ≡ busy_count s + busy p
      b = sum_to-update s.size busy s.threads i p l

      less : sub64 s.pending 1 + 1 ≡ s.pending
      less =
          sub64-one s.pending
            (omega
              (arith, inv.counted, ap busy e, sum_to-term s.size (λ k. busy (s.threads k)) i l))
            (omega (arith, pending-le))

-- ===== src/MutexQueue/Reached.antt =====
-- include/mutex_queue_scheduler.hpp: each step of a run against the accounts of the invariant.
use lock_free_work_stealing.Base.{
  ℕ, ◌-◌, ◌^◌, ◌≤◌, ◌<◌, ◌≡◌, ◌≢◌, refl, sym, ap, arith, Bool, true, false, List, [], ◌∷◌, ◌==◌,
  if◌then◌else◌, length, sum_to, sum_to-ext, Bool-cases, inl, inr, sum_to-zero,
}
use lock_free_work_stealing.MutexQueue.{
  Phase, locking, sleeping, running, finishing, notifying, returned, Driver, blocked, outside,
  entering, deciding, dozing, announcing, joining, Monitor, submit, notify_one, take_task,
  worker_step, run_start, run_driver, all_returned, wake, wake_driver, Step, child, notice, locked,
  works, awakens, drives, Reach, here, next, external, runs, rouses, destroys, destroy,
}
use lock_free_work_stealing.MutexQueue.Invariant.{
  busy, busy_count, Inv, all_returned-busy, fresh-Inv, submit-Inv, place-Inv, take_task-Inv,
  finish-Inv,
}

wake-busy : (p : Phase) → busy (wake p) ≡ busy p
wake-busy p = ground arith

module _ {s : Monitor} (inv : Inv s) where
  notices-Inv : (n : ℕ) → Inv (record s { notices = n })
  notices-Inv n = record {
    conserve = inv.conserve;
    counted = inv.counted;
    fewer = inv.fewer;
    cleared = inv.cleared;
  }

  notify_one-Inv : (i : ℕ) → i < s.size → (p : Phase) → s.threads i ≡ p → Inv (notify_one s i p)
  unfolding notify_one
  notify_one-Inv i l sleeping e =
      place-Inv inv i locking l (ap busy (sym e)) s.driver (λ d. d) (s.notices - 1)
  notify_one-Inv i l locking e = notices-Inv (s.notices - 1)
  notify_one-Inv i l (running task) e = notices-Inv (s.notices - 1)
  notify_one-Inv i l finishing e = notices-Inv (s.notices - 1)
  notify_one-Inv i l notifying e = notices-Inv (s.notices - 1)
  notify_one-Inv i l returned e = notices-Inv (s.notices - 1)

  wake_driver-outside : wake_driver s.driver ≡ outside → s.driver ≡ outside
  wake_driver-outside d = ground (arith, d)

  worker_step-Inv :
      (i : ℕ)
      → i < s.size
      → (p : Phase) → s.threads i ≡ p
      → length s.submitted < 2 ^ 63
      → Inv (worker_step s i p)
  unfolding worker_step
  worker_step-Inv i l locking e small = take_task-Inv inv i l e s.queue refl
  worker_step-Inv i l sleeping e small = inv
  worker_step-Inv i l (running task) e small =
      place-Inv inv i finishing l (ap busy (sym e)) s.driver (λ d. d) s.notices
  worker_step-Inv i l finishing e small = finish-Inv inv i l e small
  worker_step-Inv i l notifying e small =
      place-Inv inv i locking l (ap busy (sym e)) (wake_driver s.driver) wake_driver-outside
        s.notices
  worker_step-Inv i l returned e small = inv

  driver-Inv : (d : Driver) → d ≢ outside → Inv (record s { driver = d })
  driver-Inv d ne = record {
    conserve = inv.conserve;
    counted = inv.counted;
    fewer = inv.fewer;
    cleared = λ e. absurd (ne e);
  }

  run_driver-Inv : (d : Driver) → s.driver ≡ d → Inv (run_driver s d)
  unfolding run_driver sum_to
  run_driver-Inv outside e = inv
  run_driver-Inv entering e = driver-Inv deciding (λ z. ground (arith, z))
  run_driver-Inv deciding e = elim (Bool-cases (s.pending == 0)) [
    | inl y ↦ rw y (record {
      conserve = inv.conserve;
      counted = inv.counted;
      fewer = inv.fewer;
      cleared = λ z. absurd (ground (arith, z));
    })
    | inr n ↦ rw n (driver-Inv dozing (λ z. ground (arith, z)))
  ]
  run_driver-Inv dozing e = driver-Inv blocked (λ z. ground (arith, z))
  run_driver-Inv blocked e = inv
  run_driver-Inv announcing e = record {
    conserve = inv.conserve;
    counted = omega (arith, inv.counted, woken);
    fewer = omega (arith, inv.fewer, woken);
    cleared = λ z. absurd (ground (arith, z));
  }
    where
      woken : sum_to s.size (λ i. busy (wake (s.threads i))) ≡ busy_count s
      woken =
          sum_to-ext s.size (λ i. busy (wake (s.threads i))) (λ i. busy (s.threads i))
            (λ i l. wake-busy (s.threads i))
  run_driver-Inv joining e = elim (Bool-cases (all_returned s s.size)) [
    | inl y ↦ rw y (record {
      conserve = inv.conserve;
      counted = omega (arith, inv.counted, all_returned-busy s s.size y);
      fewer = omega arith;
      cleared = λ z. refl;
    })
    | inr n ↦ rw n inv
  ]

  destroy-Inv : Inv (destroy s)
  unfolding destroy
  destroy-Inv = record {
    conserve = inv.conserve;
    counted = omega (arith, inv.counted, woken);
    fewer = omega (arith, inv.fewer, woken);
    cleared = inv.cleared;
  }
    where
      woken : sum_to s.size (λ i. busy (wake (s.threads i))) ≡ busy_count s
      woken =
          sum_to-ext s.size (λ i. busy (wake (s.threads i))) (λ i. busy (s.threads i))
            (λ i l. wake-busy (s.threads i))

  run_start-Inv : (n : ℕ) → s.driver ≡ outside → Inv (run_start s n)
  unfolding run_start sum_to
  run_start-Inv n d = record {
    conserve = inv.conserve;
    counted = omega (arith, inv.counted, no_busy, sum_to-zero n);
    fewer = omega (arith, sum_to-zero n);
    cleared = λ z. absurd (ground (arith, z));
  }
    where
      no_busy : busy_count s ≡ 0
      no_busy = rw (inv.cleared d) refl

notify_one-submitted :
    (s : Monitor) (i : ℕ) (p : Phase) → (notify_one s i p).submitted ≡ s.submitted
unfolding notify_one
notify_one-submitted s i p = ground arith

take_task-submitted : (s : Monitor) (i : ℕ) (q : List ℕ) → (take_task s i q).submitted ≡ s.submitted
unfolding take_task
take_task-submitted s i [] = refl
take_task-submitted s i (task ∷ rest) = refl

worker_step-submitted :
    (s : Monitor) (i : ℕ) (p : Phase) → (worker_step s i p).submitted ≡ s.submitted
unfolding worker_step
worker_step-submitted s i locking = take_task-submitted s i s.queue
worker_step-submitted s i sleeping = refl
worker_step-submitted s i (running task) = refl
worker_step-submitted s i finishing = refl
worker_step-submitted s i notifying = refl
worker_step-submitted s i returned = refl

if-submitted :
    (x y : Monitor) (l : List ℕ) (b : Bool)
    → x.submitted ≡ l
    → y.submitted ≡ l
    → (if b then x else y).submitted ≡ l
if-submitted x y l true p q = p
if-submitted x y l false p q = q

run_driver-submitted : (s : Monitor) (d : Driver) → (run_driver s d).submitted ≡ s.submitted
unfolding run_driver
run_driver-submitted s outside = refl
run_driver-submitted s entering = refl
run_driver-submitted s deciding = if-submitted _ _ s.submitted (s.pending == 0) refl refl
run_driver-submitted s dozing = refl
run_driver-submitted s blocked = refl
run_driver-submitted s announcing = refl
run_driver-submitted s joining = if-submitted _ _ s.submitted (all_returned s s.size) refl refl

Step-submitted : {s t : Monitor} → Step s t → length s.submitted ≤ length t.submitted
unfolding submit
Step-submitted (child i task new l e free) = omega arith
Step-submitted {s} (notice i l n) =
    omega (arith, ap length (notify_one-submitted s i (s.threads i)))
Step-submitted {s} (locked i l e free) =
    omega (arith, ap length (worker_step-submitted s i locking))
Step-submitted {s} (works i p l e ne) = omega (arith, ap length (worker_step-submitted s i p))
Step-submitted (awakens i p e) = omega arith
Step-submitted {s} drives = omega (arith, ap length (run_driver-submitted s s.driver))

Step-Inv : {s t : Monitor} → Inv s → Step s t → length t.submitted < 2 ^ 63 → Inv t
unfolding submit
Step-Inv inv (child i task new l e free) small = submit-Inv inv new (omega arith)
Step-Inv {s} inv (notice i l n) small = notify_one-Inv inv i l (s.threads i) refl
Step-Inv {s} inv (locked i l e free) small =
    worker_step-Inv inv i l locking e (omega (arith, ap length (worker_step-submitted s i locking)))
Step-Inv {s} inv (works i p l e ne) small =
    worker_step-Inv inv i l p e (omega (arith, ap length (worker_step-submitted s i p)))
Step-Inv {s} inv (awakens i l e) small =
    place-Inv inv i locking l (ap busy (sym e)) s.driver (λ d. d) s.notices
Step-Inv {s} inv drives small = run_driver-Inv inv s.driver refl

pub Reach-Inv : {s : Monitor} → Reach s → length s.submitted < 2 ^ 63 → Inv s
unfolding submit run_start destroy
Reach-Inv here small = fresh-Inv
Reach-Inv (next r st) small = Step-Inv (Reach-Inv r (omega (arith, Step-submitted st))) st small
Reach-Inv (external task r free) small = submit-Inv (Reach-Inv r (omega arith)) task (omega arith)
Reach-Inv (runs n r d) small = run_start-Inv (Reach-Inv r small) n d
Reach-Inv (rouses r e) small = driver-Inv (Reach-Inv r small) entering (λ z. ground (arith, z))
Reach-Inv (destroys r e) small = destroy-Inv (Reach-Inv r small)

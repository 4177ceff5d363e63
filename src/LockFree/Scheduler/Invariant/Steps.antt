-- ===== src/LockFree/Scheduler/Invariant/Steps.antt =====
-- include/lockfree_queue_scheduler.hpp: every step keeps the accounts.
use lock_free_work_stealing.Base.{
  ℕ, zero, suc, ◌+◌, ◌^◌, ◌≤◌, ◌<◌, ◌≡◌, ◌∙◌, refl, sym, ap, subst, arith, Bool, true, false,
  Bool-cases, inl, inr, none, some, length, sum_of, sum_to-ext, sum_to-term, sum_to-update,
  sum_of-ones, update, update_ind, if◌then◌else◌, ltb, dec_lt, ◌&&◌, lt_i64, sub64,
}
use lock_free_work_stealing.LockFree.{idle}
use lock_free_work_stealing.LockFree.Scheduler.{
  Phase, outside, announcing, inserting, entering, polling, running, finishing, checking, returned,
  Driver, resting, watching, stopping, joining, Pool, thread_step, run_start, run_driver,
  has_returned, all_returned, Step, moves, child, external, runs, drives,
}
use lock_free_work_stealing.LockFree.Scheduler.Moves.{is_enqueue}
use lock_free_work_stealing.LockFree.Scheduler.Invariant.{
  new_weight, busy_weight, Fits, PoolInv, taken-le, place-PoolInv,
}
use lock_free_work_stealing.LockFree.Scheduler.Invariant.Submits.{
  announcing-PoolInv, inserting-PoolInv,
}
use lock_free_work_stealing.LockFree.Scheduler.Invariant.Enters.{enter-PoolInv}
use lock_free_work_stealing.LockFree.Scheduler.Invariant.Polls.{poll-PoolInv}

sub64-one : (a : ℕ) → 0 < a → a < 2 ^ 63 → sub64 a 1 + 1 ≡ a
unfolding sub64
sub64-one a p q = omega arith

all_returned-below :
    (s : Pool) (n : ℕ) → all_returned s n ≡ true → (i : ℕ) → i < n → s.threads i ≡ returned
all_returned-below s zero e i p = absurd (omega arith)
all_returned-below s (suc n) e i p = elim (dec_lt i n) [
  | yes q ↦ all_returned-below s n (both (s.threads n) (all_returned s n) e).1 i q
  | no nq ↦
      let same : i ≡ n = omega arith in
      ap s.threads same ∙ (both (s.threads n) (all_returned s n) e).0
]
  where
    both : (p : Phase) (b : Bool) → has_returned p && b ≡ true → (p ≡ returned) × (b ≡ true)
    both p b e = ground (arith, e)

if-Phase :
    (P : Phase → Type 0) (b : Bool) → P returned → P polling → P (if b then returned else polling)
if-Phase P true x y = x
if-Phase P false x y = y

module _ {limit : ℕ} {s : Pool} (inv : PoolInv limit s) where
  finishing-PoolInv :
      (i task : ℕ) (spurious : Bool)
      → i < limit
      → s.threads i ≡ finishing task
      → length s.submitted < 2 ^ 62
      → PoolInv limit (thread_step s i spurious (finishing task))
  unfolding thread_step sum_of
  finishing-PoolInv i task spurious l e small = record {
    ring = inv.ring;
    fits = λ j.
        update_ind s.threads (λ q. Fits q (s.ring.threads j)) i j polling
          (λ z. subst (λ k. is_enqueue (s.ring.threads k) ≡ false) z (ap is_enqueue rest))
          (λ ne. inv.fits j);
    entered = λ w. omega (
      arith,
      inv.entered w,
      sum_to-update limit (new_weight w) s.threads i polling l,
      ap (new_weight w) e,
    );
    taken = inv.taken;
    started = λ w. omega (
      arith,
      inv.started w,
      sum_to-update limit (busy_weight w) s.threads i polling l,
      ap (busy_weight w) e,
    );
    counted = omega (
      arith,
      inv.counted,
      sub64-one s.pending (omega (arith, inv.counted, fewer)) (omega (arith, inv.counted)),
    );
    bounded = inv.bounded;
  }
    where
      rest : s.ring.threads i ≡ idle
      rest = subst (λ q. Fits q (s.ring.threads i)) e (inv.fits i)

      fewer : length s.done < length s.submitted
      fewer = omega (
        arith,
        inv.entered (λ _. 1),
        inv.taken (λ _. 1),
        inv.started (λ _. 1),
        taken-le inv (λ _. 1),
        sum_to-term limit (λ j. busy_weight (λ _. 1) (s.threads j)) i l,
        ap (busy_weight (λ _. 1)) e,
        sum_of-ones s.submitted,
        sum_of-ones s.ran,
        sum_of-ones s.done,
      )

  place_at :
      (i : ℕ) (old new : Phase)
      → i < limit
      → s.threads i ≡ old
      → Fits new (s.ring.threads i)
      → ((w : ℕ → ℕ) → new_weight w new ≡ new_weight w old)
      → ((w : ℕ → ℕ) → busy_weight w new ≡ busy_weight w old)
      → PoolInv limit (record s { threads = update s.threads i new })
  place_at i old new l e fit a b =
      place-PoolInv inv i new l fit (λ w. a w ∙ sym (ap (new_weight w) e))
        (λ w. b w ∙ sym (ap (busy_weight w) e))

  rests : (i : ℕ) (p : Phase) → s.threads i ≡ p → Fits p (s.ring.threads i)
  rests i p e = subst (λ q. Fits q (s.ring.threads i)) e (inv.fits i)

  thread_step-PoolInv :
      (i : ℕ) (spurious : Bool) (p : Phase)
      → i < limit
      → s.threads i ≡ p
      → length s.submitted < 2 ^ 62
      → PoolInv limit (thread_step s i spurious p)
  unfolding thread_step
  thread_step-PoolInv i spurious outside l e small = inv
  thread_step-PoolInv i spurious (announcing caller task) l e small =
      announcing-PoolInv inv i l spurious caller task e small
  thread_step-PoolInv i spurious (inserting caller task) l e small =
      inserting-PoolInv inv i l spurious caller task e small
  thread_step-PoolInv i spurious (entering caller) l e small =
      enter-PoolInv inv i l small spurious caller e
  thread_step-PoolInv i spurious polling l e small =
      poll-PoolInv inv i l small spurious (s.ring.threads i) e refl
  thread_step-PoolInv i spurious (running task) l e small =
      place_at i (running task) (finishing task) l e (rests i (running task) e) (λ w. refl)
        (λ w. refl)
  thread_step-PoolInv i spurious (finishing task) l e small =
      finishing-PoolInv i task spurious l e small
  thread_step-PoolInv i spurious checking l e small =
      place_at i checking (if s.shutdown then returned else polling) l e
        (if-Phase (λ q. Fits q (s.ring.threads i)) s.shutdown (rests i checking e)
          (ap is_enqueue (rests i checking e)))
        (λ w. if-Phase (λ q. new_weight w q ≡ 0) s.shutdown refl refl)
        (λ w. if-Phase (λ q. busy_weight w q ≡ 0) s.shutdown refl refl)
  thread_step-PoolInv i spurious returned l e small = inv

  -- Threads that change from one place without a task to another.
  swap-PoolInv :
      (threads : ℕ → Phase) (size : ℕ) (d : Driver) (shutdown : Bool)
      → size ≤ limit
      → ((i : ℕ) → Fits (threads i) (s.ring.threads i))
      → ((w : ℕ → ℕ) (i : ℕ) → new_weight w (threads i) ≡ new_weight w (s.threads i))
      → ((w : ℕ → ℕ) (i : ℕ) → busy_weight w (threads i) ≡ busy_weight w (s.threads i))
      → PoolInv limit (record s { threads = threads; size = size; driver = d; shutdown = shutdown })
  swap-PoolInv threads size d shutdown b fits new busy = record {
    ring = inv.ring;
    fits = fits;
    entered = λ w. omega (arith, inv.entered w, sum_to-ext limit _ _ (λ i l. new w i));
    taken = inv.taken;
    started = λ w. omega (arith, inv.started w, sum_to-ext limit _ _ (λ i l. busy w i));
    counted = inv.counted;
    bounded = b;
  }

  -- The same place for the threads below a bound, which all stand at another.
  module _ (n : ℕ) (old new : Phase) (below : (i : ℕ) → i < n → s.threads i ≡ old) where
    below_ind :
        (P : Phase → ℕ → Type 0)
        → ((i : ℕ) → s.threads i ≡ old → P new i)
        → ((i : ℕ) → P (s.threads i) i)
        → (i : ℕ) → P (if ltb i n then new else s.threads i) i
    below_ind P a b i = elim (Bool-cases (ltb i n)) [
      | inl y ↦ rw y (a i (below i (ground (arith, y))))
      | inr m ↦ rw m (b i)
    ]

    all-PoolInv :
        (size : ℕ) (d : Driver) (shutdown : Bool)
        → size ≤ limit
        → ((i : ℕ) → s.threads i ≡ old → Fits new (s.ring.threads i))
        → ((w : ℕ → ℕ) → new_weight w new ≡ new_weight w old)
        → ((w : ℕ → ℕ) → busy_weight w new ≡ busy_weight w old)
        → PoolInv limit (record s {
          threads = λ i. if ltb i n then new else s.threads i;
          size = size;
          driver = d;
          shutdown = shutdown;
        })
    all-PoolInv size d shutdown b fit a c =
        swap-PoolInv _ size d shutdown b (below_ind (λ p i. Fits p (s.ring.threads i)) fit inv.fits)
          (λ w.
            below_ind (λ p i. new_weight w p ≡ new_weight w (s.threads i))
              (λ i e. a w ∙ sym (ap (new_weight w) e)) (λ i. refl))
          (λ w.
            below_ind (λ p i. busy_weight w p ≡ busy_weight w (s.threads i))
              (λ i e. c w ∙ sym (ap (busy_weight w) e)) (λ i. refl))

  run_driver-PoolInv : (d : Driver) → PoolInv limit (run_driver s d)
  unfolding run_driver
  run_driver-PoolInv resting = inv
  run_driver-PoolInv watching = elim (Bool-cases (lt_i64 0 s.pending)) [
    | inl y ↦ rw y inv
    | inr n ↦ rw n (
        swap-PoolInv s.threads s.size stopping s.shutdown inv.bounded inv.fits (λ w i. refl)
          (λ w i. refl))
  ]
  run_driver-PoolInv stopping =
      swap-PoolInv s.threads s.size joining true inv.bounded inv.fits (λ w i. refl) (λ w i. refl)
  run_driver-PoolInv joining = elim (Bool-cases (all_returned s s.size)) [
    | inl y ↦ rw y (
        all-PoolInv s.size returned outside (all_returned-below s s.size y) 0 resting s.shutdown
          (omega arith) (λ i e. rests i returned e) (λ w. refl) (λ w. refl))
    | inr n ↦ rw n inv
  ]

  pub Step-PoolInv : {t : Pool} → Step limit s t → length s.submitted < 2 ^ 62 → PoolInv limit t
  unfolding run_start
  Step-PoolInv (moves i spurious l) small =
      thread_step-PoolInv i spurious (s.threads i) l refl small
  Step-PoolInv (child i task new l e) small =
      place_at i (running task) (announcing (some task) new) l e (rests i (running task) e)
        (λ w. refl) (λ w. refl)
  Step-PoolInv (external i new l o e) small =
      place_at i outside (announcing none new) l e (rests i outside e) (λ w. refl) (λ w. refl)
  Step-PoolInv (runs n b d free) small =
      all-PoolInv n outside polling free n watching false b
        (λ i e. ap is_enqueue (rests i outside e)) (λ w. refl) (λ w. refl)
  Step-PoolInv drives small = run_driver-PoolInv s.driver

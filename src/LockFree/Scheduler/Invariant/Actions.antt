-- ===== src/LockFree/Scheduler/Invariant/Actions.antt =====
-- include/lockfree_queue_scheduler.hpp: an action of a thread in `enqueue` or `dequeue`.
use lock_free_work_stealing.Base.{
  ℕ, ◌+◌, ◌^◌, ◌<◌, ◌≡◌, ◌≢◌, ◌∙◌, sym, ap, subst, arith, true, false, inl, inr, List, length,
  sum_of, sum_to-at, ℕ_discrete,
}
use lock_free_work_stealing.LockFree.{Op, idle, Ring}
use lock_free_work_stealing.LockFree.Invariant.{Inv}
use lock_free_work_stealing.LockFree.Scheduler.{Phase, Pool, is_idle}
use lock_free_work_stealing.LockFree.Scheduler.Moves.{is_enqueue, op_weight, Stays, Moved}
use lock_free_work_stealing.LockFree.Scheduler.Invariant.{
  new_weight, busy_weight, Fits, PoolInv, Moved-sums,
}

pub is_idle-idle : (o : Op) → is_idle o ≡ true → o ≡ idle
is_idle-idle o e = ground (arith, e)

pub Stays-enqueue :
    (before after : Op)
    → is_enqueue before ≡ true
    → is_idle after ≡ false
    → Stays before after
    → is_enqueue after ≡ true
Stays-enqueue before after e busy (inl s) = s ∙ e
Stays-enqueue before after e busy (inr z) = absurd (ground (arith, busy, z))

pub Stays-dequeue :
    (before after : Op) → is_enqueue before ≡ false → Stays before after → is_enqueue after ≡ false
Stays-dequeue before after e (inl s) = s ∙ e
Stays-dequeue before after e (inr z) = ap is_enqueue z

pub enqueue_weight : (o : Op) (w : ℕ → ℕ) → is_enqueue o ≡ true → op_weight w o ≡ 0
enqueue_weight o w e = ground (arith, e)

module _ {limit : ℕ} {s : Pool} (inv : PoolInv limit s) (i : ℕ) (l : i < limit)
    (small : length s.submitted < 2 ^ 62) where
  -- An action on the ring, after which the thread is where `threads` says.
  pub action-PoolInv :
      (t : Ring) (threads : ℕ → Phase) (ran : List ℕ)
      → Inv t
      → Moved s.ring i (s.ring.threads i) t
      → ((j : ℕ) → i ≢ j → threads j ≡ s.threads j)
      → Fits (threads i) (t.threads i)
      → ((w : ℕ → ℕ) → new_weight w (threads i) ≡ new_weight w (s.threads i))
      → ((w : ℕ → ℕ)
          → sum_of w ran
            ≡ sum_of w s.ran + op_weight (λ p. w (s.ring.entered p)) (s.ring.threads i))
      → ((w : ℕ → ℕ)
          → busy_weight w (threads i)
            ≡ busy_weight w (s.threads i)
              + op_weight (λ p. w (s.ring.entered p)) (s.ring.threads i))
      → PoolInv limit (record s { ring = t; threads = threads; ran = ran })
  action-PoolInv t threads ran valid m others fit new starts busy = record {
    ring = valid;
    fits = λ j. elim (ℕ_discrete i j) [
      | yes e ↦ subst (λ k. Fits (threads k) (t.threads k)) e fit
      | no ne ↦
          subst (λ p. Fits p (t.threads j)) (sym (others j ne))
            (subst (Fits (s.threads j)) (sym (m.others j ne)) (inv.fits j))
    ];
    entered = λ w. omega (
      arith,
      inv.entered w,
      (Moved-sums limit w l m).0,
      new w,
      sum_to-at limit (λ j. new_weight w (threads j)) (λ j. new_weight w (s.threads j)) i l
          (λ j q ne. ap (new_weight w) (others j ne)),
    );
    taken = λ w. omega (arith, inv.taken w, (Moved-sums limit w l m).1, starts w);
    started = λ w. omega (
      arith,
      inv.started w,
      starts w,
      busy w,
      sum_to-at limit (λ j. busy_weight w (threads j)) (λ j. busy_weight w (s.threads j)) i l
          (λ j q ne. ap (busy_weight w) (others j ne)),
    );
    counted = inv.counted;
    bounded = inv.bounded;
  }

-- ===== src/LockFree/Scheduler/Invariant/Enters.antt =====
-- include/lockfree_queue_scheduler.hpp, enqueue: its actions keep the accounts.
use lock_free_work_stealing.Base.{
  ℕ, ◌^◌, ◌<◌, ◌≡◌, ◌∙◌, refl, sym, ap, subst, arith, Bool, true, Bool-cases, inl, inr, Option,
  none, some, length, update, update_ne, update_self, if◌then◌else◌,
}
use lock_free_work_stealing.LockFree.{idle, Ring, op_step}
use lock_free_work_stealing.LockFree.Invariant.{Inv}
use lock_free_work_stealing.LockFree.Invariant.Steps.{op_step-Inv}
use lock_free_work_stealing.LockFree.Scheduler.{Phase, entering, Pool, enter, resume, is_idle}
use lock_free_work_stealing.LockFree.Scheduler.Moves.{is_enqueue, Moved, op_step-Moved}
use lock_free_work_stealing.LockFree.Scheduler.Invariant.{
  new_weight, caller_weight, busy_weight, Fits, PoolInv, head-le,
}
use lock_free_work_stealing.LockFree.Scheduler.Invariant.Actions.{
  is_idle-idle, Stays-enqueue, enqueue_weight, action-PoolInv,
}

module _ {limit : ℕ} {s : Pool} (inv : PoolInv limit s) (i : ℕ) (l : i < limit)
    (small : length s.submitted < 2 ^ 62) where
  module _ (spurious : Bool) where
    pub enter-PoolInv :
        (caller : Option ℕ)
        → s.threads i ≡ entering caller
        → PoolInv limit (enter s i spurious caller)
    unfolding enter
    enter-PoolInv caller e =
        action-PoolInv inv i l small after (update s.threads i p) s.ran valid moved
          (λ j ne. update_ne s.threads i j p ne)
          (subst (λ q. Fits q (after.threads i)) (sym at) fit)
          (λ w. ap (new_weight w) at ∙ new w ∙ sym (ap (new_weight w) e))
          (λ w.
            omega (arith, enqueue_weight (s.ring.threads i) (λ q. w (s.ring.entered q)) putting))
          (λ w. omega (
            arith,
            ap (busy_weight w) at,
            busy w,
            ap (busy_weight w) e,
            enqueue_weight (s.ring.threads i) (λ q. w (s.ring.entered q)) putting,
          ))
      where
        after : Ring
        after = op_step s.ring i spurious (s.ring.threads i)

        valid : Inv after
        valid = op_step-Inv inv.ring (omega (arith, head-le inv)) i spurious (s.ring.threads i) refl

        moved : Moved s.ring i (s.ring.threads i) after
        moved = op_step-Moved s.ring i spurious (s.ring.threads i) refl

        p : Phase
        p = if is_idle (after.threads i) then resume caller else entering caller

        at : update s.threads i p i ≡ p
        at = update_self s.threads i p

        putting : is_enqueue (s.ring.threads i) ≡ true
        putting = subst (λ q. Fits q (s.ring.threads i)) e (inv.fits i)

        resumed : (c : Option ℕ) → after.threads i ≡ idle → Fits (resume c) (after.threads i)
        resumed none z = z
        resumed (some task) z = z

        fit : Fits p (after.threads i)
        fit = elim (Bool-cases (is_idle (after.threads i))) [
          | inl y ↦ rw y (resumed caller (is_idle-idle (after.threads i) y))
          | inr n ↦ rw n (Stays-enqueue _ (after.threads i) putting n moved.stays)
        ]

        new_resume : (w : ℕ → ℕ) (c : Option ℕ) → new_weight w (resume c) ≡ 0
        new_resume w none = refl
        new_resume w (some task) = refl

        busy_resume : (w : ℕ → ℕ) (c : Option ℕ) → busy_weight w (resume c) ≡ caller_weight w c
        busy_resume w none = refl
        busy_resume w (some task) = refl

        new : (w : ℕ → ℕ) → new_weight w p ≡ 0
        new w = elim (Bool-cases (is_idle (after.threads i))) [
          | inl y ↦ rw y (new_resume w caller)
          | inr n ↦ rw n refl
        ]

        busy : (w : ℕ → ℕ) → busy_weight w p ≡ caller_weight w caller
        busy w = elim (Bool-cases (is_idle (after.threads i))) [
          | inl y ↦ rw y (busy_resume w caller)
          | inr n ↦ rw n refl
        ]

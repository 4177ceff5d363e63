-- ===== src/LockFree/Scheduler/Invariant/Polls.antt =====
-- include/lockfree_queue_scheduler.hpp, dequeue: its actions keep the accounts.
use lock_free_work_stealing.Base.{
  ℕ, ◌+◌, ◌^◌, ◌<◌, ◌≡◌, ◌∙◌, refl, sym, ap, subst, arith, Bool, false, Bool-cases, inl, inr,
  Option, none, some, length, sum_of, update, update_ne, update_self, if◌then◌else◌,
}
use lock_free_work_stealing.LockFree.{
  Op, idle, awaiting, storing, publishing, loading, reading, claiming, taking, returning, reloading,
  Ring, set_op, op_step,
}
use lock_free_work_stealing.LockFree.Invariant.{Inv, OpOk}
use lock_free_work_stealing.LockFree.Invariant.Enqueue.{place-Inv}
use lock_free_work_stealing.LockFree.Invariant.Steps.{op_step-Inv}
use lock_free_work_stealing.LockFree.Scheduler.{polling, Pool, poll, is_idle, branch, log_start}
use lock_free_work_stealing.LockFree.Scheduler.Moves.{is_enqueue, op_weight, Moved, op_step-Moved}
use lock_free_work_stealing.LockFree.Scheduler.Invariant.{
  new_weight, caller_weight, busy_weight, Fits, PoolInv, head-le,
}
use lock_free_work_stealing.LockFree.Scheduler.Invariant.Actions.{
  is_idle-idle, Stays-dequeue, action-PoolInv,
}

returning-ends :
    (r : Ring) (i pos : ℕ) (spurious : Bool)
    → (op_step r i spurious (returning pos)).threads i ≡ idle
unfolding op_step
returning-ends r i pos spurious = update_self r.threads i idle

module _ {limit : ℕ} {s : Pool} (inv : PoolInv limit s) (i : ℕ) (l : i < limit)
    (small : length s.submitted < 2 ^ 62) where
  module _ (spurious : Bool) where
    -- The end of `dequeue`, or an action before it.
    ended :
        (o : Op) (out : Option ℕ)
        → s.threads i ≡ polling
        → s.ring.threads i ≡ o
        → ((w : ℕ → ℕ) → caller_weight w out ≡ op_weight (λ p. w (s.ring.entered p)) o)
        → (is_idle ((op_step s.ring i spurious o).threads i) ≡ false
            → (w : ℕ → ℕ) → op_weight w o ≡ 0)
        → PoolInv limit (
            if is_idle ((op_step s.ring i spurious o).threads i)
            then record s {
              ring = op_step s.ring i spurious o;
              threads = update s.threads i (branch out);
              ran = log_start out s.ran;
            }
            else record s { ring = op_step s.ring i spurious o })
    unfolding sum_of
    ended o out e f returns none_held = elim (Bool-cases (is_idle (t.threads i))) [
      | inl y ↦ rw y (
          action-PoolInv inv i l small t (update s.threads i (branch out)) (log_start out s.ran)
            t_ok t_moved (λ j ne. update_ne s.threads i j (branch out) ne)
            (subst (λ q. Fits q (t.threads i)) (sym at) (ends out (is_idle-idle (t.threads i) y)))
            (λ w. ap (new_weight w) at ∙ new w out ∙ sym (ap (new_weight w) e))
            (λ w. omega (arith, starts w out, returns w, same w))
            (λ w.
              omega (
                arith,
                ap (busy_weight w) at,
                busy w out,
                ap (busy_weight w) e,
                returns w,
                same w,
              )))
      | inr n ↦ rw n (
          action-PoolInv inv i l small t s.threads s.ran t_ok t_moved (λ j ne. refl)
            (subst (λ q. Fits q (t.threads i)) (sym e)
              (Stays-dequeue (s.ring.threads i) (t.threads i) taking_out t_moved.stays))
            (λ w. refl) (λ w. omega (arith, none_held n (λ q. w (s.ring.entered q)), same w))
            (λ w. omega (arith, none_held n (λ q. w (s.ring.entered q)), same w)))
    ]
      where
        t : Ring
        t = op_step s.ring i spurious o

        t_ok : Inv t
        t_ok = op_step-Inv inv.ring (omega (arith, head-le inv)) i spurious o f

        t_moved : Moved s.ring i (s.ring.threads i) t
        t_moved = subst (λ x. Moved s.ring i x t) (sym f) (op_step-Moved s.ring i spurious o f)

        same :
            (w : ℕ → ℕ)
            → op_weight (λ p. w (s.ring.entered p)) (s.ring.threads i)
              ≡ op_weight (λ p. w (s.ring.entered p)) o
        same w = ap (op_weight (λ p. w (s.ring.entered p))) f

        taking_out : is_enqueue (s.ring.threads i) ≡ false
        taking_out = subst (λ q. Fits q (s.ring.threads i)) e (inv.fits i)

        at : update s.threads i (branch out) i ≡ branch out
        at = update_self s.threads i (branch out)

        ends : (x : Option ℕ) → t.threads i ≡ idle → Fits (branch x) (t.threads i)
        ends none z = z
        ends (some task) z = z

        new : (w : ℕ → ℕ) (x : Option ℕ) → new_weight w (branch x) ≡ 0
        new w none = refl
        new w (some task) = refl

        busy : (w : ℕ → ℕ) (x : Option ℕ) → busy_weight w (branch x) ≡ caller_weight w x
        busy w none = refl
        busy w (some task) = refl

        starts :
            (w : ℕ → ℕ) (x : Option ℕ)
            → sum_of w (log_start x s.ran) ≡ sum_of w s.ran + caller_weight w x
        starts w none = omega arith
        starts w (some task) = omega arith

    -- The call of `dequeue`
    call-PoolInv :
        s.threads i ≡ polling
        → s.ring.threads i ≡ idle
        → PoolInv limit (record s { ring = set_op s.ring i loading })
    call-PoolInv e f =
        action-PoolInv inv i l small t s.threads s.ran
          (place-Inv inv.ring i loading (λ q a. absurd (ground (arith, a)))
            (λ q a. absurd (ground (arith, a))) (omega arith))
          (record {
            entered = refl;
            head = refl;
            others = λ j ne. update_ne s.ring.threads i j loading ne;
            taken = λ w. omega (arith, ap (op_weight w) at);
            stays = inl (ap is_enqueue at ∙ sym (ap is_enqueue f));
          })
          (λ j ne. refl) (subst (λ q. Fits q (t.threads i)) (sym e) (ap is_enqueue at)) (λ w. refl)
          (λ w. omega (arith, ap (op_weight (λ p. w (s.ring.entered p))) f))
          (λ w. omega (arith, ap (op_weight (λ p. w (s.ring.entered p))) f))
      where
        t : Ring
        t = set_op s.ring i loading

        at : t.threads i ≡ loading
        at = update_self s.ring.threads i loading

    pub poll-PoolInv :
        (o : Op)
        → s.threads i ≡ polling
        → s.ring.threads i ≡ o
        → PoolInv limit (poll s i spurious o)
    unfolding poll
    poll-PoolInv idle e f = call-PoolInv e f
    poll-PoolInv (returning pos) e f =
        ended (returning pos) (s.ring.got pos) e f
          (λ w.
            ap (caller_weight w) (inv.ring.right pos (subst (OpOk s.ring) f (inv.ring.each i)).1.1))
          (λ n w.
            absurd
              (let z = ap is_idle (returning-ends s.ring i pos spurious) in ground (arith, n, z)))
    poll-PoolInv (awaiting pos task) e f = ended _ none e f (λ w. refl) (λ n w. refl)
    poll-PoolInv (storing pos task) e f = ended _ none e f (λ w. refl) (λ n w. refl)
    poll-PoolInv (publishing pos) e f = ended _ none e f (λ w. refl) (λ n w. refl)
    poll-PoolInv loading e f = ended _ none e f (λ w. refl) (λ n w. refl)
    poll-PoolInv (reading pos) e f = ended _ none e f (λ w. refl) (λ n w. refl)
    poll-PoolInv (claiming pos) e f = ended _ none e f (λ w. refl) (λ n w. refl)
    poll-PoolInv (taking pos) e f = ended _ none e f (λ w. refl) (λ n w. refl)
    poll-PoolInv reloading e f = ended _ none e f (λ w. refl) (λ n w. refl)

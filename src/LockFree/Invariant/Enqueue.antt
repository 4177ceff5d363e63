-- ===== src/LockFree/Invariant/Enqueue.antt =====
-- include/lockfree_queue_scheduler.hpp, enqueue: its actions keep the invariant.
use lock_free_work_stealing.Base.{
  ℕ, ◌+◌, ◌^◌, ◌≤◌, ◌<◌, ◌≡◌, ◌≢◌, ◌∙◌, refl, sym, ap, subst, arith, some, count, update,
  update_ind, update_self, update_ne, ℕ_discrete, dec_lt, add64, add64-one, Bool,
}
use lock_free_work_stealing.LockFree.{
  ring_size, slot_of, Op, idle, awaiting, storing, publishing, loading, reading, claiming, taking,
  returning, reloading, Ring, set_op, reserve, op_step,
}
use lock_free_work_stealing.LockFree.Invariant.{reserved, claimed, OpOk, SlotOk, free, full, Inv}
use lock_free_work_stealing.LockFree.Invariant.Frame.{
  OpOk-frame, SlotOk-frame, Apart-update, Apart-new, filling-ne_filling, filling-ne_drained,
  filling-range,
}

pub slot_of-lt : (pos : ℕ) → slot_of pos < ring_size
slot_of-lt pos = omega arith

pub reserved-lt : (s : Ring) (o : Op) (pos : ℕ) → OpOk s o → reserved o ≡ some pos → pos < s.head
reserved-lt s (awaiting p task) pos ok e = let q = ok.0 in ground (arith, e)
reserved-lt s (storing p task) pos ok e = let q = ok.0 in ground (arith, e)
reserved-lt s (publishing p) pos ok e = let q = ok.0 in ground (arith, e)
reserved-lt s idle pos ok e = absurd (ground (arith, e))
reserved-lt s loading pos ok e = absurd (ground (arith, e))
reserved-lt s (reading p) pos ok e = absurd (ground (arith, e))
reserved-lt s (claiming p) pos ok e = absurd (ground (arith, e))
reserved-lt s (taking p) pos ok e = absurd (ground (arith, e))
reserved-lt s (returning p) pos ok e = absurd (ground (arith, e))
reserved-lt s reloading pos ok e = absurd (ground (arith, e))

module _ {s : Ring} (inv : Inv s) where
  pub taken_lt : (pos : ℕ) → 0 < count pos s.taken → pos < s.tail
  taken_lt pos c = elim (dec_lt pos s.tail) [
    | yes p ↦ p
    | no p ↦ absurd (omega (arith, inv.later pos (omega arith)))
  ]

  pub reserve-Inv : (i task : ℕ) → s.head < 2 ^ 62 → Inv (reserve s i task)
  unfolding reserve
  reserve-Inv i task small = record {
    slots = λ k p. SlotOk-frame s after heads entries inv.ordered k refl refl refl (inv.slots k p);
    ordered = omega (arith, up, inv.ordered);
    each = λ j.
        update_ind s.threads (OpOk after) i j (awaiting s.head task)
          (λ e. (omega (arith, up), update_self s.entered s.head task))
          (λ ne.
            OpOk-frame s after heads entries inv.ordered (omega arith) (s.threads j)
              (λ pos e q. (q, refl)) (λ pos e q. (q, (refl, refl))) (λ pos l q. q) (inv.each j));
    one_producer =
        Apart-new reserved s.threads i (awaiting s.head task) s.head refl
          (λ j pos e. let l = reserved-lt s (s.threads j) pos (inv.each j) e in λ z. omega arith)
          inv.one_producer;
    one_consumer =
        Apart-update claimed s.threads i (awaiting s.head task)
          (λ pos e. absurd (ground (arith, e))) inv.one_consumer;
    once = inv.once;
    later = inv.later;
    right = λ pos c.
        inv.right pos c ∙ ap some (sym (entries pos (omega (arith, taken_lt pos c, inv.ordered))));
  }
    where
      after : Ring
      after = reserve s i task

      up : add64 s.head 1 ≡ s.head + 1
      up = add64-one s.head (omega arith)

      heads : s.head ≤ add64 s.head 1
      heads = omega (arith, up)

      entries : (pos : ℕ) → pos < s.head → update s.entered s.head task pos ≡ s.entered pos
      entries pos p = update_ne s.entered s.head pos task (λ e. omega arith)

  -- A thread that changes nothing but its place, and gains no position.
  pub place-Inv :
      (i : ℕ) (op : Op)
      → ((pos : ℕ) → reserved op ≡ some pos → reserved (s.threads i) ≡ some pos)
      → ((pos : ℕ) → claimed op ≡ some pos → claimed (s.threads i) ≡ some pos)
      → OpOk s op
      → Inv (set_op s i op)
  place-Inv i op r c ok = record {
    slots = λ k p.
        SlotOk-frame s (set_op s i op) (omega arith) (λ pos q. refl) inv.ordered k refl refl refl
          (inv.slots k p);
    ordered = inv.ordered;
    each = λ j.
        update_ind s.threads (OpOk (set_op s i op)) i j op
          (λ e.
            OpOk-frame s (set_op s i op) (omega arith) (λ pos q. refl) inv.ordered (omega arith) op
              (λ pos e q. (q, refl)) (λ pos e q. (q, (refl, refl))) (λ pos l q. q) ok)
          (λ ne.
            OpOk-frame s (set_op s i op) (omega arith) (λ pos q. refl) inv.ordered (omega arith)
              (s.threads j) (λ pos e q. (q, refl)) (λ pos e q. (q, (refl, refl))) (λ pos l q. q)
              (inv.each j));
    one_producer = Apart-update reserved s.threads i op r inv.one_producer;
    one_consumer = Apart-update claimed s.threads i op c inv.one_consumer;
    once = inv.once;
    later = inv.later;
    right = inv.right;
  }

  -- The store of the payload
  pub storing-Inv :
      (i pos task : ℕ) (spurious : Bool)
      → s.threads i ≡ storing pos task
      → Inv (op_step s i spurious (storing pos task))
  unfolding op_step
  storing-Inv i pos task spurious e = record {
    slots = λ k p. elim (ℕ_discrete (slot_of pos) k) [
      | yes f ↦ subst (SlotOk after) f (free pos ok.1.1 refl range.0 range.1)
      | no f ↦
          SlotOk-frame s after (omega arith) (λ q l. refl) inv.ordered k refl refl
            (update_ne s.payload (slot_of pos) k (some task) f) (inv.slots k p)
    ];
    ordered = inv.ordered;
    each = λ j.
        update_ind s.threads (OpOk after) i j (publishing pos)
          (λ z. (
            ok.0,
            (update_self s.payload (slot_of pos) (some task) ∙ ap some (sym ok.1.0), ok.1.1),
          ))
          (λ ne.
            OpOk-frame s after (omega arith) (λ q l. refl) inv.ordered (omega arith) (s.threads j)
              (λ q r h. (
                h,
                update_ne s.payload (slot_of pos) (slot_of q) (some task)
                    (filling-ne_filling s pos q ok.1.1 h (other j q ne r)),
              ))
              (λ q r h. (
                h,
                (
                  update_ne s.payload (slot_of pos) (slot_of q) (some task)
                      (filling-ne_drained s pos q ok.1.1 h),
                  refl,
                ),
              ))
              (λ q l h. h) (inv.each j));
    one_producer =
        Apart-update reserved s.threads i (publishing pos) (λ q z. ap reserved e ∙ z)
          inv.one_producer;
    one_consumer =
        Apart-update claimed s.threads i (publishing pos) (λ q z. absurd (ground (arith, z)))
          inv.one_consumer;
    once = inv.once;
    later = inv.later;
    right = inv.right;
  }
    where
      after : Ring
      after = op_step s i spurious (storing pos task)

      ok : OpOk s (storing pos task)
      ok = subst (OpOk s) e (inv.each i)

      range : (s.tail ≤ pos) × (pos < s.tail + ring_size)
      range = filling-range s pos ok.1.1 (inv.slots (slot_of pos) (slot_of-lt pos))

      other : (j q : ℕ) → i ≢ j → reserved (s.threads j) ≡ some q → q ≢ pos
      other j q ne r z = ne (inv.one_producer i j pos (ap reserved e) (r ∙ ap some z))

  -- The store of the sequence
  pub publishing-Inv :
      (i pos : ℕ) (spurious : Bool)
      → s.threads i ≡ publishing pos
      → s.head < 2 ^ 62
      → Inv (op_step s i spurious (publishing pos))
  unfolding op_step
  publishing-Inv i pos spurious e small = record {
    slots = λ k p. elim (ℕ_discrete (slot_of pos) k) [
      | yes f ↦ subst (SlotOk after) f (
          full pos (update_self s.sequence (slot_of pos) (add64 pos 1) ∙ up) refl ok.0 range.1
            (let l = range.0 in omega arith) (λ l. ok.1.0))
      | no f ↦
          SlotOk-frame s after (omega arith) (λ q l. refl) inv.ordered k refl
            (update_ne s.sequence (slot_of pos) k (add64 pos 1) f) refl (inv.slots k p)
    ];
    ordered = inv.ordered;
    each = λ j.
        update_ind s.threads (OpOk after) i j idle (λ z. omega arith)
          (λ ne.
            OpOk-frame s after (omega arith) (λ q l. refl) inv.ordered (omega arith) (s.threads j)
              (λ q r h. (kept q (filling-ne_filling s pos q ok.1.1 h (other j q ne r)) ∙ h, refl))
              (λ q r h. (kept q (filling-ne_drained s pos q ok.1.1 h) ∙ h, (refl, refl)))
              (λ q l h. kept q (filling-ne_drained s pos q ok.1.1 h) ∙ h) (inv.each j));
    one_producer =
        Apart-update reserved s.threads i idle (λ q z. absurd (ground (arith, z))) inv.one_producer;
    one_consumer =
        Apart-update claimed s.threads i idle (λ q z. absurd (ground (arith, z))) inv.one_consumer;
    once = inv.once;
    later = inv.later;
    right = inv.right;
  }
    where
      after : Ring
      after = op_step s i spurious (publishing pos)

      ok : OpOk s (publishing pos)
      ok = subst (OpOk s) e (inv.each i)

      up : add64 pos 1 ≡ pos + 1
      up = let l = ok.0 in add64-one pos (omega arith)

      range : (s.tail ≤ pos) × (pos < s.tail + ring_size)
      range = filling-range s pos ok.1.1 (inv.slots (slot_of pos) (slot_of-lt pos))

      kept :
          (q : ℕ)
          → slot_of pos ≢ slot_of q
          → update s.sequence (slot_of pos) (add64 pos 1) (slot_of q) ≡ s.sequence (slot_of q)
      kept q = update_ne s.sequence (slot_of pos) (slot_of q) (add64 pos 1)

      other : (j q : ℕ) → i ≢ j → reserved (s.threads j) ≡ some q → q ≢ pos
      other j q ne r z = ne (inv.one_producer i j pos (ap reserved e) (r ∙ ap some z))

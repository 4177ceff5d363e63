-- ===== src/LockFree/Invariant/Dequeue.antt =====
-- include/lockfree_queue_scheduler.hpp, dequeue: its actions keep the invariant.
use lock_free_work_stealing.Base.{
  ℕ, ◌+◌, ◌^◌, ◌≤◌, ◌<◌, ◌≡◌, ◌≢◌, ◌∙◌, refl, sym, ap, subst, arith, none, some, update, update_ind,
  update_self, update_ne, ℕ_discrete, add64, add64-one, Bool,
}
use lock_free_work_stealing.LockFree.{
  ring_size, slot_of, Op, idle, awaiting, storing, publishing, loading, reading, claiming, taking,
  returning, reloading, Ring, op_step,
}
use lock_free_work_stealing.LockFree.Invariant.{reserved, claimed, OpOk, SlotOk, free, full, Inv}
use lock_free_work_stealing.LockFree.Invariant.Frame.{
  OpOk-frame, SlotOk-frame, Apart-update, Apart-new, drained-ne_filling, drained-ne_drained,
  drained-range,
}
use lock_free_work_stealing.LockFree.Invariant.Enqueue.{slot_of-lt}

add64-small : (a b : ℕ) → a + b < 2 ^ 64 → add64 a b ≡ a + b
unfolding add64
add64-small a b h = omega arith

claimed-lt : (s : Ring) (o : Op) (pos : ℕ) → OpOk s o → claimed o ≡ some pos → pos < s.tail
claimed-lt s (taking p) pos ok e = let q = ok.0 in ground (arith, e)
claimed-lt s (returning p) pos ok e = let q = ok.0 in ground (arith, e)
claimed-lt s (awaiting p task) pos ok e = absurd (ground (arith, e))
claimed-lt s (storing p task) pos ok e = absurd (ground (arith, e))
claimed-lt s (publishing p) pos ok e = absurd (ground (arith, e))
claimed-lt s idle pos ok e = absurd (ground (arith, e))
claimed-lt s loading pos ok e = absurd (ground (arith, e))
claimed-lt s (reading p) pos ok e = absurd (ground (arith, e))
claimed-lt s (claiming p) pos ok e = absurd (ground (arith, e))
claimed-lt s reloading pos ok e = absurd (ground (arith, e))

module _ {s : Ring} (inv : Inv s) (i pos : ℕ) where
  -- A compare-and-swap that succeeds
  pub claim-Inv :
      s.threads i ≡ claiming pos
      → s.tail ≡ pos
      → s.head < 2 ^ 62
      → Inv (record s { tail = add64 pos 1; threads = update s.threads i (taking pos) })
  claim-Inv e at small = record {
    slots = λ k p. slot k (inv.slots k p);
    ordered = omega (arith, range.0, up);
    each = λ j.
        update_ind s.threads (OpOk after) i j (taking pos)
          (λ z.
            (omega (arith, up), (filled, (range.1.1.1 (omega arith), inv.later pos (omega arith)))))
          (λ ne.
            OpOk-frame s after (omega arith) (λ q l. refl) inv.ordered tails (s.threads j)
              (λ q r h. (h, refl)) (λ q r h. (h, (refl, refl))) (λ q l h. h) (inv.each j));
    one_producer =
        Apart-update reserved s.threads i (taking pos) (λ q z. absurd (ground (arith, z)))
          inv.one_producer;
    one_consumer =
        Apart-new claimed s.threads i (taking pos) pos refl
          (λ j q z. let l = claimed-lt s (s.threads j) q (inv.each j) z in λ f. omega arith)
          inv.one_consumer;
    once = inv.once;
    later = λ q l. inv.later q (omega (arith, tails));
    right = inv.right;
  }
    where
      after : Ring
      after = record s { tail = add64 pos 1; threads = update s.threads i (taking pos) }

      ok : OpOk s (claiming pos)
      ok = subst (OpOk s) e (inv.each i)

      filled : s.sequence (slot_of pos) ≡ pos + 1
      filled = ok.1 (omega arith)

      range :
          (pos < s.head)
          × ((pos < s.tail + ring_size)
              × ((s.tail ≤ pos + ring_size)
                  × (s.tail ≤ pos → s.payload (slot_of pos) ≡ some (s.entered pos))))
      range = drained-range s pos filled (inv.slots (slot_of pos) (slot_of-lt pos))

      up : add64 pos 1 ≡ pos + 1
      up = let l = range.0 in add64-one pos (omega arith)

      tails : s.tail ≤ add64 pos 1
      tails = omega (arith, up)

      at_slot : (k q : ℕ) → slot_of q ≡ k → slot_of q ≡ slot_of pos → s.sequence k ≡ pos + 1
      at_slot k q f g = ap s.sequence (sym f ∙ g) ∙ filled

      slot : (k : ℕ) → SlotOk s k → SlotOk after k
      slot k (free q a f low high) =
          free q a f
            (elim (ℕ_discrete q pos) [
              | yes z ↦ absurd (omega (arith, a, at_slot k q f (ap slot_of z)))
              | no z ↦ omega (arith, up)
            ])
            (omega (arith, up))
      slot k (full q a f below high wrap holds) =
          full q a f below (omega (arith, up))
            (elim (ℕ_discrete (q + ring_size) pos) [
              | yes z ↦ absurd (omega (arith, a, at_slot k q f (omega arith)))
              | no z ↦ omega (arith, up)
            ])
            (λ l. holds (omega (arith, tails)))

  module _ (spurious : Bool) where
    -- The exchange of the payload
    pub taking-Inv : s.threads i ≡ taking pos → Inv (op_step s i spurious (taking pos))
    unfolding op_step
    taking-Inv e = record {
      slots = λ k p. elim (ℕ_discrete (slot_of pos) k) [
        | yes f ↦ subst (SlotOk after) f (
            full pos ok.1.0 refl range.0 range.1.0 range.1.1.0
              (λ l. absurd (let m = ok.0 in omega arith)))
        | no f ↦
            SlotOk-frame s after (omega arith) (λ q l. refl) inv.ordered k refl refl
              (update_ne s.payload (slot_of pos) k none f) (inv.slots k p)
      ];
      ordered = inv.ordered;
      each = λ j.
          update_ind s.threads (OpOk after) i j (returning pos)
            (λ z. (ok.0, (ok.1.0, ground arith)))
            (λ ne.
              OpOk-frame s after (omega arith) (λ q l. refl) inv.ordered (omega arith) (s.threads j)
                (λ q r h. (h, kept q (drained-ne_filling s pos q ok.1.0 h)))
                (λ q r h.
                  let different = other j q ne r in
                  (
                    h,
                    (
                      kept q (drained-ne_drained s pos q ok.1.0 h different),
                      ground (arith, different),
                    ),
                  ))
                (λ q l h. h) (inv.each j));
      one_producer =
          Apart-update reserved s.threads i (returning pos) (λ q z. absurd (ground (arith, z)))
            inv.one_producer;
      one_consumer =
          Apart-update claimed s.threads i (returning pos) (λ q z. ap claimed e ∙ z)
            inv.one_consumer;
      once = λ q.
          let a = inv.once q in
          elim (ℕ_discrete pos q) [
            | yes z ↦ rw (sym z) (ground (arith, ok.1.1.1))
            | no z ↦ ground arith
          ];
      later = λ q l. let a = inv.later q l in let m = ok.0 in ground arith;
      right = λ q c.
          update_ind s.got (λ v. v ≡ some (s.entered q)) pos q (s.payload (slot_of pos))
            (λ z. ok.1.1.0 ∙ ap (λ m. some (s.entered m)) z)
            (λ z. inv.right q (ground (arith, z, c)));
    }
      where
        after : Ring
        after = op_step s i spurious (taking pos)

        ok : OpOk s (taking pos)
        ok = subst (OpOk s) e (inv.each i)

        range :
            (pos < s.head)
            × ((pos < s.tail + ring_size)
                × ((s.tail ≤ pos + ring_size)
                    × (s.tail ≤ pos → s.payload (slot_of pos) ≡ some (s.entered pos))))
        range = drained-range s pos ok.1.0 (inv.slots (slot_of pos) (slot_of-lt pos))

        kept :
            (q : ℕ)
            → slot_of pos ≢ slot_of q
            → update s.payload (slot_of pos) none (slot_of q) ≡ s.payload (slot_of q)
        kept q = update_ne s.payload (slot_of pos) (slot_of q) none

        other : (j q : ℕ) → i ≢ j → claimed (s.threads j) ≡ some q → q ≢ pos
        other j q ne r z = ne (inv.one_consumer i j pos (ap claimed e) (r ∙ ap some z))

    -- The store of the sequence
    pub returning-Inv :
        s.threads i ≡ returning pos → s.head < 2 ^ 62 → Inv (op_step s i spurious (returning pos))
    unfolding op_step
    returning-Inv e small = record {
      slots = λ k p. elim (ℕ_discrete (slot_of pos) k) [
        | yes f ↦ subst (SlotOk after) f (
            free (pos + ring_size) (update_self s.sequence (slot_of pos) (add64 pos ring_size) ∙ up)
              (omega arith) range.1.1.0 (let m = ok.0 in omega arith))
        | no f ↦
            SlotOk-frame s after (omega arith) (λ q l. refl) inv.ordered k refl
              (update_ne s.sequence (slot_of pos) k (add64 pos ring_size) f) refl (inv.slots k p)
      ];
      ordered = inv.ordered;
      each = λ j.
          update_ind s.threads (OpOk after) i j idle (λ z. omega arith)
            (λ ne.
              OpOk-frame s after (omega arith) (λ q l. refl) inv.ordered (omega arith) (s.threads j)
                (λ q r h. (kept q (drained-ne_filling s pos q ok.1.0 h) ∙ h, refl))
                (λ q r h.
                  (kept q (drained-ne_drained s pos q ok.1.0 h (other j q ne r)) ∙ h, (refl, refl)))
                (λ q l h.
                  kept q (drained-ne_drained s pos q ok.1.0 h (λ z. let m = ok.0 in omega arith))
                  ∙ h)
                (inv.each j));
      one_producer =
          Apart-update reserved s.threads i idle (λ q z. absurd (ground (arith, z)))
            inv.one_producer;
      one_consumer =
          Apart-update claimed s.threads i idle (λ q z. absurd (ground (arith, z)))
            inv.one_consumer;
      once = inv.once;
      later = inv.later;
      right = inv.right;
    }
      where
        after : Ring
        after = op_step s i spurious (returning pos)

        ok : OpOk s (returning pos)
        ok = subst (OpOk s) e (inv.each i)

        range :
            (pos < s.head)
            × ((pos < s.tail + ring_size)
                × ((s.tail ≤ pos + ring_size)
                    × (s.tail ≤ pos → s.payload (slot_of pos) ≡ some (s.entered pos))))
        range = drained-range s pos ok.1.0 (inv.slots (slot_of pos) (slot_of-lt pos))

        up : add64 pos ring_size ≡ pos + ring_size
        up = add64-small pos ring_size (let l = range.0 in omega arith)

        kept :
            (q : ℕ)
            → slot_of pos ≢ slot_of q
            → update s.sequence (slot_of pos) (add64 pos ring_size) (slot_of q)
              ≡ s.sequence (slot_of q)
        kept q = update_ne s.sequence (slot_of pos) (slot_of q) (add64 pos ring_size)

        other : (j q : ℕ) → i ≢ j → claimed (s.threads j) ≡ some q → q ≢ pos
        other j q ne r z = ne (inv.one_consumer i j pos (ap claimed e) (r ∙ ap some z))

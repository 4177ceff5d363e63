-- ===== src/LockFree/Invariant/Filled.antt =====
-- include/lockfree_queue_scheduler.hpp: every position that is reserved and not claimed is held by a
-- thread in `enqueue` or stands in its slot.
use lock_free_work_stealing.Base.{
  ℕ, ◌+◌, ◌^◌, ◌≤◌, ◌<◌, ◌≡◌, ◌≢◌, ◌∙◌, ◌⊎◌, refl, sym, ap, subst, arith, Bool, Bool-cases, inl,
  inr, some, update, update_ne, update_self, ℕ_discrete, add64, add64-one, not, ◌&&◌, ◌==◌,
}
use lock_free_work_stealing.LockFree.{
  ring_size, slot_of, Op, idle, awaiting, storing, publishing, loading, reading, claiming, taking,
  returning, reloading, Ring, set_op, reserve, compare_seq, op_step, enqueues, dequeues, moves,
  Reach, here, next,
}
use lock_free_work_stealing.LockFree.Invariant.{reserved, OpOk, Inv}
use lock_free_work_stealing.LockFree.Invariant.Frame.{filling-ne_drained, drained-ne_drained}
use lock_free_work_stealing.LockFree.Invariant.Steps.{enqueued, enqueued-head, Reach-Inv}

abbrev pub HeldOrFull : Ring → ℕ → Type 0
HeldOrFull s pos =
    ((i : ℕ) × (reserved (s.threads i) ≡ some pos)) ⊎ (s.sequence (slot_of pos) ≡ pos + 1)

abbrev pub Filled : Ring → Type 0
Filled s = (pos : ℕ) → s.tail ≤ pos → pos < s.head → HeldOrFull s pos

-- A step of thread `i` after which its position is still held, or full.
module _ (s : Ring) (filled : Filled s) (i : ℕ) where
  keep :
      (t : Ring)
      → s.tail ≤ t.tail
      → t.head ≡ s.head
      → ((j : ℕ) → i ≢ j → t.threads j ≡ s.threads j)
      → ((pos : ℕ) → reserved (s.threads i) ≡ some pos → HeldOrFull t pos)
      → ((pos : ℕ)
          → t.tail ≤ pos
          → s.sequence (slot_of pos) ≡ pos + 1
          → t.sequence (slot_of pos) ≡ pos + 1)
      → Filled t
  keep t tails heads others mine full pos low high = elim (filled pos (omega arith) (omega arith)) [
    | inl h ↦ elim (ℕ_discrete i (h.0)) [
      | yes e ↦ mine pos (ap (λ k. reserved (s.threads k)) e ∙ h.1)
      | no ne ↦ inl (h.0, ap reserved (others (h.0) ne) ∙ h.1)
    ]
    | inr f ↦ inr (full pos low f)
  ]

  -- A thread that changes nothing but its place.
  place :
      (x : Op)
      → ((pos : ℕ) → reserved (s.threads i) ≡ some pos → reserved x ≡ some pos)
      → Filled (set_op s i x)
  place x h =
      keep (set_op s i x) (omega arith) refl (λ j ne. update_ne s.threads i j x ne)
        (λ pos e. inl (i, ap reserved (update_self s.threads i x) ∙ h pos e)) (λ pos l f. f)

  -- The same where the thread holds no position.
  pub idles : (x : Op) → ((pos : ℕ) → reserved (s.threads i) ≢ some pos) → Filled (set_op s i x)
  idles x h = place x (λ pos e. absurd (h pos e))

  compare_seq-Filled :
      (seq pos : ℕ)
      → ((p : ℕ) → reserved (s.threads i) ≢ some p)
      → Filled (set_op s i (compare_seq seq pos))
  compare_seq-Filled seq pos h = idles (compare_seq seq pos) h

  module _ (inv : Inv s) (small : s.head < 2 ^ 62) where
    pub op_step-Filled :
        (spurious : Bool) (o : Op) → s.threads i ≡ o → Filled (op_step s i spurious o)
    unfolding op_step
    op_step-Filled spurious idle e = filled
    op_step-Filled spurious (awaiting pos task) e =
        elim (Bool-cases (s.sequence (slot_of pos) == pos)) [
          | inl y ↦ rw y (place (storing pos task) (λ p q. sym (ap reserved e) ∙ q))
          | inr n ↦ rw n filled
        ]
    op_step-Filled spurious (storing pos task) e =
        keep (op_step s i spurious (storing pos task)) (omega arith) refl
          (λ j ne. update_ne s.threads i j (publishing pos) ne)
          (λ p q.
            inl
              (i, ap reserved (update_self s.threads i (publishing pos)) ∙ sym (ap reserved e) ∙ q))
          (λ p l f. f)
    op_step-Filled spurious (publishing pos) e =
        keep (op_step s i spurious (publishing pos)) (omega arith) refl
          (λ j ne. update_ne s.threads i j idle ne) (λ p q. inr (mine p (sym (ap reserved e) ∙ q)))
          (λ p l f.
            update_ne s.sequence (slot_of pos) (slot_of p) (add64 pos 1)
              (filling-ne_drained s pos p ok.1.1 f)
            ∙ f)
      where
        ok : OpOk s (publishing pos)
        ok = subst (OpOk s) e (inv.each i)

        mine :
            (p : ℕ)
            → some pos ≡ some p
            → update s.sequence (slot_of pos) (add64 pos 1) (slot_of p) ≡ p + 1
        mine p q =
            let same : pos ≡ p = ground (arith, q) in
            subst (λ k. update s.sequence (slot_of pos) (add64 pos 1) (slot_of k) ≡ k + 1) same
              (update_self s.sequence (slot_of pos) (add64 pos 1)
                ∙ add64-one pos (omega (arith, ok.0)))
    op_step-Filled spurious loading e =
        idles (reading s.tail) (λ p q. ground (arith, sym (ap reserved e) ∙ q))
    op_step-Filled spurious (reading pos) e =
        compare_seq-Filled (s.sequence (slot_of pos)) pos
          (λ p q. ground (arith, sym (ap reserved e) ∙ q))
    op_step-Filled spurious (claiming pos) e = elim (Bool-cases (s.tail == pos && not spurious)) [
      | inl y ↦ rw y (
          keep (record s { tail = add64 pos 1; threads = update s.threads i (taking pos) })
            (claim_up (ground (arith, y))) refl (λ j ne. update_ne s.threads i j (taking pos) ne)
            (λ p q. absurd (ground (arith, sym (ap reserved e) ∙ q))) (λ p l f. f))
      | inr n ↦ rw n (idles (reading s.tail) (λ p q. ground (arith, sym (ap reserved e) ∙ q)))
    ]
      where
        claim_up : s.tail ≡ pos → s.tail ≤ add64 pos 1
        claim_up at = omega (arith, add64-one pos (omega (arith, inv.ordered)))
    op_step-Filled spurious (taking pos) e =
        keep (op_step s i spurious (taking pos)) (omega arith) refl
          (λ j ne. update_ne s.threads i j (returning pos) ne)
          (λ p q. absurd (ground (arith, sym (ap reserved e) ∙ q))) (λ p l f. f)
    op_step-Filled spurious (returning pos) e =
        keep (op_step s i spurious (returning pos)) (omega arith) refl
          (λ j ne. update_ne s.threads i j idle ne)
          (λ p q. absurd (ground (arith, sym (ap reserved e) ∙ q)))
          (λ p l f.
            update_ne s.sequence (slot_of pos) (slot_of p) (add64 pos ring_size)
              (drained-ne_drained s pos p ok.1.0 f (λ z. let m = ok.0 in omega arith))
            ∙ f)
      where
        ok : OpOk s (returning pos)
        ok = subst (OpOk s) e (inv.each i)
    op_step-Filled spurious reloading e =
        idles (reading s.tail) (λ p q. ground (arith, sym (ap reserved e) ∙ q))

reserve-Filled :
    (s : Ring) (i task : ℕ)
    → Filled s
    → s.threads i ≡ idle
    → s.head < 2 ^ 62
    → Filled (reserve s i task)
unfolding reserve
reserve-Filled s i task filled e small pos low high = elim (ℕ_discrete pos s.head) [
  | yes z ↦ inl (i, ap reserved (update_self s.threads i (awaiting s.head task)) ∙ ap some (sym z))
  | no nz ↦ elim (filled pos low (omega (arith, add64-one s.head (omega arith)))) [
    | inl h ↦ elim (ℕ_discrete i (h.0)) [
      | yes z ↦
          absurd (ground (arith, sym (ap (λ k. reserved (s.threads k)) z ∙ h.1) ∙ ap reserved e))
      | no nz ↦ inl (h.0, ap reserved (update_ne s.threads i (h.0) (awaiting s.head task) nz) ∙ h.1)
    ]
    | inr f ↦ inr f
  ]
]

pub Reach-Filled : {s : Ring} (r : Reach s) → enqueued r < 2 ^ 62 → Filled s
Reach-Filled here small = λ pos low high. absurd (omega arith)
Reach-Filled (next {s} r (enqueues i task e)) small =
    let before : enqueued r < 2 ^ 62 = omega arith in
    reserve-Filled s i task (Reach-Filled r before) e (omega (arith, enqueued-head r before))
Reach-Filled (next {s} r (dequeues i e)) small =
    idles s (Reach-Filled r small) i loading (λ p q. ground (arith, sym (ap reserved e) ∙ q))
Reach-Filled (next {s} r (moves i spurious)) small =
    op_step-Filled s (Reach-Filled r small) i (Reach-Inv r small)
      (omega (arith, enqueued-head r small)) spurious (s.threads i) refl

-- ===== src/LockFree/Invariant/Steps.antt =====
-- include/lockfree_queue_scheduler.hpp: every step keeps the invariant.
use lock_free_work_stealing.Base.{
  ℕ, suc, ◌+◌, ◌^◌, ◌≤◌, ◌<◌, ◌≡◌, ◌∙◌, refl, sym, ap, subst, arith, ◌==◌, if◌then◌else◌,
  ℕ_discrete, add64, add64-one, true, false, Bool, Bool-cases, inl, inr, sub64, lt_i64, not, ◌&&◌,
}
use lock_free_work_stealing.LockFree.{
  ring_size, slot_of, Op, idle, awaiting, storing, publishing, loading, reading, claiming, taking,
  returning, reloading, Ring, set_op, reserve, op_step, compare_seq, fresh, Step, enqueues,
  dequeues, moves, Reach, here, next,
}
use lock_free_work_stealing.LockFree.Invariant.{reserved, OpOk, SlotOk, free, full, Inv}
use lock_free_work_stealing.LockFree.Invariant.Enqueue.{
  slot_of-lt, reserve-Inv, place-Inv, storing-Inv, publishing-Inv,
}
use lock_free_work_stealing.LockFree.Invariant.Dequeue.{claim-Inv, taking-Inv, returning-Inv}

pub fresh-Inv : Inv fresh
fresh-Inv = record {
  slots = λ k p. free k refl (omega arith) (omega arith) (omega arith);
  ordered = omega arith;
  each = λ i. omega arith;
  one_producer = λ i j pos a b. absurd (ground (arith, a));
  one_consumer = λ i j pos a b. absurd (ground (arith, a));
  once = λ pos. omega arith;
  later = λ pos p. refl;
  right = λ pos c. absurd (omega arith);
}

sequence-le : {s : Ring} {k : ℕ} → SlotOk s k → s.tail ≤ s.head → s.sequence k ≤ s.head + ring_size
sequence-le (free pos a f low high) o = omega arith
sequence-le (full pos a f below high wrap holds) o = omega arith

sub64-zero : (a b : ℕ) → a < 2 ^ 63 → b + 1 < 2 ^ 63 → sub64 a (add64 b 1) ≡ 0 → a ≡ b + 1
unfolding sub64 add64
sub64-zero a b p q e = omega arith

if-Op :
    (P : Op → Type 0) (b : Bool) (x y : Op)
    → (b ≡ true → P x)
    → (b ≡ false → P y)
    → P (if b then x else y)
if-Op P true x y p q = p refl
if-Op P false x y p q = q refl

if-true : (b : Bool) (x y : Ring) → b ≡ true → (if b then x else y) ≡ x
if-true true x y e = refl
if-true false x y e = absurd (ground (arith, e))

if-false : (b : Bool) (x y : Ring) → b ≡ false → (if b then x else y) ≡ y
if-false true x y e = absurd (ground (arith, e))
if-false false x y e = refl

module _ {s : Ring} (inv : Inv s) (small : s.head < 2 ^ 62) (i : ℕ) where
  -- What holds of every result of the comparison holds of it.
  compare_seq-Inv :
      (pos : ℕ)
      → s.threads i ≡ reading pos
      → Inv (set_op s i (compare_seq (s.sequence (slot_of pos)) pos))
  unfolding compare_seq
  compare_seq-Inv pos e =
      if-Op (λ o. Inv (set_op s i o)) (diff == 0) (claiming pos)
        (if lt_i64 diff 0 then idle else reloading)
        (λ z.
          place-Inv inv i (claiming pos) (λ q a. absurd (ground (arith, a)))
            (λ q a. absurd (ground (arith, a)))
            (
              ok,
              λ l.
                  sub64-zero (s.sequence (slot_of pos)) pos
                    (omega
                      (arith, sequence-le (inv.slots (slot_of pos) (slot_of-lt pos)) inv.ordered))
                    (omega (arith, inv.ordered, ok)) (ground (arith, z)),
            ))
        (λ z.
          if-Op (λ o. Inv (set_op s i o)) (lt_i64 diff 0) idle reloading
            (λ y.
              place-Inv inv i idle (λ q a. absurd (ground (arith, a)))
                (λ q a. absurd (ground (arith, a))) (omega arith))
            (λ y.
              place-Inv inv i reloading (λ q a. absurd (ground (arith, a)))
                (λ q a. absurd (ground (arith, a))) (omega arith)))
    where
      diff : ℕ
      diff = sub64 (s.sequence (slot_of pos)) (add64 pos 1)

      ok : pos ≤ s.tail
      ok = subst (OpOk s) e (inv.each i)

  reading-Inv : Inv (set_op s i (reading s.tail))
  reading-Inv =
      place-Inv inv i (reading s.tail) (λ q a. absurd (ground (arith, a)))
        (λ q a. absurd (ground (arith, a))) (omega arith)

  pub op_step-Inv : (spurious : Bool) (o : Op) → s.threads i ≡ o → Inv (op_step s i spurious o)
  unfolding op_step
  op_step-Inv spurious idle e = inv
  op_step-Inv spurious (awaiting pos task) e =
      let ok = subst (OpOk s) e (inv.each i) in
      elim (ℕ_discrete (s.sequence (slot_of pos)) pos) [
        | yes z ↦
            subst Inv
              (sym (
                if-true (s.sequence (slot_of pos) == pos) (set_op s i (storing pos task)) s
                  (ground (arith, z))))
              (place-Inv inv i (storing pos task) (λ q a. ap reserved e ∙ a)
                (λ q a. absurd (ground (arith, a))) (ok.0, (ok.1, z)))
        | no z ↦
            subst Inv (sym (if-false (s.sequence (slot_of pos) == pos) _ s (ground (arith, z)))) inv
      ]
  op_step-Inv spurious (storing pos task) e = storing-Inv inv i pos task spurious e
  op_step-Inv spurious (publishing pos) e = publishing-Inv inv i pos spurious e small
  op_step-Inv spurious loading e = reading-Inv
  op_step-Inv spurious (reading pos) e = compare_seq-Inv pos e
  op_step-Inv spurious (claiming pos) e = elim (Bool-cases (s.tail == pos && not spurious)) [
    | inl z ↦ subst Inv (sym (if-true _ _ _ z)) (claim-Inv inv i pos e (ground (arith, z)) small)
    | inr z ↦ subst Inv (sym (if-false _ _ _ z)) reading-Inv
  ]
  op_step-Inv spurious (taking pos) e = taking-Inv inv i pos spurious e
  op_step-Inv spurious (returning pos) e = returning-Inv inv i pos spurious e small
  op_step-Inv spurious reloading e = reading-Inv

Step-Inv : {s t : Ring} → Inv s → s.head < 2 ^ 62 → Step s t → Inv t
Step-Inv inv small (enqueues i task e) = reserve-Inv inv i task small
Step-Inv inv small (dequeues i e) =
    place-Inv inv i loading (λ q a. absurd (ground (arith, a))) (λ q a. absurd (ground (arith, a)))
      (omega arith)
Step-Inv {s} inv small (moves i spurious) = op_step-Inv inv small i spurious (s.threads i) refl

if-head : (x y : Ring) (h : ℕ) (b : Bool) → x.head ≡ h → y.head ≡ h → (if b then x else y).head ≡ h
if-head x y h true p q = p
if-head x y h false p q = q

pub op_step-head :
    (s : Ring) (i : ℕ) (spurious : Bool) (o : Op) → (op_step s i spurious o).head ≡ s.head
unfolding op_step
op_step-head s i spurious idle = refl
op_step-head s i spurious (awaiting pos task) =
    if-head _ _ _ (s.sequence (slot_of pos) == pos) refl refl
op_step-head s i spurious (storing pos task) = refl
op_step-head s i spurious (publishing pos) = refl
op_step-head s i spurious loading = refl
op_step-head s i spurious (reading pos) = refl
op_step-head s i spurious (claiming pos) = if-head _ _ _ (s.tail == pos && not spurious) refl refl
op_step-head s i spurious (taking pos) = refl
op_step-head s i spurious (returning pos) = refl
op_step-head s i spurious reloading = refl

-- The number of calls of `enqueue`
abbrev pub enqueued : {s : Ring} → Reach s → ℕ
enqueued here = 0
enqueued (next r (enqueues i task e)) = suc (enqueued r)
enqueued (next r (dequeues i e)) = enqueued r
enqueued (next r (moves i spurious)) = enqueued r

pub enqueued-head : {s : Ring} (r : Reach s) → enqueued r < 2 ^ 62 → s.head ≡ enqueued r
unfolding reserve
enqueued-head here small = refl
enqueued-head (next {s} r (enqueues i task e)) small =
    let same = enqueued-head r (omega arith) in add64-one s.head (omega arith) ∙ omega arith
enqueued-head (next r (dequeues i e)) small = enqueued-head r small
enqueued-head (next {s} r (moves i spurious)) small =
    op_step-head s i spurious (s.threads i) ∙ enqueued-head r small

pub Reach-Inv : {s : Ring} (r : Reach s) → enqueued r < 2 ^ 62 → Inv s
Reach-Inv here small = fresh-Inv
Reach-Inv (next r (enqueues i task e)) small =
    let p : enqueued r < 2 ^ 62 = omega arith in
    Step-Inv (Reach-Inv r p) (omega (arith, enqueued-head r p)) (enqueues i task e)
Reach-Inv (next r (dequeues i e)) small =
    Step-Inv (Reach-Inv r small) (omega (arith, enqueued-head r small)) (dequeues i e)
Reach-Inv (next r (moves i spurious)) small =
    Step-Inv (Reach-Inv r small) (omega (arith, enqueued-head r small)) (moves i spurious)

-- ===== src/LockFree/Invariant/Frame.antt =====
-- include/lockfree_queue_scheduler.hpp: what a step of one thread leaves true of the slots and of the
-- other threads.
use lock_free_work_stealing.Base.{
  ℕ, ◌+◌, ◌≤◌, ◌<◌, ◌≡◌, ◌≢◌, ◌∙◌, refl, sym, ap, subst, arith, Option, some, count, update,
  update_ind, update_self, update_ne, ℕ_discrete,
}
use lock_free_work_stealing.LockFree.{
  ring_size, slot_of, Op, idle, awaiting, storing, publishing, loading, reading, claiming, taking,
  returning, reloading, Ring,
}
use lock_free_work_stealing.LockFree.Invariant.{reserved, claimed, OpOk, SlotOk, free, full, Apart}

module _ (s t : Ring) (heads : s.head ≤ t.head)
    (entries : (pos : ℕ) → pos < s.head → t.entered pos ≡ s.entered pos)
    (ordered : s.tail ≤ s.head) where
  -- Of another thread.
  pub OpOk-frame :
      s.tail ≤ t.tail
      → (o : Op)
      → ((pos : ℕ)
          → reserved o ≡ some pos
          → s.sequence (slot_of pos) ≡ pos
          → (t.sequence (slot_of pos) ≡ pos) × (t.payload (slot_of pos) ≡ s.payload (slot_of pos)))
      → ((pos : ℕ)
          → claimed o ≡ some pos
          → s.sequence (slot_of pos) ≡ pos + 1
          → (t.sequence (slot_of pos) ≡ pos + 1)
            × ((t.payload (slot_of pos) ≡ s.payload (slot_of pos))
                × (count pos t.taken ≡ count pos s.taken)))
      → ((pos : ℕ)
          → t.tail ≤ pos
          → s.sequence (slot_of pos) ≡ pos + 1
          → t.sequence (slot_of pos) ≡ pos + 1)
      → OpOk s o
      → OpOk t o
  OpOk-frame tails idle fill drain claim ok = omega arith
  OpOk-frame tails (awaiting pos task) fill drain claim (a, b) = (omega arith, entries pos a ∙ b)
  OpOk-frame tails (storing pos task) fill drain claim (a, (b, c)) =
      (omega arith, (entries pos a ∙ b, (fill pos refl c).0))
  OpOk-frame tails (publishing pos) fill drain claim (a, (b, c)) =
      let (d, e) = fill pos refl c in (omega arith, (e ∙ b ∙ ap some (sym (entries pos a)), d))
  OpOk-frame tails loading fill drain claim ok = omega arith
  OpOk-frame tails (reading pos) fill drain claim ok = omega arith
  OpOk-frame tails (claiming pos) fill drain claim (a, b) =
      (omega arith, λ l. claim pos l (b (omega arith)))
  OpOk-frame tails (taking pos) fill drain claim (a, (b, (c, d))) =
      let (e, (f, g)) = drain pos refl b in
      (omega arith, (e, (f ∙ c ∙ ap some (sym (entries pos (omega arith))), omega arith)))
  OpOk-frame tails (returning pos) fill drain claim (a, (b, c)) =
      let (e, (f, g)) = drain pos refl b in (omega arith, (e, omega arith))
  OpOk-frame tails reloading fill drain claim ok = omega arith

  -- Of a slot that the step does not change.
  pub SlotOk-frame :
      (k : ℕ)
      → t.tail ≡ s.tail
      → t.sequence k ≡ s.sequence k
      → t.payload k ≡ s.payload k
      → SlotOk s k
      → SlotOk t k
  SlotOk-frame k same q p (free pos e k_is low high) =
      free pos (q ∙ e) k_is (omega arith) (omega arith)
  SlotOk-frame k same q p (full pos e k_is below high wrap holds) =
      full pos (q ∙ e) k_is (omega arith) (omega arith) (omega arith)
        (λ l. p ∙ holds (omega arith) ∙ ap some (sym (entries pos below)))

-- A thread that gains no position.
pub Apart-update :
    (held : Op → Option ℕ) (threads : ℕ → Op) (i : ℕ) (op : Op)
    → ((pos : ℕ) → held op ≡ some pos → held (threads i) ≡ some pos)
    → Apart held threads
    → Apart held (update threads i op)
Apart-update held threads i op h apart j k pos a b = apart j k pos (old j a) (old k b)
  where
    old : (j : ℕ) → held (update threads i op j) ≡ some pos → held (threads j) ≡ some pos
    old j =
        update_ind threads (λ o. held o ≡ some pos → held (threads j) ≡ some pos) i j op
          (λ e a. subst (λ m. held (threads m) ≡ some pos) e (h pos a)) (λ ne a. a)

-- A thread that gains a position that no thread has.
pub Apart-new :
    (held : Op → Option ℕ) (threads : ℕ → Op) (i : ℕ) (op : Op) (new : ℕ)
    → held op ≡ some new
    → ((j pos : ℕ) → held (threads j) ≡ some pos → pos ≢ new)
    → Apart held threads
    → Apart held (update threads i op)
Apart-new held threads i op new is_new unused apart j k pos a b = elim (ℕ_discrete i j) [
  | yes e ↦ elim (ℕ_discrete i k) [
    | yes f ↦ sym e ∙ f
    | no f ↦ absurd (unused k pos (old k f b) (is_pos j e a))
  ]
  | no e ↦ elim (ℕ_discrete i k) [
    | yes f ↦ absurd (unused j pos (old j e a) (is_pos k f b))
    | no f ↦ apart j k pos (old j e a) (old k f b)
  ]
]
  where
    old : (m : ℕ) → i ≢ m → held (update threads i op m) ≡ some pos → held (threads m) ≡ some pos
    old m ne c = ap held (sym (update_ne threads i m op ne)) ∙ c

    is_pos : (m : ℕ) → i ≡ m → held (update threads i op m) ≡ some pos → pos ≡ new
    is_pos m e c =
        let here : some pos ≡ some new =
          sym c
          ∙ ap held (subst (λ l. update threads i op l ≡ op) e (update_self threads i op))
          ∙ is_new in
        ground (arith, here)

module _ (s : Ring) (pos q : ℕ) where
  pub filling-ne_filling :
      s.sequence (slot_of pos) ≡ pos
      → s.sequence (slot_of q) ≡ q
      → q ≢ pos
      → slot_of pos ≢ slot_of q
  filling-ne_filling a b ne z = ne (sym b ∙ sym (ap s.sequence z) ∙ a)

  pub filling-ne_drained :
      s.sequence (slot_of pos) ≡ pos → s.sequence (slot_of q) ≡ q + 1 → slot_of pos ≢ slot_of q
  filling-ne_drained a b z = let c = ap s.sequence z in omega arith

  pub drained-ne_filling :
      s.sequence (slot_of pos) ≡ pos + 1 → s.sequence (slot_of q) ≡ q → slot_of pos ≢ slot_of q
  drained-ne_filling a b z = let c = ap s.sequence z in omega arith

  pub drained-ne_drained :
      s.sequence (slot_of pos) ≡ pos + 1
      → s.sequence (slot_of q) ≡ q + 1
      → q ≢ pos
      → slot_of pos ≢ slot_of q
  drained-ne_drained a b ne z = let c = ap s.sequence z in ne (omega arith)

module _ (s : Ring) (pos : ℕ) where
  pub filling-range :
      s.sequence (slot_of pos) ≡ pos
      → SlotOk s (slot_of pos)
      → (s.tail ≤ pos) × (pos < s.tail + ring_size)
  filling-range a (free p b k_is low high) = (omega arith, omega arith)
  filling-range a (full p b k_is below high wrap holds) = absurd (omega arith)

  pub drained-range :
      s.sequence (slot_of pos) ≡ pos + 1
      → SlotOk s (slot_of pos)
      → (pos < s.head)
        × ((pos < s.tail + ring_size)
            × ((s.tail ≤ pos + ring_size)
                × (s.tail ≤ pos → s.payload (slot_of pos) ≡ some (s.entered pos))))
  drained-range a (free p b k_is low high) = absurd (omega arith)
  drained-range a (full p b k_is below high wrap holds) =
      let same : p ≡ pos = omega arith in
      (
        omega arith,
        (omega arith, (omega arith, λ l. holds (omega arith) ∙ ap (λ m. some (s.entered m)) same)),
      )

-- ===== src/LockFree/Scheduler/Moves.antt =====
-- include/lockfree_queue_scheduler.hpp: what an action in `enqueue` or `dequeue` leaves as it is, and
-- what it takes out of the ring.
use lock_free_work_stealing.Base.{
  ℕ, ◌+◌, ◌≡◌, ◌≢◌, ◌∙◌, ◌⊎◌, refl, sym, ap, subst, arith, Bool, true, false, Bool-cases, inl, inr,
  sum_of, update, update_ne, update_self, not, ◌&&◌, ◌==◌, sub64, add64, lt_i64,
}
use lock_free_work_stealing.LockFree.{
  slot_of, Op, idle, awaiting, storing, publishing, loading, reading, claiming, taking, returning,
  reloading, Ring, set_op, compare_seq, op_step,
}

abbrev pub is_enqueue : Op → Bool
is_enqueue (awaiting pos task) = true
is_enqueue (storing pos task) = true
is_enqueue (publishing pos) = true
is_enqueue _ = false

-- The position that a thread has emptied and whose task it has not returned, by weight.
abbrev pub op_weight : (ℕ → ℕ) → Op → ℕ
op_weight w (returning pos) = w pos
op_weight w _ = 0

-- An action stays in its method or ends it.
abbrev pub Stays : Op → Op → Type 0
Stays before after = (is_enqueue after ≡ is_enqueue before) ⊎ (after ≡ idle)

pub record Moved (r : Ring) (i : ℕ) (o : Op) (t : Ring) : Type 0 where
  pub entered : t.entered ≡ r.entered
  pub head : t.head ≡ r.head
  pub others : (j : ℕ) → i ≢ j → t.threads j ≡ r.threads j
  pub taken : (w : ℕ → ℕ) → sum_of w t.taken ≡ sum_of w r.taken + op_weight w (t.threads i)
  pub stays : Stays o (t.threads i)

module _ (r : Ring) (i : ℕ) where
  Moved-to :
      (o : Op) (t : Ring) (x : Op)
      → t.entered ≡ r.entered
      → t.head ≡ r.head
      → t.threads ≡ update r.threads i x
      → ((w : ℕ → ℕ) → sum_of w t.taken ≡ sum_of w r.taken + op_weight w x)
      → Stays o x
      → Moved r i o t
  Moved-to o t x e h th tk st = record {
    entered = e;
    head = h;
    others = λ j ne. ap (λ f. f j) th ∙ update_ne r.threads i j x ne;
    taken = λ w. tk w ∙ ap (λ y. sum_of w r.taken + op_weight w y) (sym self);
    stays = subst (Stays o) (sym self) st;
  }
    where
      self : t.threads i ≡ x
      self = ap (λ f. f i) th ∙ update_self r.threads i x

  same : (o : Op) → r.threads i ≡ o → ((w : ℕ → ℕ) → op_weight w o ≡ 0) → Moved r i o r
  same o e z = record {
    entered = refl;
    head = refl;
    others = λ j ne. refl;
    taken = λ w. omega (arith, z w, ap (op_weight w) e);
    stays = inl (ap is_enqueue e);
  }

  place : (o x : Op) → ((w : ℕ → ℕ) → op_weight w x ≡ 0) → Stays o x → Moved r i o (set_op r i x)
  place o x z st = Moved-to o (set_op r i x) x refl refl refl (λ w. omega (arith, z w)) st

  compare_seq-Moved : (seq pos : ℕ) → Moved r i (reading pos) (set_op r i (compare_seq seq pos))
  unfolding compare_seq
  compare_seq-Moved seq pos = elim (Bool-cases (sub64 seq (add64 pos 1) == 0)) [
    | inl y ↦ rw y (place _ (claiming pos) (λ w. refl) (inl refl))
    | inr n ↦ elim (Bool-cases (lt_i64 (sub64 seq (add64 pos 1)) 0)) [
      | inl y ↦ rw (n, y) (place _ idle (λ w. refl) (inl refl))
      | inr m ↦ rw (n, m) (place _ reloading (λ w. refl) (inl refl))
    ]
  ]

  pub op_step-Moved :
      (spurious : Bool) (o : Op) → r.threads i ≡ o → Moved r i o (op_step r i spurious o)
  unfolding op_step sum_of
  op_step-Moved spurious idle e = same idle e (λ w. refl)
  op_step-Moved spurious (awaiting pos task) e =
      elim (Bool-cases (r.sequence (slot_of pos) == pos)) [
        | inl y ↦ rw y (place _ (storing pos task) (λ w. refl) (inl refl))
        | inr n ↦ rw n (same _ e (λ w. refl))
      ]
  op_step-Moved spurious (storing pos task) e =
      Moved-to _ _ (publishing pos) refl refl refl (λ w. omega arith) (inl refl)
  op_step-Moved spurious (publishing pos) e =
      Moved-to _ _ idle refl refl refl (λ w. omega arith) (inr refl)
  op_step-Moved spurious loading e = place _ (reading r.tail) (λ w. refl) (inl refl)
  op_step-Moved spurious (reading pos) e = compare_seq-Moved (r.sequence (slot_of pos)) pos
  op_step-Moved spurious (claiming pos) e = elim (Bool-cases (r.tail == pos && not spurious)) [
    | inl y ↦ rw y (Moved-to _ _ (taking pos) refl refl refl (λ w. omega arith) (inl refl))
    | inr n ↦ rw n (place _ (reading r.tail) (λ w. refl) (inl refl))
  ]
  op_step-Moved spurious (taking pos) e =
      Moved-to _ _ (returning pos) refl refl refl (λ w. omega arith) (inl refl)
  op_step-Moved spurious (returning pos) e =
      Moved-to _ _ idle refl refl refl (λ w. omega arith) (inl refl)
  op_step-Moved spurious reloading e = place _ (reading r.tail) (λ w. refl) (inl refl)

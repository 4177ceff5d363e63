-- ===== src/Deque/Invariant/Popping.antt =====
-- include/chase_lev_deque.hpp: every access of `pop_bottom` keeps the invariant.
use lock_free_work_stealing.Base.{
  ℕ, ◌+◌, ◌^◌, ◌≤◌, ◌<◌, ◌≡◌, refl, ◌∙◌, ap, arith, true, false, none, ◌==◌, ltb, add64, add64-lt,
  add64-one, add64-sub64, sub64, sub64-lt, lt_i64, lt_i64-small, lt_i64-pred, Bool-cases, inl, inr,
}
use lock_free_work_stealing.Deque.Array.{Ptr, get}
use lock_free_work_stealing.Deque.Machine.{
  ChaseLevDeque, Owner, pop_bot, pop_array, pop_store, pop_top, pop_restore, pop_get, pop_cas,
  pop_finish, Thief, owner_step,
}
use lock_free_work_stealing.Deque.Invariant.{Inv}
use lock_free_work_stealing.Deque.Invariant.Change.{set_bot, go_on, set_top}

module _ {n : ℕ} {d : ChaseLevDeque} {th : ℕ → Thief} (small : n < 2 ^ 61) where
  pub pop_bot-Inv : Inv n d pop_bot th → let (d', o', l) = owner_step d pop_bot in Inv n d' o' th
  unfolding owner_step
  pop_bot-Inv v = go_on v (pop_array (sub64 d.bot 1)) refl refl refl

  pub pop_array-Inv :
      (b : ℕ)
      → Inv n d (pop_array b) th
      → let (d', o', l) = owner_step d (pop_array b) in Inv n d' o' th
  unfolding owner_step
  pop_array-Inv b v = go_on v (pop_store b d.array) refl refl (v.owner, refl)

  pub pop_store-Inv :
      (b a : ℕ)
      → Inv n d (pop_store b a) th
      → let (d', o', l) = owner_step d (pop_store b a) in Inv n d' o' th
  unfolding owner_step
  pop_store-Inv b a v =
      set_bot v b (pop_top b a) (rw v.owner.0 (sub64-lt d.bot 1)) (omega (arith, back))
        (omega (arith, back, v.top-le)) (omega arith)
        (refl, v.owner.1, rw v.owner.0 (sub64-lt d.bot 1)) (λ h. omega (arith, back))
    where
      back : add64 b 1 ≡ d.bot
      back = rw v.owner.0 (add64-sub64 d.bot (omega (arith, v.few)))

  pub pop_top-Inv :
      (b a : ℕ)
      → Inv n d (pop_top b a) th
      → let (d', o', l) = owner_step d (pop_top b a) in Inv n d' o' th
  unfolding owner_step
  pop_top-Inv b a v = elim (Bool-cases (lt_i64 b d.top)) [
    | inl e ↦ rw e (go_on v (pop_restore b) refl refl (v.owner.0, sides.0 e))
    | inr e ↦ rw e (
        set_bot v d.bot (pop_get b a d.top) v.word (omega arith)
          (ground (arith, sides.1 e, v.owner)) (ground (arith, sides.1 e, v.owner))
          (v.owner.0, v.owner.1, (sides.1 e).0, omega arith, (sides.1 e).1 ∙ same)
          (λ h. ground (arith, sides.1 e, v.owner)))
  ]
    where
      same : add64 b 1 ≡ add64 d.bot 1
      same = ap (λ k. add64 k 1) v.owner.0

      sides :
          (lt_i64 b d.top ≡ true → d.top ≡ add64 b 1)
          × (lt_i64 b d.top ≡ false → (d.top ≤ b) × (b + 1 ≡ add64 b 1))
      sides =
          lt_i64-pred b d.top v.owner.2 (omega (arith, same, v.few)) (omega (arith, same, v.top-le))

  pub pop_restore-Inv :
      (b : ℕ)
      → Inv n d (pop_restore b) th
      → let (d', o', l) = owner_step d (pop_restore b) in Inv n d' o' th
  unfolding owner_step
  pop_restore-Inv b v =
      set_bot v (add64 b 1) Owner.idle (add64-lt b 1) (omega (arith, same))
        (omega (arith, same, v.top-le)) (omega arith) tt (λ h. omega (arith, same))
    where
      same : add64 b 1 ≡ add64 d.bot 1
      same = ap (λ k. add64 k 1) v.owner.0

  pub pop_get-Inv :
      (b a t : ℕ)
      → Inv n d (pop_get b a t) th
      → let (d', o', l) = owner_step d (pop_get b a t) in Inv n d' o' th
  unfolding owner_step
  pop_get-Inv b a t v =
      rw (lt_i64-small t b (omega (arith, v.owner, v.few)) (omega (arith, v.owner, v.few)))
        (elim (Bool-cases (ltb t b)) [
          | inl e ↦ rw e (
              set_bot v d.bot Owner.idle v.word (omega (arith, v.owner))
                (ground (arith, v.top-le, v.owner)) (omega arith) tt (λ h. ground arith))
          | inr e ↦ rw e (
              go_on v (pop_cas b t (get (d.heap a) b)) refl (rw e) (
                v.owner.0,
                ground (arith, v.owner),
                v.owner.3,
                ap (λ k. get (d.heap k) b) v.owner.1,
                v.owner.4,
              ))
        ])

  pub pop_cas-Inv :
      (b t : ℕ) (raw : Ptr)
      → Inv n d (pop_cas b t raw) th
      → let (d', o', l) = owner_step d (pop_cas b t raw) in Inv n d' o' th
  unfolding owner_step
  pop_cas-Inv b t raw v = elim (Bool-cases (d.top == t)) [
    | inl e ↦ rw e (
        set_top v (add64 t 1) (pop_finish b raw) (rw next (ground (arith, v.owner)))
          (ground (arith, v.owner)) refl refl (v.owner.0, ap (λ k. add64 k 1) v.owner.1))
    | inr e ↦
        rw e (
          go_on v (pop_finish b none) refl refl
            (v.owner.0, ground (arith, v.owner, v.top-le, next)))
  ]
    where
      next : add64 t 1 ≡ t + 1
      next = add64-one t (omega (arith, v.owner, v.few))

  pub pop_finish-Inv :
      (b : ℕ) (out : Ptr)
      → Inv n d (pop_finish b out) th
      → let (d', o', l) = owner_step d (pop_finish b out) in Inv n d' o' th
  unfolding owner_step
  pop_finish-Inv b out v =
      set_bot v (add64 b 1) Owner.idle (add64-lt b 1) (omega (arith, same))
        (omega (arith, same, v.top-le)) (omega arith) tt (λ h. omega (arith, same))
    where
      same : add64 b 1 ≡ add64 d.bot 1
      same = ap (λ k. add64 k 1) v.owner.0

-- ===== src/Deque/Refine/ThiefSide.antt =====
-- include/chase_lev_deque.hpp: what each access of a thief does to the tasks that wait.
use lock_free_work_stealing.Base.{
  ℕ, ◌+◌, ◌-◌, ◌^◌, ◌≤◌, ◌<◌, ◌≡◌, refl, sym, ◌∙◌, ap, ap₂, subst, arith, true, none, some, [], ◌∷◌,
  ◌++◌, ◌==◌, add64, add64-one, le_i64, Bool-cases, inl, inr, length,
}
use lock_free_work_stealing.Deque.Array.{CircularArray, Ptr}
use lock_free_work_stealing.Deque.Machine.{
  ChaseLevDeque, Owner, pop_finish, Thief, steal_top, steal_bot, steal_array, steal_get, steal_cas,
  thief_step,
}
use lock_free_work_stealing.Deque.Invariant.{
  item, bottom, limit, held, window, contents, Inv, ThiefOk,
}
use lock_free_work_stealing.Deque.Refine.{Stolen, Effect}
use lock_free_work_stealing.Deque.Refine.Window.{window-oldest, length-window}

-- `bot_` as a thief sees it is at least the bottom less one.
le_i64-bottom :
    (b t : ℕ) → b < 2 ^ 64 → t < 2 ^ 62 → le_i64 b t ≡ true → add64 b 1 < 2 ^ 62 → add64 b 1 ≤ t + 1
unfolding le_i64 add64
le_i64-bottom b t p q e r = ground arith

module _ {n : ℕ} {d : ChaseLevDeque} {th : ℕ → Thief} (small : n < 2 ^ 61) where
  -- While a thief can still win a task, the owner holds none.
  held-eq-nil : (o : Owner) → Inv n d o th → d.top < limit d o → held o ≡ []
  held-eq-nil (pop_finish b (some x)) v lt =
      absurd (omega (arith, lt, v.owner.1, ap (λ k. add64 k 1) v.owner.0))
  held-eq-nil (pop_finish b none) v lt = refl
  held-eq-nil o v lt = refl

  length-contents : (o : Owner) → Inv n d o th → bottom d o ≤ d.top + 1 → length (contents d o) ≤ 1
  length-contents (pop_finish b (some x)) v h =
      let same : add64 b 1 ≡ add64 d.bot 1 = ap (λ k. add64 k 1) v.owner.0 in
      omega (arith, v.owner.1, length-window (d.heap d.array) d.top (add64 d.bot 1 - d.top))
  length-contents (pop_finish b none) v h =
      omega (arith, length-window (d.heap d.array) d.top (add64 d.bot 1 - d.top))
  length-contents o v h = omega (arith, length-window (d.heap d.array) d.top (bottom d o - d.top))

  -- A thief that finds `bot_` at most at its index finds one task at most.
  bottom-le :
      (o : Owner) (t : ℕ)
      → Inv n d o th
      → t ≤ d.top
      → le_i64 d.bot t ≡ true
      → bottom d o ≤ d.top + 1
  unfolding le_i64 add64
  bottom-le o t v le e = ground (arith, v.word, v.few, v.top-le, v.limit-le)

  won_task :
      (o : Owner)
      → Inv n d o th
      → d.top < limit d o
      → (p : Ptr) → p ≡ item d d.top
      → Stolen p (contents d o) (contents (record d { top = add64 d.top 1 }) o)
  won_task o v lt p e =
      let (x, live) = v.live d.top (omega arith) (omega (arith, v.limit-le)) in
      subst (λ q. Stolen q (contents d o) (contents d' o)) (sym (e ∙ live))
        (ap (λ l. l ++ window a d.top (bottom d o - d.top)) none_held
          ∙ window-oldest a d.top (bottom d o) (omega (arith, v.limit-le))
          ∙ ap₂ (λ q k. q ∷ window a k (bottom d o - k)) live (sym step)
          ∙ ap (λ l. some x ∷ (l ++ window a (add64 d.top 1) (bottom d o - add64 d.top 1)))
              (sym none_held))
    where
      a : CircularArray
      a = d.heap d.array

      d' : ChaseLevDeque
      d' = record d { top = add64 d.top 1 }

      none_held : held o ≡ []
      none_held = held-eq-nil o v lt

      step : add64 d.top 1 ≡ d.top + 1
      step = add64-one d.top (omega (arith, v.few, v.limit-le))

  pub thief_step-Effect :
      (o : Owner) (t : Thief)
      → Inv n d o th
      → ThiefOk d (limit d o) t
      → let (d', t', l) = thief_step d t in Effect l (contents d o) (contents d' o)
  unfolding thief_step
  thief_step-Effect o Thief.idle v h = refl
  thief_step-Effect o steal_top v h = refl
  thief_step-Effect o (steal_bot t) v h = elim (Bool-cases (le_i64 d.bot t)) [
    | inl e ↦ rw e (refl, λ _. (refl, length-contents o v (bottom-le o t v h e)))
    | inr e ↦ rw e refl
  ]
  thief_step-Effect o (steal_array t) v h = refl
  thief_step-Effect o (steal_get t a) v h = refl
  thief_step-Effect o (steal_cas t raw) v h = elim (Bool-cases (d.top == t)) [
    | inl e ↦
        let same : t ≡ d.top = ground arith in
        rw (e, same) (won_task o v (h.1 same) raw (h.2 same), λ f. cc)
    | inr e ↦ rw e (refl, λ f. cc)
  ]

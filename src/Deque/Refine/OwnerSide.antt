-- ===== src/Deque/Refine/OwnerSide.antt =====
-- include/chase_lev_deque.hpp: what each access of the owner does to the tasks that wait.
use lock_free_work_stealing.Base.{
  ℕ, ◌+◌, ◌-◌, ◌^◌, ◌≤◌, ◌<◌, ◌≡◌, refl, sym, ◌∙◌, ap, ap₂, arith, true, none, some, List, [], ◌∷◌,
  ◌++◌, ◌==◌, ltb, add64, lt_i64, lt_i64-small, add64-one, add64-sub64, Bool-cases, inl, inr,
  update_self, update_ne, subst,
}
use lock_free_work_stealing.Deque.Array.{Ptr, get-put_ne}
use lock_free_work_stealing.Deque.Machine.{
  ChaseLevDeque, Owner, push_bot, push_top, push_array, push_grow, push_install, push_put,
  push_publish, pop_bot, pop_array, pop_store, pop_top, pop_restore, pop_get, pop_cas, pop_finish,
  Thief, popped, owner_step,
}
use lock_free_work_stealing.Deque.Invariant.{item, window, contents, Inv}
use lock_free_work_stealing.Deque.Refine.{Effect}
use lock_free_work_stealing.Deque.Refine.Window.{
  window-ext, window-empty, window-newest, window-oldest,
}

-- A pointer that is known not to be null was received.
Effect-popped :
    {before : List Ptr} (after : List Ptr) (p : Ptr) {x : ℕ}
    → p ≡ some x
    → before ≡ after ++ p ∷ []
    → Effect (popped p) before after
Effect-popped {before} after p e h =
    subst (λ q. before ≡ after ++ q ∷ [] → Effect (popped q) before after) (sym e) (λ k. k) h

-- The owner wins the last task: it moves from the array into the owner's hands.
last_won :
    (d : ChaseLevDeque) (t x : ℕ)
    → d.top ≡ t
    → add64 t 1 ≡ add64 d.bot 1
    → t + 1 ≡ add64 d.bot 1
    → item d t ≡ some x
    → some x ∷ window (d.heap d.array) (add64 t 1) (add64 d.bot 1 - add64 t 1)
      ≡ window (d.heap d.array) d.top (add64 d.bot 1 - d.top)
last_won d t x here end next e =
    ap (◌∷◌ (some x)) (window-empty _ (add64 t 1) _ (omega arith))
    ∙ sym (
        window-oldest (d.heap d.array) d.top (add64 d.bot 1) (omega arith)
        ∙ ap₂ ◌∷◌ (ap (item d) here ∙ e) (window-empty _ (d.top + 1) _ (omega arith)))

module _ {n : ℕ} {d : ChaseLevDeque} {th : ℕ → Thief} (small : n < 2 ^ 61) where
  pub owner_step-Effect :
      (o : Owner)
      → Inv n d o th
      → let (d', o', l) = owner_step d o in Effect l (contents d o) (contents d' o')
  unfolding owner_step
  owner_step-Effect Owner.idle v = refl
  owner_step-Effect (push_bot x) v = refl
  owner_step-Effect (push_top x b) v = refl
  owner_step-Effect (push_array x b t) v = ground arith
  owner_step-Effect (push_grow x b t a) v =
      ap (λ c. window c d.top (d.bot - d.top))
        (update_ne d.heap d.next d.array _ (λ e. omega (arith, v.current)))
  owner_step-Effect (push_install x b m) v =
      window-ext _ _ d.top _ (λ i p q. v.owner.3 i p (omega (arith, v.owner.0, v.top-le)))
  owner_step-Effect (push_put x b a) v = rw v.owner.1 (
      ap (λ c. window c d.top (d.bot - d.top)) (update_self d.heap d.array _)
      ∙ window-ext _ _ d.top _ (λ i p q.
        (get-put_ne i b (some x) (v.arrays d.array v.current) (omega (arith, v.owner.0, v.top-le))
          (omega (arith, v.owner.2))).0))
  owner_step-Effect (push_publish x b) v =
      window-newest (d.heap d.array) d.top d.bot (add64 b 1)
        (rw v.owner.0 (add64-one d.bot (omega (arith, v.few)))) v.top-le
      ∙ ap (λ p. contents d (push_publish x b) ++ p ∷ []) (rw (← v.owner.0) v.owner.1)
  owner_step-Effect pop_bot v = refl
  owner_step-Effect (pop_array b) v = refl
  owner_step-Effect (pop_store b a) v =
      ap (λ k. window (d.heap d.array) d.top (k - d.top)) (rw v.owner.0 (add64-sub64 d.bot v.word))
  owner_step-Effect (pop_top b a) v = ground arith
  owner_step-Effect (pop_restore b) v = (
    window-empty _ d.top _ (omega (arith, v.owner.1, ap (λ k. add64 k 1) v.owner.0)),
    window-empty _ d.top _ (omega (arith, v.owner.1)),
  )
  owner_step-Effect (pop_get b a t) v = elim (Bool-cases (lt_i64 t b)) [
    | inl e ↦
        rw (e, v.owner.1, v.owner.0)
          (Effect-popped _ (item d d.bot) (v.live d.bot (top-le e) (omega (arith, v.owner))).1 (
            window-newest (d.heap d.array) d.top d.bot (add64 d.bot 1) (omega (arith, v.owner))
              (top-le e)))
    | inr e ↦ rw e refl
  ]
    where
      top-le : lt_i64 t b ≡ true → d.top ≤ d.bot
      top-le e =
          let f : ltb t b ≡ true =
            sym (lt_i64-small t b (omega (arith, v.owner, v.few)) (omega (arith, v.owner, v.few)))
            ∙ e in
          rw f at v.top-le
  owner_step-Effect (pop_cas b t raw) v = elim (Bool-cases (d.top == t)) [
    | inl e ↦
        rw (e, v.owner.3 ∙ (front e).1)
          (last_won d t (front e).0 (ground arith) (ap (λ k. add64 k 1) (v.owner.1 ∙ v.owner.0))
            (ground (arith, v.owner)) (ap (item d) v.owner.1 ∙ (front e).1))
    | inr e ↦ rw e refl
  ]
    where
      front : (d.top == t) ≡ true → (x : ℕ) × (item d b ≡ some x)
      front e = v.live b (ground (arith, v.owner)) (omega (arith, v.owner))
  owner_step-Effect (pop_finish b none) v = (
    window-empty _ d.top _ (omega (arith, v.owner.1, ap (λ k. add64 k 1) v.owner.0)),
    window-empty _ d.top _ (omega (arith, v.owner.1)),
  )
  owner_step-Effect (pop_finish b (some x)) v = rw (
    window-empty (d.heap d.array) d.top (add64 d.bot 1)
        (omega (arith, v.owner.1, ap (λ k. add64 k 1) v.owner.0)),
    window-empty (d.heap d.array) d.top (add64 b 1) (omega (arith, v.owner.1)),
  )

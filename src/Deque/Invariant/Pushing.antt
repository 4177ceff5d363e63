-- ===== src/Deque/Invariant/Pushing.antt =====
-- include/chase_lev_deque.hpp: every access of `push_bottom` keeps the invariant.
use lock_free_work_stealing.Base.{
  ℕ, suc, ◌+◌, ◌-◌, ◌^◌, ◌≤◌, ◌<◌, ◌≡◌, refl, sym, ◌∙◌, ap, arith, true, false, some, ℕ_discrete,
  update, update_self, update_ne, update_ind, add64, add64-one, sub64, le_i64, shl1, Bool-cases,
  inl, inr,
}
use lock_free_work_stealing.Deque.Array.{
  CircularArray, get, put, grow, capacity, IsArray, put-IsArray, get-put_self, get-put_ne, mask-put,
}
use lock_free_work_stealing.Deque.Array.Copy.{Grown, grow-Grown}
use lock_free_work_stealing.Deque.Machine.{
  ChaseLevDeque, push_array, push_grow, push_install, push_put, push_publish, Thief, is_full,
  owner_step,
}
use lock_free_work_stealing.Deque.Invariant.{item, Inv}
use lock_free_work_stealing.Deque.Invariant.Frame.{Frame, Frame-ThiefOk}
use lock_free_work_stealing.Deque.Invariant.Change.{go_on, set_heap}

full_lem :
    (a : CircularArray) (b t : ℕ)
    → IsArray a
    → t ≤ b
    → b < 2 ^ 61
    → (is_full a b t ≡ true → a.mask ≤ b - t) × (is_full a b t ≡ false → b - t < a.mask)
unfolding is_full le_i64 sub64 capacity shl1
full_lem a b t v p q = (λ e. ground (arith, v.cap, v.small), λ e. ground (arith, v.cap, v.small))

module _ {n : ℕ} {d : ChaseLevDeque} {th : ℕ → Thief} (small : n < 2 ^ 61) where
  pub push_array-Inv :
      (x b t : ℕ)
      → Inv n d (push_array x b t) th
      → let (d', o', l) = owner_step d (push_array x b t) in Inv n d' o' th
  unfolding owner_step
  push_array-Inv x b t v = elim (Bool-cases (is_full (d.heap d.array) b t)) [
    | inl e ↦ rw e (
        go_on v (push_grow x b t d.array) refl refl
          (v.owner.0, v.owner.1, refl, v.owner.2, full.0 e))
    | inr e ↦ rw e (
        go_on v (push_put x b d.array) refl refl
          (v.owner.0, refl, omega (arith, full.1 e, v.owner)))
  ]
    where
      full :
          (is_full (d.heap d.array) b t ≡ true → (d.heap d.array).mask ≤ b - t)
          × (is_full (d.heap d.array) b t ≡ false → b - t < (d.heap d.array).mask)
      full =
          full_lem (d.heap d.array) b t (v.arrays d.array v.current)
            (omega (arith, v.owner, v.top-le)) (omega (arith, v.owner, v.few))

  pub push_grow-Inv :
      (x b t a : ℕ)
      → Inv n d (push_grow x b t a) th
      → let (d', o', l) = owner_step d (push_grow x b t a) in Inv n d' o' th
  unfolding owner_step
  push_grow-Inv x b t a v = rw v.owner.2 (
      set_heap v d.array (d.next + 1) _ heap' (push_install x b d.next)
        (λ p lt.
          update_ind d.heap IsArray d.next p _ (λ e. grown.valid) (λ ne. v.arrays p (omega arith)))
        (omega (arith, v.current)) (omega arith) refl refl (rw same (omega (arith, v.room)))
        (λ i p q. ap (λ c. get c i) same)
        (λ p q h. ap (λ c. get c d.top) (update_ne d.heap d.next p _ (λ e. omega arith)))
        (
          v.owner.0,
          omega arith,
          rw new (omega (arith, grown.cap, v.room, v.owner)),
          λ i p q.
              ap (λ c. get c i) new
              ∙ grown.live i (omega (arith, v.owner)) q
              ∙ sym (ap (λ c. get c i) same),
        ))
    where
      heap' : ℕ → CircularArray
      heap' = update d.heap d.next (grow (d.heap d.array) b t)

      same : heap' d.array ≡ d.heap d.array
      same = update_ne d.heap d.next d.array _ (λ e. omega (arith, v.current))

      new : heap' d.next ≡ grow (d.heap d.array) b t
      new = update_self d.heap d.next _

      grown : Grown (d.heap d.array) b t (grow (d.heap d.array) b t)
      grown =
          grow-Grown (d.heap d.array) b t (v.arrays d.array v.current)
            (omega (arith, v.owner, v.top-le)) (omega (arith, v.owner, v.few))
            (omega (arith, v.owner)) (omega (arith, v.owner, v.few))

  pub push_install-Inv :
      (x b m : ℕ)
      → Inv n d (push_install x b m) th
      → let (d', o', l) = owner_step d (push_install x b m) in Inv n d' o' th
  unfolding owner_step
  push_install-Inv x b m v =
      set_heap v m d.next d.old_arrays d.heap (push_put x b m) v.arrays v.owner.1 (omega arith) refl
        refl (omega (arith, v.owner)) (λ i p q. v.owner.3 i p (omega (arith, v.owner)))
        (λ p q h. refl) (v.owner.0, refl, v.owner.2)

  pub push_put-Inv :
      (x b a : ℕ)
      → Inv n d (push_put x b a) th
      → let (d', o', l) = owner_step d (push_put x b a) in Inv n d' o' th
  unfolding owner_step
  push_put-Inv x b a v = rw v.owner.1 (
      set_heap v d.array d.next d.old_arrays heap' (push_publish x b)
        (λ p lt.
          update_ind d.heap IsArray d.array p _ (λ e. put-IsArray b (some x) cur)
            (λ ne. v.arrays p lt))
        v.current (omega arith) refl refl
        (rw new (omega (arith, v.room, mask-put (d.heap d.array) b (some x))))
        (λ i p q. ap (λ c. get c i) new ∙ other i p (omega (arith, v.owner)))
        (λ p q h.
          update_ind d.heap (λ c. get c d.top ≡ get (d.heap p) d.top) d.array p _
            (λ e. rw (← e) (other d.top (omega arith) (omega (arith, v.owner)))) (λ ne. refl))
        (
          v.owner.0,
          ap (λ c. get c b) new ∙ get-put_self b (some x) cur,
          rw new (omega (arith, v.owner, mask-put (d.heap d.array) b (some x))),
        ))
    where
      heap' : ℕ → CircularArray
      heap' = update d.heap d.array (put (d.heap d.array) b (some x))

      cur : IsArray (d.heap d.array)
      cur = v.arrays d.array v.current

      new : heap' d.array ≡ put (d.heap d.array) b (some x)
      new = update_self d.heap d.array _

      other : (i : ℕ) → d.top ≤ i → i < b → get (put (d.heap d.array) b (some x)) i ≡ item d i
      other i p q = (get-put_ne i b (some x) cur q (omega (arith, v.owner))).0

  pub push_publish-Inv :
      (x b : ℕ)
      → Inv n d (push_publish x b) th
      → let (d', o', l) = owner_step d (push_publish x b) in Inv (suc n) d' o' th
  unfolding owner_step
  push_publish-Inv x b v = record {
    arrays = v.arrays;
    current = v.current;
    word = omega (arith, next, v.few);
    few = omega (arith, v.few, next);
    top-le = omega (arith, v.top-le, next);
    limit-le = omega arith;
    room = omega (arith, v.owner, next);
    live = λ i p q. elim (ℕ_discrete b i) [
      | yes e ↦ (x, rw (← e) v.owner.1)
      | no ne ↦ v.live i p (omega (arith, next))
    ];
    owner = tt;
    thieves_ok = λ i. Frame-ThiefOk frame (th i) (v.thieves_ok i);
  }
    where
      next : add64 b 1 ≡ d.bot + 1
      next = rw (add64-one b (omega (arith, v.owner, v.few))) (omega (arith, v.owner))

      frame : Frame d d.bot (record d { bot = add64 b 1 }) (add64 b 1)
      frame = record {
        rises = omega arith;
        heap_grows = omega arith;
        stays_live = λ e h. omega (arith, next);
        same_item = λ e h. refl;
        same_get = λ p q e h. refl;
      }

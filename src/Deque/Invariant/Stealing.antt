-- ===== src/Deque/Invariant/Stealing.antt =====
-- include/chase_lev_deque.hpp: every access of `steal` keeps the invariant.
use lock_free_work_stealing.Base.{
  ℕ, ◌+◌, ◌^◌, ◌≤◌, ◌<◌, ◌≡◌, refl, ◌∙◌, ap, arith, true, false, ◌==◌, add64, add64-one, le_i64,
  le_i64-false, update, update_ind, Bool-cases, inl, inr,
}
use lock_free_work_stealing.Deque.Array.{get}
use lock_free_work_stealing.Deque.Machine.{
  ChaseLevDeque, Owner, push_install, pop_restore, pop_get, pop_cas, pop_finish, Thief, steal_top,
  steal_bot, steal_array, steal_get, steal_cas, thief_step,
}
use lock_free_work_stealing.Deque.Invariant.{limit, OwnerOk, ThiefOk, Inv}
use lock_free_work_stealing.Deque.Invariant.Change.{set_top}

limit-top : (d : ChaseLevDeque) (k : ℕ) (o : Owner) → limit (record d { top = k }) o ≡ limit d o
limit-top d k (pop_get b a t) = refl
limit-top d k _ = refl

-- What the owner knows stays true when a thief wins a live index.
OwnerOk-rise :
    (d : ChaseLevDeque) (k : ℕ) (o : Owner)
    → k ≡ d.top + 1
    → d.top < limit d o
    → OwnerOk d o
    → OwnerOk (record d { top = k }) o
OwnerOk-rise d k (push_install x b n) e lt h =
    (h.0, h.1, omega arith, λ i p q. h.3 i (omega arith) q)
OwnerOk-rise d k (pop_restore b) e lt h = absurd (omega (arith, h, ap (λ j. add64 j 1) h.0))
OwnerOk-rise d k (pop_finish b out) e lt h = absurd (omega (arith, h, ap (λ j. add64 j 1) h.0))
OwnerOk-rise d k (pop_cas b t raw) e lt h = (h.0, h.1, omega arith, h.3, h.4)
OwnerOk-rise d k o e lt h = ground arith

limit-ge : (d : ChaseLevDeque) (o : Owner) → d.bot < 2 ^ 63 → d.bot ≤ limit d o
limit-ge d (pop_get b a t) h = ground (arith, add64-one d.bot)
limit-ge d o h = ground (arith, add64-one d.bot)

module _ {n : ℕ} {d : ChaseLevDeque} {o : Owner} {th : ℕ → Thief} (v : Inv n d o th) (i : ℕ) where
  pub stay : (t : Thief) → ThiefOk d (limit d o) t → Inv n d o (update th i t)
  stay t ok = record {
    arrays = v.arrays;
    current = v.current;
    word = v.word;
    few = v.few;
    top-le = v.top-le;
    limit-le = v.limit-le;
    room = v.room;
    live = v.live;
    owner = v.owner;
    thieves_ok = λ j. update_ind th (ThiefOk d (limit d o)) i j t (λ e. ok) (λ ne. v.thieves_ok j);
  }

module _ {n : ℕ} {d : ChaseLevDeque} {o : Owner} {th : ℕ → Thief} (v : Inv n d o th) (i : ℕ) where
  pub thief_step-Inv :
      (t : Thief)
      → n < 2 ^ 61
      → ThiefOk d (limit d o) t
      → let (d', t', l) = thief_step d t in Inv n d' o (update th i t')
  unfolding thief_step
  thief_step-Inv Thief.idle small h = stay v i Thief.idle tt
  thief_step-Inv steal_top small h = stay v i (steal_bot d.top) (omega arith)
  thief_step-Inv (steal_bot t) small h = elim (Bool-cases (le_i64 d.bot t)) [
    | inl e ↦ rw e (stay v i Thief.idle tt)
    | inr e ↦ rw e (stay v i (steal_array t) (h, λ same. omega (arith, live e)))
  ]
    where
      live : le_i64 d.bot t ≡ false → t < limit d o
      live e =
          let s : (t < d.bot) × (d.bot < 2 ^ 63) =
            le_i64-false d.bot t v.word (omega (arith, v.few, v.limit-le, v.top-le)) e in
          omega (arith, limit-ge d o s.1)
  thief_step-Inv (steal_array t) small h =
      stay v i (steal_get t d.array) (h.0, h.1, v.current, λ e. refl)
  thief_step-Inv (steal_get t a) small h =
      stay v i (steal_cas t (get (d.heap a) t)) (h.0, h.1, λ e. ap (get (d.heap a)) e ∙ h.3 e)
  thief_step-Inv (steal_cas t raw) small h = elim (Bool-cases (d.top == t)) [
    | inl e ↦ rw e (
        stay
          (set_top v (add64 t 1) o (rw (next e) (ground arith)) (h.1 (ground arith)) refl
            (limit-top d (add64 t 1) o)
            (OwnerOk-rise d (add64 t 1) o (rw (next e) (ground arith)) (h.1 (ground arith))
              v.owner))
          i Thief.idle tt)
    | inr e ↦ rw e (stay v i Thief.idle tt)
  ]
    where
      next : (d.top == t) ≡ true → add64 t 1 ≡ t + 1
      next e = add64-one t (omega (arith, v.few, v.limit-le, v.top-le, h.0))

-- ===== src/Deque/Invariant/Steps.antt =====
-- include/chase_lev_deque.hpp: the invariant holds at the start, and each access keeps it.
use lock_free_work_stealing.Base.{
  ℕ, ◌^◌, ◌<◌, ◌==◌, refl, arith, List, length, lt_i64, Bool-cases, inl, inr,
}
use lock_free_work_stealing.Deque.Array.{make-IsArray}
use lock_free_work_stealing.Deque.Array.Copy.{mask-make}
use lock_free_work_stealing.Deque.Machine.{
  ChaseLevDeque, fresh, Owner, push_bot, push_top, push_array, push_grow, push_install, push_put,
  push_publish, pop_bot, pop_array, pop_store, pop_top, pop_restore, pop_get, pop_cas, pop_finish,
  Thief, push_history, owner_step,
}
use lock_free_work_stealing.Deque.Invariant.{Inv}
use lock_free_work_stealing.Deque.Invariant.Change.{go_on}
use lock_free_work_stealing.Deque.Invariant.Pushing.{
  push_array-Inv, push_grow-Inv, push_install-Inv, push_put-Inv, push_publish-Inv,
}
use lock_free_work_stealing.Deque.Invariant.Popping.{
  pop_bot-Inv, pop_array-Inv, pop_store-Inv, pop_top-Inv, pop_restore-Inv, pop_get-Inv, pop_cas-Inv,
  pop_finish-Inv,
}

pub Inv-init : Inv 0 fresh Owner.idle (λ _. Thief.idle)
unfolding fresh
Inv-init = record {
  arrays = λ p lt. make-IsArray 8 (omega arith);
  current = omega arith;
  word = omega arith;
  few = omega arith;
  top-le = omega arith;
  limit-le = omega arith;
  room = omega (arith, mask-make 8);
  live = λ i p q. absurd (omega arith);
  owner = tt;
  thieves_ok = λ i. tt;
}

module _ (h : List ℕ) {d : ChaseLevDeque} {th : ℕ → Thief} (small : length h < 2 ^ 61) where
  pub owner_step-Inv :
      (o : Owner)
      → Inv (length h) d o th
      → let (d', o', l) = owner_step d o in Inv (length (push_history l h)) d' o' th
  unfolding owner_step
  owner_step-Inv Owner.idle v = v
  owner_step-Inv (push_bot x) v = go_on v (push_top x d.bot) refl refl refl
  owner_step-Inv (push_top x b) v =
      go_on v (push_array x b d.top) refl refl
        (v.owner, omega arith, omega (arith, v.owner, v.room))
  owner_step-Inv (push_array x b t) v = push_array-Inv small x b t v
  owner_step-Inv (push_grow x b t a) v = push_grow-Inv small x b t a v
  owner_step-Inv (push_install x b m) v = push_install-Inv small x b m v
  owner_step-Inv (push_put x b a) v = push_put-Inv small x b a v
  owner_step-Inv (push_publish x b) v = push_publish-Inv small x b v
  owner_step-Inv pop_bot v = pop_bot-Inv small v
  owner_step-Inv (pop_array b) v = pop_array-Inv small b v
  owner_step-Inv (pop_store b a) v = pop_store-Inv small b a v
  owner_step-Inv (pop_top b a) v = pop_top-Inv small b a v
  owner_step-Inv (pop_restore b) v = pop_restore-Inv small b v
  owner_step-Inv (pop_get b a t) v = elim (Bool-cases (lt_i64 t b)) [
    | inl e ↦ rw e (rw e at (pop_get-Inv small b a t v))
    | inr e ↦ rw e (rw e at (pop_get-Inv small b a t v))
  ]
  owner_step-Inv (pop_cas b t raw) v = elim (Bool-cases (d.top == t)) [
    | inl e ↦ rw e (rw e at (pop_cas-Inv small b t raw v))
    | inr e ↦ rw e (rw e at (pop_cas-Inv small b t raw v))
  ]
  owner_step-Inv (pop_finish b out) v = pop_finish-Inv small b out v

-- ===== src/Deque/Destructor.antt =====
-- include/chase_lev_deque.hpp, ~ChaseLevDeque: the tasks that are left and the arrays.
use lock_free_work_stealing.Base.{
  ℕ, zero, suc, ◌+◌, ◌-◌, ◌^◌, ◌≤◌, ◌<◌, ◌≡◌, ◌∙◌, refl, sym, ap, subst, arith, Bool, true, false,
  Bool-cases, inl, inr, le_i64, List, [], ◌∷◌, ◌++◌, length, count, if◌then◌else◌, ltb, add64,
  add64-one, sub64, lt_i64, ◌==◌,
}
use lock_free_work_stealing.Deque.Array.{Ptr, CircularArray, get, rounds}
use lock_free_work_stealing.Deque.Machine.{
  ChaseLevDeque, fresh, Owner, push_bot, push_top, push_array, push_grow, push_install, push_put,
  push_publish, pop_bot, pop_array, pop_store, pop_top, pop_restore, pop_get, pop_cas, pop_finish,
  Thief, steal_top, steal_bot, steal_array, steal_get, steal_cas, owner_step, thief_step, is_full,
}
use lock_free_work_stealing.Deque.Invariant.{window, OwnerOk}
use lock_free_work_stealing.Deque.System.{
  System, Step, call_push, call_pop, owner_moves, call_steal, thief_moves, owner_move, thief_move,
  Reach, here, next, max_pushes, pushes-le, Reach-SystemInv,
}
use lock_free_work_stealing.Deque.Safety.{waiting, count_ptr, Reach-count, Quiet, Reach-Quiet}

-- What the destructor deletes, in this order.
pub record Deleted : Type 0 where
  pub tasks : List Ptr
  pub arrays : List ℕ

-- The loop from `i`, by the rounds that are left
unfoldable pub drain_from : ℕ → CircularArray → ℕ → List Ptr
drain_from zero a i = []
drain_from (suc n) a i = get a i ∷ drain_from n a (add64 i 1)

unfoldable pub destroy : ChaseLevDeque → Deleted
unfolding drain_from rounds
destroy d = record {
  tasks = drain_from (rounds d.bot d.top) (d.heap d.array) d.top;
  arrays = d.array ∷ d.old_arrays;
}

drain_from-window :
    (n : ℕ) (a : CircularArray) (i : ℕ) → i + n < 2 ^ 63 → drain_from n a i ≡ window a i n
unfolding drain_from
drain_from-window zero a i small = refl
drain_from-window (suc n) a i small =
    ap (λ l. get a i ∷ l)
      (ap (drain_from n a) (add64-one i (omega arith))
        ∙ drain_from-window n a (i + 1) (omega arith))

rounds-sub : (b t : ℕ) → t ≤ b → b < 2 ^ 61 → rounds b t ≡ b - t
unfolding rounds lt_i64 sub64
rounds-sub b t p q = ground arith

-- The array that is the live one as soon as a `push_bottom` that grew has stored it.
abbrev live : ℕ → Owner → ℕ
live array (push_install x b n) = n
live array o = array

abbrev one_below : ℕ → ℕ → ℕ
one_below limit a = if ltb a limit then 1 else 0

-- Each address that was allocated is the live array's or an old one's, once.
abbrev Owned : ChaseLevDeque → Owner → Type 0
Owned d o = (a : ℕ) → count a (live d.array o ∷ d.old_arrays) ≡ one_below d.next a

count-append : (a : ℕ) (xs ys : List ℕ) → count a (xs ++ ys) ≡ count a xs + count a ys
count-append a [] ys = omega arith
count-append a (x ∷ xs) ys = ground (arith, count-append a xs ys)

module _ (d : ChaseLevDeque) where
  branch-Owned :
      (c : Bool) (x b t : ℕ)
      → Owned d Owner.idle
      → Owned d (if c then push_grow x b t d.array else push_put x b d.array)
  branch-Owned true x b t h = h
  branch-Owned false x b t h = h

  pop_top-Owned :
      (c : Bool) (b a t : ℕ)
      → Owned d Owner.idle
      → Owned d (if c then pop_restore b else pop_get b a t)
  pop_top-Owned true b a t h = h
  pop_top-Owned false b a t h = h

  owner_step-Owned :
      (o : Owner) → OwnerOk d o → Owned d o → Owned (owner_step d o).0 (owner_step d o).1
  unfolding owner_step
  owner_step-Owned Owner.idle ok h = h
  owner_step-Owned (push_bot x) ok h = h
  owner_step-Owned (push_top x b) ok h = h
  owner_step-Owned (push_array x b t) ok h = branch-Owned (is_full (d.heap d.array) b t) x b t h
  owner_step-Owned (push_grow x b t a) ok h = λ p.
      let same : a ≡ d.array = ok.2 in
      ground (arith, h p, count-append p d.old_arrays (a ∷ []), same)
  owner_step-Owned (push_install x b n) ok h = h
  owner_step-Owned (push_put x b a) ok h = h
  owner_step-Owned (push_publish x b) ok h = h
  owner_step-Owned pop_bot ok h = h
  owner_step-Owned (pop_array b) ok h = h
  owner_step-Owned (pop_store b a) ok h = h
  owner_step-Owned (pop_top b a) ok h = pop_top-Owned (lt_i64 b d.top) b a d.top h
  owner_step-Owned (pop_restore b) ok h = h
  owner_step-Owned (pop_get b a t) ok h = elim (Bool-cases (lt_i64 t b)) [
    | inl y ↦ rw y h
    | inr n ↦ rw n h
  ]
  owner_step-Owned (pop_cas b t raw) ok h = elim (Bool-cases (d.top == t)) [
    | inl y ↦ rw y h
    | inr n ↦ rw n h
  ]
  owner_step-Owned (pop_finish b out) ok h = h

  thief_step-Owned : (t : Thief) (o : Owner) → Owned d o → Owned (thief_step d t).0 o
  unfolding thief_step
  thief_step-Owned Thief.idle o h = h
  thief_step-Owned steal_top o h = h
  thief_step-Owned (steal_bot t) o h = elim (Bool-cases (le_i64 d.bot t)) [
    | inl y ↦ rw y h
    | inr n ↦ rw n h
  ]
  thief_step-Owned (steal_array t) o h = h
  thief_step-Owned (steal_get t a) o h = h
  thief_step-Owned (steal_cas t raw) o h = elim (Bool-cases (d.top == t)) [
    | inl y ↦ rw y h
    | inr n ↦ rw n h
  ]

Reach-Owned : {s : System} → Reach s → length s.pushes < max_pushes → Owned s.mem s.owner
unfolding fresh owner_move thief_move
Reach-Owned here small = λ a. ground arith
Reach-Owned (next {s} r st) small =
    let before = pushes-le st in
    go st (Reach-Owned r (omega arith)) (Reach-SystemInv r (omega arith)).owner
  where
    go : {t : System} → Step s t → Owned s.mem s.owner → OwnerOk s.mem s.owner → Owned t.mem t.owner
    go (call_push x e) h ok = subst (Owned s.mem) e h
    go (call_pop e) h ok = subst (Owned s.mem) e h
    go owner_moves h ok = owner_step-Owned s.mem s.owner ok h
    go (call_steal i e) h ok = h
    go (thief_moves i) h ok = thief_step-Owned s.mem (s.thieves i) s.owner h

-- In every reachable state with fewer than 2 ^ 61 pushes in which the owner is in no method: the
-- destructor deletes the tasks that nobody has received, so that each task was received or is
-- deleted as often as it was pushed; and of the arrays that were ever allocated it deletes each
-- once, and nothing else.
pub destroy-frees :
    {s : System}
    → Reach s
    → length s.pushes < max_pushes
    → s.owner ≡ Owner.idle
    → ((x : ℕ) → count x s.takes + count_ptr x (destroy s.mem).tasks ≡ count x s.pushes)
      × ((a : ℕ) → count a (destroy s.mem).arrays ≡ (if ltb a s.mem.next then 1 else 0))
unfolding destroy
destroy-frees {s} r small quiet = (
  λ x. omega (arith, Reach-count x r small, ap (count_ptr x) same),
  subst (Owned s.mem) quiet (Reach-Owned r small),
)
  where
    q : Quiet s
    q = Reach-Quiet r small quiet

    same : drain_from (rounds s.mem.bot s.mem.top) (s.mem.heap s.mem.array) s.mem.top ≡ waiting s
    same =
        ap (λ n. drain_from n (s.mem.heap s.mem.array) s.mem.top)
          (rounds-sub s.mem.bot s.mem.top q.ordered (omega (arith, q.few)))
        ∙ drain_from-window (s.mem.bot - s.mem.top) (s.mem.heap s.mem.array) s.mem.top
            (omega (arith, q.few, q.ordered))
        ∙ sym q.tasks

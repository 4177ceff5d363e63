-- ===== src/Deque/Sequential/Solo.antt =====
-- include/chase_lev_deque.hpp: a method of the owner from its start to its end, without a thief.
use lock_free_work_stealing.Base.{
  ℕ, zero, suc, ◌+◌, ◌≤◌, ◌<◌, ◌≡◌, ◌∙◌, ◌⊎◌, inl, inr, refl, sym, ap, subst, arith, Bool, true,
  false, none, some, List, [], ◌∷◌, ◌++◌, length, if◌then◌else◌, Bool-cases, ◌==◌, lt_i64,
}
use lock_free_work_stealing.Deque.Array.{Ptr}
use lock_free_work_stealing.Deque.Machine.{
  ChaseLevDeque, Owner, push_bot, push_top, push_array, push_grow, push_install, push_put,
  push_publish, pop_bot, pop_array, pop_store, pop_top, pop_restore, pop_get, pop_cas, pop_finish,
  Label, silent, pushed, popped, stole, take_ptr, take_history, push_history, owner_step, is_full,
}
use lock_free_work_stealing.Deque.System.{System, owner_moves, owner_move, Reach, next, max_pushes}
use lock_free_work_stealing.Deque.Refine.{Effect}
use lock_free_work_stealing.Deque.Safety.{waiting, Step-Effect}
use lock_free_work_stealing.Deque.Progress.{owner_rank, owner_step-rank, owner_rank-zero}

-- The owner's next `n` steps, with none of a thief between them.
unfoldable pub solo : ℕ → System → System
solo zero s = s
solo (suc n) s = solo n (owner_move s)

-- The method that the owner is in.
pub data Job : Type 0 where
  rest : Job
  push : ℕ → Job
  pop : Job

abbrev pub job : Owner → Job
job Owner.idle = rest
job (push_bot x) = push x
job (push_top x b) = push x
job (push_array x b t) = push x
job (push_grow x b t a) = push x
job (push_install x b n) = push x
job (push_put x b a) = push x
job (push_publish x b) = push x
job _ = pop

-- The label at the end of a method.
abbrev pub Ends : Job → Label → Type 0
Ends rest l = l ≡ silent
Ends (push x) l = l ≡ pushed x
Ends pop l = (p : Ptr) × (l ≡ popped p)

-- What a method has done when it ends.
abbrev pub Done : Job → System → System → Type 0
Done rest s t = (waiting t ≡ waiting s) × (t.takes ≡ s.takes)
Done (push x) s t = (waiting t ≡ waiting s ++ some x ∷ []) × (t.takes ≡ s.takes)
Done pop s t =
    (p : Ptr) × ((t.takes ≡ take_ptr p s.takes) × Effect (popped p) (waiting s) (waiting t))

abbrev pub Next : Job → Owner → Label → Type 0
Next j o l = ((l ≡ silent) × (job o ≡ j)) ⊎ (Ends j l × (o ≡ Owner.idle))

owner_step-Next :
    (d : ChaseLevDeque) (o : Owner) → Next (job o) (owner_step d o).1 (owner_step d o).2
unfolding owner_step
owner_step-Next d Owner.idle = inl (refl, refl)
owner_step-Next d (push_bot x) = inl (refl, refl)
owner_step-Next d (push_top x b) = inl (refl, refl)
owner_step-Next d (push_array x b t) = inl (refl, chosen (is_full (d.heap d.array) b t))
  where
    chosen : (c : Bool) → job (if c then push_grow x b t d.array else push_put x b d.array) ≡ push x
    chosen true = refl
    chosen false = refl
owner_step-Next d (push_grow x b t a) = inl (refl, refl)
owner_step-Next d (push_install x b n) = inl (refl, refl)
owner_step-Next d (push_put x b a) = inl (refl, refl)
owner_step-Next d (push_publish x b) = inr (refl, refl)
owner_step-Next d pop_bot = inl (refl, refl)
owner_step-Next d (pop_array b) = inl (refl, refl)
owner_step-Next d (pop_store b a) = inl (refl, refl)
owner_step-Next d (pop_top b a) = inl (refl, chosen (lt_i64 b d.top))
  where
    chosen : (c : Bool) → job (if c then pop_restore b else pop_get b a d.top) ≡ pop
    chosen true = refl
    chosen false = refl
owner_step-Next d (pop_restore b) = inr ((none, refl), refl)
owner_step-Next d (pop_get b a t) = elim (Bool-cases (lt_i64 t b)) [
  | inl y ↦ rw y (inr ((_, refl), refl))
  | inr n ↦ rw n (inl (refl, refl))
]
owner_step-Next d (pop_cas b t raw) = elim (Bool-cases (d.top == t)) [
  | inl y ↦ rw y (inl (refl, refl))
  | inr n ↦ rw n (inl (refl, refl))
]
owner_step-Next d (pop_finish b out) = inr ((out, refl), refl)

-- An owner in no method does nothing.
rest_move : (s : System) → s.owner ≡ Owner.idle → owner_move s ≡ s
unfolding owner_move owner_step
rest_move s e = rw e refl

solo-rest : (n : ℕ) (s : System) → s.owner ≡ Owner.idle → solo n s ≡ s
unfolding solo
solo-rest zero s e = refl
solo-rest (suc n) s e = ap (solo n) (rest_move s e) ∙ solo-rest n s e

-- An access that ends nothing leaves the method's work to the rest.
Done-silent :
    (j : Job) (s t u : System) → waiting t ≡ waiting s → t.takes ≡ s.takes → Done j t u → Done j s u
Done-silent rest s t u a b (c, d) = (c ∙ a, d ∙ b)
Done-silent (push x) s t u a b (c, d) = (c ∙ ap (λ l. l ++ some x ∷ []) a, d ∙ b)
Done-silent pop s t u a b (p, (c, d)) =
    (p, (c ∙ ap (take_ptr p) b, subst (λ l. Effect (popped p) l (waiting u)) a d))

Done-Ends :
    (j : Job) (l : Label) (s t : System)
    → Ends j l
    → Effect l (waiting s) (waiting t)
    → t.takes ≡ take_history l s.takes
    → Done j s t
Done-Ends rest l s t e f h =
    (subst (λ m. Effect m (waiting s) (waiting t)) e f, h ∙ ap (λ m. take_history m s.takes) e)
Done-Ends (push x) l s t e f h =
    (subst (λ m. Effect m (waiting s) (waiting t)) e f, h ∙ ap (λ m. take_history m s.takes) e)
Done-Ends pop l s t (p, e) f h =
    (p, (h ∙ ap (λ m. take_history m s.takes) e, subst (λ m. Effect m (waiting s) (waiting t)) e f))

push_history-one : (l : Label) (h : List ℕ) → length (push_history l h) ≤ length h + 1
push_history-one (pushed x) h = omega arith
push_history-one silent h = omega arith
push_history-one (popped p) h = omega arith
push_history-one (stole r) h = omega arith

-- Enough steps end the method, and it has done its work.
pub solo-Done :
    (n : ℕ) (s : System)
    → Reach s
    → length s.pushes < max_pushes
    → owner_rank s.owner ≤ n
    → ((solo n s).owner ≡ Owner.idle)
      × (Reach (solo n s)
          × (Done (job s.owner) s (solo n s) × (length (solo n s).pushes ≤ length s.pushes + 1)))
unfolding solo owner_move
solo-Done zero s r small le =
    let e = owner_rank-zero s.owner le in
    (e, (r, (subst (λ j. Done j s s) (sym (ap job e)) (refl, refl), omega arith)))
solo-Done (suc n) s r small le = elim (owner_step-Next s.mem s.owner) [
  | inl h ↦
      let (a, (b, (c, d))) =
        solo-Done n t reach (omega (arith, ap length (same_pushes (h.0)))) lower in
      (
        a,
        (
          b,
          (
            Done-silent (job s.owner) s t (solo n t)
                (subst (λ l. Effect l (waiting s) (waiting t)) (h.0) effect)
                (took ∙ ap (λ l. take_history l s.takes) (h.0))
                (subst (λ j. Done j t (solo n t)) (h.1) c),
            omega (arith, d, ap length (same_pushes (h.0))),
          ),
        ),
      )
  | inr h ↦ rw (solo-rest n t (h.1)) (
    h.1,
    (reach, (Done-Ends (job s.owner) (owner_step s.mem s.owner).2 s t (h.0) effect took, one_push)),
  )
]
  where
    t : System
    t = owner_move s

    reach : Reach t
    reach = next r owner_moves

    effect : Effect (owner_step s.mem s.owner).2 (waiting s) (waiting t)
    effect = Step-Effect r owner_moves small

    took : t.takes ≡ take_history (owner_step s.mem s.owner).2 s.takes
    took = refl

    same_pushes : (owner_step s.mem s.owner).2 ≡ silent → t.pushes ≡ s.pushes
    same_pushes e = ap (λ l. push_history l s.pushes) e

    one_push : length t.pushes ≤ length s.pushes + 1
    one_push = push_history-one (owner_step s.mem s.owner).2 s.pushes

    lower : owner_rank t.owner ≤ n
    lower = omega (arith, owner_step-rank s.mem s.owner)

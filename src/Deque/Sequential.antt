-- ===== src/Deque/Sequential.antt =====
-- include/chase_lev_deque.hpp: push_bottom and pop_bottom, one after the other, without a thief.
pub mod Solo
use lock_free_work_stealing.Base.{
  pop_back-append, last_or, front_or, ℕ, zero, suc, ◌+◌, ◌≤◌, ◌<◌, ◌≡◌, ◌≢◌, ◌∙◌, ◌⊎◌, inl, inr,
  refl, sym, ap, subst, arith, Bool, true, false, none, some, List, [], ◌∷◌, ◌++◌, length,
  if◌then◌else◌, Bool-cases, Option, pop_back, put_front, ◌==◌, lt_i64,
}
use lock_free_work_stealing.Deque.Array.{Ptr}
use lock_free_work_stealing.Deque.Machine.{
  ChaseLevDeque, Owner, push_bot, push_top, push_array, push_grow, push_install, push_put,
  push_publish, pop_bot, pop_array, pop_store, pop_top, pop_restore, pop_get, pop_cas, pop_finish,
  Label, silent, pushed, popped, stole, take_ptr, take_history, push_history, owner_step, is_full,
}
use lock_free_work_stealing.Deque.System.{
  System, call_push, call_pop, owner_moves, owner_move, Reach, next, max_pushes,
}
use lock_free_work_stealing.Deque.Refine.{Effect}
use lock_free_work_stealing.Deque.Safety.{waiting, Step-Effect}
use lock_free_work_stealing.Deque.Progress.{owner_rank, owner_step-rank, owner_rank-zero}
use lock_free_work_stealing.Deque.Sequential.Solo.{solo, Job, push, pop, rest, job, Done, solo-Done}

module _ (xs ys : List Ptr) (x y : Ptr) where
  unfold_last :
      xs ++ x ∷ [] ≡ ys ++ y ∷ [] → ◌≡◌ {A = Option (List Ptr × Ptr)} (some (xs, x)) (some (ys, y))
  unfold_last e = sym (pop_back-append xs x) ∙ ap pop_back e ∙ pop_back-append ys y

  last-eq : xs ++ x ∷ [] ≡ ys ++ y ∷ [] → (x ≡ y) × (xs ≡ ys)
  last-eq e = (ap (last_or none) (unfold_last e), ap (front_or []) (unfold_last e))

nonempty : (xs : List Ptr) (x : Ptr) → xs ++ x ∷ [] ≢ []
nonempty [] x e = absurd (let n = ap length e in omega arith)
nonempty (y ∷ ys) x e = absurd (let n = ap length e in omega arith)

pop-newest :
    (p : Ptr) (x : ℕ) (before after : List Ptr) (takes : List ℕ)
    → Effect (popped p) (before ++ some x ∷ []) after
    → (take_ptr p takes ≡ x ∷ takes) × (after ≡ before)
pop-newest none x before after takes e = absurd (nonempty before (some x) (e.0))
pop-newest (some y) x before after takes e =
    let (a, b) = last-eq before after (some x) (some y) e in
    (ap (λ k. k ∷ takes) (let c : y ≡ x = ground (arith, a) in c), sym b)

-- `push_bottom` starts where the owner is in no method, and so does `pop_bottom`.
abbrev pub call_push_bottom : System → ℕ → System
call_push_bottom s x = record s { owner = push_bot x }

abbrev pub call_pop_bottom : System → System
call_pop_bottom s = record s { owner = pop_bot }

-- In every reachable state with fewer than 2 ^ 61 - 1 pushes in which the owner is in no method:
-- after a `push_bottom` and then a `pop_bottom` that no thief interrupts, each in seven steps, of
-- which the loop of `grow` is one, the owner is in no method, it has received the task that it
-- pushed, and the tasks that wait are those from before.
pub push-pop :
    {s : System} (x : ℕ)
    → Reach s
    → length s.pushes + 1 < max_pushes
    → s.owner ≡ Owner.idle
    → let t = solo 7 (call_pop_bottom (solo 7 (call_push_bottom s x))) in
      (t.owner ≡ Owner.idle) × ((t.takes ≡ x ∷ s.takes) × (waiting t ≡ waiting s))
push-pop {s} x r small e =
    let (p, (took, effect)) = b.1.1.0 in
    let (out, left) =
      pop-newest p x (waiting s) (waiting second) first.takes
        (subst (λ l. Effect (popped p) l (waiting second)) pushed_one effect) in
    (b.0, (took ∙ out ∙ ap (λ h. x ∷ h) (a.1.1.0.1), left))
  where
    first : System
    first = solo 7 (call_push_bottom s x)

    a :
        (first.owner ≡ Owner.idle)
        × (Reach first
            × (Done (push x) (call_push_bottom s x) first
                × (length first.pushes ≤ length s.pushes + 1)))
    a = solo-Done 7 (call_push_bottom s x) (next r (call_push x e)) (omega arith) (omega arith)

    second : System
    second = solo 7 (call_pop_bottom first)

    b :
        (second.owner ≡ Owner.idle)
        × (Reach second
            × (Done pop (call_pop_bottom first) second
                × (length second.pushes ≤ length first.pushes + 1)))
    b =
        solo-Done 7 (call_pop_bottom first) (next (a.1.0) (call_pop (a.0)))
          (let c = a.1.1.1 in omega arith) (omega arith)

    pushed_one : waiting (call_pop_bottom first) ≡ waiting s ++ some x ∷ []
    pushed_one =
        Step-Effect (a.1.0) (call_pop (a.0)) (let c = a.1.1.1 in omega arith)
        ∙ a.1.1.0.0
        ∙ ap (λ l. l ++ some x ∷ []) (Step-Effect r (call_push x e) (omega arith))

-- ===== src/WorkStealing/Deques/Replay.antt =====
-- include/chase_lev_deque.hpp: the list of tasks of a deque, from the methods that have ended.
use lock_free_work_stealing.Base.{
  pop_back-append, last_or, front_or, ℕ, ◌<◌, ◌≡◌, ◌∙◌, refl, sym, ap, subst, arith, Option, none,
  some, List, [], ◌∷◌, ◌++◌, length, pop_back, put_front,
}
use lock_free_work_stealing.Deque.Array.{Ptr}
use lock_free_work_stealing.Deque.Machine.{fresh, Label, silent, pushed, popped, stole}
use lock_free_work_stealing.Deque.System.{System, Step, Reach, here, next, max_pushes, pushes-le}
use lock_free_work_stealing.Deque.Refine.{Effect, Stolen}
use lock_free_work_stealing.Deque.Safety.{waiting, label, Step-Effect}

abbrev front_of : List ℕ → Option (List ℕ × ℕ) → List ℕ
front_of xs none = xs
front_of xs (some (ys, y)) = ys

abbrev rest_of : Ptr → List ℕ → List ℕ
rest_of none xs = xs
rest_of (some x) [] = []
rest_of (some x) (y ∷ ys) = ys

-- A list of tasks, the oldest first, after the end of an operation.
abbrev pub apply_label : Label → List ℕ → List ℕ
apply_label silent xs = xs
apply_label (pushed x) xs = xs ++ x ∷ []
apply_label (popped none) xs = xs
apply_label (popped (some y)) xs = front_of xs (pop_back xs)
apply_label (stole r) xs = rest_of r.task xs

-- A thief takes the front, or nothing.
abbrev pub Thieves : Ptr → List ℕ → List ℕ → Type 0
Thieves none xs ys = ys ≡ xs
Thieves (some x) xs ys = xs ≡ x ∷ ys

-- What the operations do to a list of tasks.
abbrev pub Changes : Label → List ℕ → List ℕ → Type 0
Changes silent xs ys = ys ≡ xs
Changes (pushed x) xs ys = ys ≡ xs ++ x ∷ []
Changes (popped none) xs ys = (pop_back xs ≡ none) × (ys ≡ xs)
Changes (popped (some y)) xs ys = pop_back xs ≡ some (ys, y)
Changes (stole r) xs ys = Thieves r.task xs ys

abbrev pub ptrs : List ℕ → List Ptr
ptrs [] = []
ptrs (x ∷ xs) = some x ∷ ptrs xs

ptrs-append : (xs ys : List ℕ) → ptrs (xs ++ ys) ≡ ptrs xs ++ ptrs ys
ptrs-append [] ys = refl
ptrs-append (x ∷ xs) ys = ap (λ l. some x ∷ l) (ptrs-append xs ys)

abbrev ptrs_pair : Option (List ℕ × ℕ) → Option (List Ptr × Ptr)
ptrs_pair none = none
ptrs_pair (some (ys, y)) = some (ptrs ys, some y)

ptrs_pair-front :
    (x : ℕ) (o : Option (List ℕ × ℕ)) → put_front (some x) (ptrs_pair o) ≡ ptrs_pair (put_front x o)
ptrs_pair-front x none = refl
ptrs_pair-front x (some (ys, y)) = refl

pop_back-ptrs : (xs : List ℕ) → pop_back (ptrs xs) ≡ ptrs_pair (pop_back xs)
unfolding pop_back
pop_back-ptrs [] = refl
pop_back-ptrs (x ∷ xs) =
    ap (put_front (some x)) (pop_back-ptrs xs) ∙ ptrs_pair-front x (pop_back xs)

-- What an effect on the pointers that wait is on the tasks.
abbrev pub Replays : Label → List ℕ → List Ptr → Type 0
Replays l xs after = (after ≡ ptrs (apply_label l xs)) × Changes l xs (apply_label l xs)

abbrev value_or : ℕ → Ptr → ℕ
value_or y none = y
value_or y (some z) = z

abbrev tail_of : List Ptr → List Ptr
tail_of [] = []
tail_of (p ∷ ps) = ps

abbrev head_of : List Ptr → ℕ
head_of [] = 0
head_of (p ∷ ps) = value_or 0 p

popped-Replays :
    (y : ℕ) (xs : List ℕ) (after : List Ptr) (o : Option (List ℕ × ℕ))
    → some (after, some y) ≡ ptrs_pair o
    → (after ≡ ptrs (front_of xs o)) × (o ≡ some (front_of xs o, y))
popped-Replays y xs after none e = cc
popped-Replays y xs after (some (ys, z)) e = (
  ap (front_or []) e,
  ap (λ z. some (ys, z)) (ap (λ p. value_or y p) (sym (ap (last_or none) e))),
)

stole-Replays :
    (p : Ptr) (xs : List ℕ) (after : List Ptr)
    → Stolen p (ptrs xs) after
    → (after ≡ ptrs (rest_of p xs)) × Thieves p xs (rest_of p xs)
stole-Replays none xs after e = (e, refl)
stole-Replays (some x) [] after e = cc
stole-Replays (some x) (y ∷ xs) after e = (sym (ap tail_of e), rw (ap head_of e) refl)

Effect-Replays :
    (l : Label) (xs : List ℕ) (after : List Ptr) → Effect l (ptrs xs) after → Replays l xs after
unfolding pop_back
Effect-Replays silent xs after e = (e, refl)
Effect-Replays (pushed x) xs after e = (e ∙ sym (ptrs-append xs (x ∷ [])), refl)
Effect-Replays (popped none) [] after e = (e.1, (refl, refl))
Effect-Replays (popped none) (x ∷ xs) after e = cc
Effect-Replays (popped (some y)) xs after e =
    popped-Replays y xs after (pop_back xs)
      (sym (pop_back-append after (some y)) ∙ ap pop_back (sym e) ∙ pop_back-ptrs xs)
Effect-Replays (stole r) xs after e = stole-Replays r.task xs after e.0

-- The tasks after the labels of a run, one after the other.
abbrev pub replay : {s : System} → Reach s → List ℕ
replay here = []
replay (next r st) = apply_label (label st) (replay r)

-- A step, where the list before it is known.
pub after_step :
    {s t : System} (r : Reach s) (st : Step s t)
    → length s.pushes < max_pushes
    → waiting s ≡ ptrs (replay r)
    → Replays (label st) (replay r) (waiting t)
after_step {t = t} r st small e =
    Effect-Replays (label st) (replay r) (waiting t)
      (subst (λ ps. Effect (label st) ps (waiting t)) e (Step-Effect r st small))

pub Reach-replay :
    {s : System} (r : Reach s) → length s.pushes < max_pushes → waiting s ≡ ptrs (replay r)
unfolding fresh
Reach-replay here small = refl
Reach-replay (next {s} {t} r st) small =
    let before = pushes-le st in (after_step r st (omega arith) (Reach-replay r (omega arith))).0

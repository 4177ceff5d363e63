-- ===== src/Deque/Safety.antt =====
-- include/chase_lev_deque.hpp: what holds of a deque in every state that its threads can reach.
use lock_free_work_stealing.Base.{
  ℕ, suc, ◌+◌, ◌≤◌, ◌<◌, ◌≡◌, refl, sym, ◌∙◌, ap, subst, arith, true, none, some, List, [], ◌∷◌,
  ◌++◌, length, count, ◌==◌, if◌then◌else◌, leb, le_i64, le_i64-small, ◌-◌, ◌^◌, lt_i64, sub64,
}
use lock_free_work_stealing.Deque.Array.{Ptr}
use lock_free_work_stealing.Deque.Machine.{
  ChaseLevDeque, fresh, steal_bot, steal_cas, Owner, Thief, Label, silent, pushed, popped, stole,
  push_history, take_history, take_ptr, owner_step, thief_step, empty, size,
}
use lock_free_work_stealing.Deque.Invariant.{window, contents, Inv}
use lock_free_work_stealing.Deque.System.{
  System, Step, call_push, call_pop, owner_moves, call_steal, thief_moves, owner_move, thief_move,
  Reach, here, next, max_pushes, pushes-le, Reach-SystemInv,
}
use lock_free_work_stealing.Deque.Refine.{Effect, Stolen}
use lock_free_work_stealing.Deque.Refine.OwnerSide.{owner_step-Effect}
use lock_free_work_stealing.Deque.Refine.ThiefSide.{thief_step-Effect}
use lock_free_work_stealing.Deque.Refine.Window.{window-empty, length-window}

-- What a step ends.
abbrev pub label : {s t : System} → Step s t → Label
label {s} owner_moves = (owner_step s.mem s.owner).2
label {s} (thief_moves i) = (thief_step s.mem (s.thieves i)).2
label _ = silent

-- The tasks of a system that nobody has received.
abbrev pub waiting : System → List Ptr
waiting s = contents s.mem s.owner

-- In every reachable state with fewer than 2 ^ 61 pushes, and whatever the interleaving, each step
-- does to the waiting tasks what the contract says: a finished push adds its task as the newest, a
-- pop that returns a task removes the newest and one that returns nullptr found none, a steal that
-- returns a task removes the oldest, a steal that reports emptiness found one task at most, and
-- every other step leaves the waiting tasks as they are.
pub Step-Effect :
    {s t : System} (r : Reach s) (st : Step s t)
    → length s.pushes < max_pushes
    → Effect (label st) (waiting s) (waiting t)
unfolding owner_move thief_move
Step-Effect {s} r (call_push x e) small = sym (ap (contents s.mem) e)
Step-Effect {s} r (call_pop e) small = sym (ap (contents s.mem) e)
Step-Effect {s} r owner_moves small = owner_step-Effect small s.owner (Reach-SystemInv r small)
Step-Effect r (call_steal i e) small = refl
Step-Effect {s} r (thief_moves i) small =
    let v = Reach-SystemInv r small in
    thief_step-Effect small s.owner (s.thieves i) v (v.thieves_ok i)

-- How often a task waits.
abbrev pub count_ptr : ℕ → List Ptr → ℕ
count_ptr x [] = 0
count_ptr x (none ∷ ps) = count_ptr x ps
count_ptr x (some y ∷ ps) = if y == x then suc (count_ptr x ps) else count_ptr x ps

count_ptr-append :
    (x : ℕ) (ps qs : List Ptr) → count_ptr x (ps ++ qs) ≡ count_ptr x ps + count_ptr x qs
count_ptr-append x [] qs = omega arith
count_ptr-append x (none ∷ ps) qs = count_ptr-append x ps qs
count_ptr-append x (some y ∷ ps) qs = ground (arith, count_ptr-append x ps qs)

-- A theft moves a task from the deque to what was taken.
Stolen-count :
    (p : Ptr) (x : ℕ) (before after : List Ptr) (takes : List ℕ)
    → Stolen p before after
    → count x (take_ptr p takes) + count_ptr x after ≡ count x takes + count_ptr x before
Stolen-count none x before after takes e = ap (λ l. count x takes + count_ptr x l) e
Stolen-count (some y) x before after takes e = rw e (ground arith)

-- An effect moves tasks between the histories and the deque, and neither makes nor loses one.
Effect-count :
    (l : Label) (x : ℕ) (before after : List Ptr) (pushes takes : List ℕ)
    → Effect l before after
    → count x takes + count_ptr x before ≡ count x pushes
    → count x (take_history l takes) + count_ptr x after ≡ count x (push_history l pushes)
Effect-count silent x before after pushes takes e h = rw e h
Effect-count (pushed y) x before after pushes takes e h =
    rw e (ground (arith, h, count_ptr-append x before (some y ∷ [])))
Effect-count (popped none) x before after pushes takes e h =
    omega (arith, h, ap (count_ptr x) e.0, ap (count_ptr x) e.1)
Effect-count (popped (some y)) x before after pushes takes e h =
    ground (arith, h, ap (count_ptr x) e, count_ptr-append x after (some y ∷ []))
Effect-count (stole r) x before after pushes takes e h =
    Stolen-count r.task x before after takes e.0 ∙ h

-- A thief pushes nothing.
push_history-thief :
    (d : ChaseLevDeque) (t : Thief) (h : List ℕ) → push_history (thief_step d t).2 h ≡ h
unfolding thief_step
push_history-thief d (steal_bot t) h = ground arith
push_history-thief d (steal_cas t raw) h = ground arith
push_history-thief d t h = refl

-- The histories after a step are those that its label says.
Step-histories :
    {s t : System} (st : Step s t)
    → (t.pushes ≡ push_history (label st) s.pushes) × (t.takes ≡ take_history (label st) s.takes)
unfolding owner_move thief_move
Step-histories (call_push x e) = (refl, refl)
Step-histories (call_pop e) = (refl, refl)
Step-histories owner_moves = (refl, refl)
Step-histories (call_steal i e) = (refl, refl)
Step-histories {s} (thief_moves i) = (sym (push_history-thief s.mem (s.thieves i) s.pushes), refl)

-- No task is lost or made up: in every reachable state with fewer than 2 ^ 61 pushes, and for every
-- task, the times that it was taken and the times that it waits add up to the times that it was
-- pushed.
pub Reach-count :
    {s : System} (x : ℕ)
    → Reach s
    → length s.pushes < max_pushes
    → count x s.takes + count_ptr x (waiting s) ≡ count x s.pushes
unfolding fresh
Reach-count x here small = refl
Reach-count x (next {s} {t} r st) small =
    let before = pushes-le st in
    let (p, q) = Step-histories st in
    rw (p, q)
      (Effect-count (label st) x (waiting s) (waiting t) s.pushes s.takes
        (Step-Effect r st (omega arith)) (Reach-count x r (omega arith)))

-- What the invariant and the waiting tasks are while the owner is in no method.
pub record Quiet (s : System) : Type 0 where
  pub ordered : s.mem.top ≤ s.mem.bot
  pub few : s.mem.bot ≤ length s.pushes
  pub tasks : waiting s ≡ window (s.mem.heap s.mem.array) s.mem.top (s.mem.bot - s.mem.top)

pub Reach-Quiet :
    {s : System} → Reach s → length s.pushes < max_pushes → s.owner ≡ Owner.idle → Quiet s
Reach-Quiet {s} r small quiet = record {
  ordered = v.top-le;
  few = v.few;
  tasks = ap (contents s.mem) quiet;
}
  where
    v : Inv (length s.pushes) s.mem Owner.idle s.thieves
    v = subst (λ o. Inv (length s.pushes) s.mem o s.thieves) quiet (Reach-SystemInv r small)

-- At a moment when the owner is in no method and `empty()` is true, every task has been taken as
-- often as it was pushed, in every reachable state with fewer than 2 ^ 61 pushes.
pub empty-all_taken :
    {s : System} (x : ℕ)
    → Reach s
    → length s.pushes < max_pushes
    → s.owner ≡ Owner.idle
    → empty s.mem ≡ true
    → count x s.takes ≡ count x s.pushes
unfolding empty
empty-all_taken {s} x r small quiet none_left =
    let q = Reach-Quiet r small quiet in
    let same : le_i64 s.mem.bot s.mem.top ≡ leb s.mem.bot s.mem.top =
      le_i64-small s.mem.bot s.mem.top (omega (arith, q.few)) (omega (arith, q.few, q.ordered)) in
    let done : s.mem.bot ≤ s.mem.top = ground (arith, same) in
    let nothing : waiting s ≡ [] = q.tasks ∙ window-empty _ s.mem.top s.mem.bot done in
    omega (arith, Reach-count x r small, ap (count_ptr x) nothing)

signed_difference :
    (b t : ℕ) → t ≤ b → b < 2 ^ 61 → (if lt_i64 0 (sub64 b t) then sub64 b t else 0) ≡ b - t
unfolding lt_i64 sub64
signed_difference b t p q = ground arith

-- At a moment when the owner is in no method, `size()` is the number of tasks that wait, in every
-- reachable state with fewer than 2 ^ 61 pushes.
size-eq-length :
    {s : System}
    → Reach s
    → length s.pushes < max_pushes
    → s.owner ≡ Owner.idle
    → size s.mem ≡ length (waiting s)
unfolding size
size-eq-length {s} r small quiet =
    let q = Reach-Quiet r small quiet in
    signed_difference s.mem.bot s.mem.top q.ordered (omega (arith, q.few))
    ∙ sym (ap length q.tasks ∙ length-window _ s.mem.top (s.mem.bot - s.mem.top))

-- ===== src/Deque/Progress/Races.antt =====
-- include/chase_lev_deque.hpp: a steal that loses its race loses it to a thread that takes a task.
use lock_free_work_stealing.Base.{
  ◌⊎◌, ℕ_discrete, ◌≢◌, le_i64, lt_i64, sym, ap, true, ℕ, ◌<◌, ◌≡◌, refl, ◌∙◌, subst, arith, false,
  none, length, ◌==◌, Bool-cases, inl, inr, some,
}
use lock_free_work_stealing.Deque.Machine.{
  ChaseLevDeque, Owner, pop_get, pop_cas, pop_finish, Thief, steal_bot, steal_cas, stole,
  owner_step, thief_step,
}
use lock_free_work_stealing.Deque.Array.{Ptr}
use lock_free_work_stealing.Deque.Invariant.{limit, item, ThiefOk, Inv}
use lock_free_work_stealing.Deque.System.{
  System, Step, call_push, call_pop, owner_moves, call_steal, thief_moves, owner_move, thief_move,
  next, pushes-le, Reach, max_pushes, Reach-SystemInv,
}

task_returned :
    (p : Ptr) (x : ℕ)
    → stole (record { task = p; empty = false }) ≡ stole (record { task = none; empty = false })
    → p ≡ some x
    → ⊥
task_returned none x e f = cc
task_returned (some y) x e f = cc

-- If the compare-exchange of a thief fails, `top_` has risen above the index that the thief read.
lost_race-top :
    {s : System} (i t : ℕ) (raw : Ptr)
    → Reach s
    → length s.pushes < max_pushes
    → s.thieves i ≡ steal_cas t raw
    → (thief_step s.mem (s.thieves i)).2 ≡ stole (record { task = none; empty = false })
    → t < s.mem.top
unfolding thief_step
lost_race-top {s} i t raw r small here lost = elim (Bool-cases (s.mem.top == t)) [
  | inl e ↦
      let same : t ≡ s.mem.top = ground arith in
      let (x, live) = v.live s.mem.top (omega arith) (omega (arith, h.1 same, v.limit-le)) in
      let failed = rw here at lost in
      let won = rw e at failed in absurd (task_returned raw x won (h.2 same ∙ live))
  | inr e ↦ ground (arith, h.0)
]
  where
    v : Inv (length s.pushes) s.mem s.owner s.thieves
    v = Reach-SystemInv r small

    h : ThiefOk s.mem (limit s.mem s.owner) (steal_cas t raw)
    h = subst (ThiefOk s.mem (limit s.mem s.owner)) here (v.thieves_ok i)

-- A step that raises `top_` gives a task to the thread that makes it: a thief returns it, and the
-- owner holds it until its last store.
abbrev pub Hands : {u v : System} → Step u v → Type 0
Hands {u} {v} owner_moves = (b x : ℕ) × (v.owner ≡ pop_finish b (some x))
Hands {u} (thief_moves i) =
    (x : ℕ) × ((thief_step u.mem (u.thieves i)).2 ≡ stole (record { task = some x; empty = false }))
Hands _ = ⊥

pop_cas-wins :
    (d : ChaseLevDeque) (b t x : ℕ) (raw : Ptr)
    → (d.top == t) ≡ true
    → raw ≡ some x
    → (owner_step d (pop_cas b t raw)).1 ≡ pop_finish b (some x)
unfolding owner_step
pop_cas-wins d b t x raw e f = rw e (ap (pop_finish b) f)

steal_cas-wins :
    (d : ChaseLevDeque) (t x : ℕ) (raw : Ptr)
    → (d.top == t) ≡ true
    → raw ≡ some x
    → (thief_step d (steal_cas t raw)).2 ≡ stole (record { task = some x; empty = false })
unfolding thief_step
steal_cas-wins d t x raw e f = rw e (ap (λ p. stole (record { task = p; empty = false })) f)

owner_step-Hands :
    {n : ℕ} {d : ChaseLevDeque} {thieves : ℕ → Thief} (o : Owner)
    → Inv n d o thieves
    → n < max_pushes
    → (owner_step d o).0.top ≢ d.top
    → (b x : ℕ) × ((owner_step d o).1 ≡ pop_finish b (some x))
unfolding owner_step
owner_step-Hands {d = d} (pop_cas b t raw) v small moved = elim (Bool-cases (d.top == t)) [
  | inl e ↦
      let at : d.top ≡ t = ground (arith, e) in
      let (low, last, up, read, top) = v.owner in
      let (x, live) = v.live d.top (omega arith) (omega (arith, at, last, top)) in
      (b, x, pop_cas-wins d b t x raw e (read ∙ ap (item d) (sym last ∙ sym at) ∙ live))
  | inr n ↦ absurd (moved (rw n refl))
]
owner_step-Hands {d = d} (pop_get b a t) v small moved =
    absurd (moved (elim (Bool-cases (lt_i64 t b)) [ inl y ↦ rw y refl | inr n ↦ rw n refl ]))
owner_step-Hands o v small moved = absurd (moved refl)

thief_step-Hands :
    {n : ℕ} {d : ChaseLevDeque} {o : Owner} {thieves : ℕ → Thief} (t : Thief)
    → Inv n d o thieves
    → ThiefOk d (limit d o) t
    → (thief_step d t).0.top ≢ d.top
    → (x : ℕ) × ((thief_step d t).2 ≡ stole (record { task = some x; empty = false }))
unfolding thief_step
thief_step-Hands {d = d} (steal_cas t raw) v h moved = elim (Bool-cases (d.top == t)) [
  | inl e ↦
      let at : t ≡ d.top = ground (arith, e) in
      let (x, live) = v.live d.top (omega arith) (omega (arith, h.1 at, v.limit-le)) in
      (x, steal_cas-wins d t x raw e (h.2 at ∙ live))
  | inr n ↦ absurd (moved (rw n refl))
]
thief_step-Hands {d = d} (steal_bot t) v h moved =
    absurd (moved (elim (Bool-cases (le_i64 d.bot t)) [ inl y ↦ rw y refl | inr n ↦ rw n refl ]))
thief_step-Hands t v h moved = absurd (moved refl)

Step-Hands :
    {u v : System} (r : Reach u) (st : Step u v)
    → length u.pushes < max_pushes
    → v.mem.top ≢ u.mem.top
    → Hands st
unfolding owner_move thief_move
Step-Hands r (call_push x e) small moved = absurd (moved refl)
Step-Hands r (call_pop e) small moved = absurd (moved refl)
Step-Hands {u} r owner_moves small moved =
    owner_step-Hands u.owner (Reach-SystemInv r small) small moved
Step-Hands r (call_steal i e) small moved = absurd (moved refl)
Step-Hands {u} r (thief_moves i) small moved =
    let v = Reach-SystemInv r small in thief_step-Hands (u.thieves i) v (v.thieves_ok i) moved

-- A run that goes on from a state.
pub data Later (s : System) : System → Type 0 where
  same : Later s s
  later : {t u : System} → Later s t → Step t u → Later s u

extend : {s t : System} → Reach s → Later s t → Reach t
extend r same = r
extend r (later l st) = next (extend r l) st

-- A step of the run gave a task to the thread that made it.
abbrev pub Took : {s t : System} → Later s t → Type 0
Took same = ⊥
Took (later l st) = Took l ⊎ Hands st

Later-Took :
    {s t : System} (r : Reach s) (l : Later s t)
    → length t.pushes < max_pushes
    → t.mem.top ≢ s.mem.top
    → Took l
Later-Took r same small moved = absurd (moved refl)
Later-Took r (later {t} {u} l st) small moved =
    let fewer = pushes-le st in
    elim (ℕ_discrete u.mem.top t.mem.top) [
      | yes e ↦ inl (Later-Took r l (omega arith) (λ f. moved (e ∙ f)))
      | no ne ↦ inr (Step-Hands (extend r l) st (omega arith) ne)
    ]

-- A steal that loses its race loses it to a thread that takes a task: in every run with fewer than
-- 2 ^ 61 pushes, if the compare-exchange of a thief fails, `top_` has risen above the index that
-- the thief read, and since every state `s` at which `top_` was that index, as when the thief read
-- it, there was a step with which another steal returned a task, or with which the owner won the
-- last task, which it holds to return it.
pub lost_race-Took :
    {s u : System} (i : ℕ) (raw : Ptr) (r : Reach s) (l : Later s u)
    → length u.pushes < max_pushes
    → u.thieves i ≡ steal_cas s.mem.top raw
    → (thief_step u.mem (u.thieves i)).2 ≡ stole (record { task = none; empty = false })
    → (s.mem.top < u.mem.top) × Took l
lost_race-Took {s} {u} i raw r l small at lost =
    let risen = lost_race-top i s.mem.top raw (extend r l) small at lost in
    (risen, Later-Took r l small (λ e. absurd (omega (arith, e))))

-- ===== src/Deque/System.antt =====
-- include/chase_lev_deque.hpp: one owner and any number of thieves over one deque, interleaved in
-- any order, with what went in and what came out.
use lock_free_work_stealing.Base.{
  ℕ, ◌^◌, ◌≤◌, ◌<◌, ◌≡◌, refl, subst, arith, List, [], length, update,
}
use lock_free_work_stealing.Deque.Machine.{
  ChaseLevDeque, fresh, Owner, push_bot, pop_bot, Thief, steal_top, Label, push_history,
  take_history, owner_step, thief_step,
}
use lock_free_work_stealing.Deque.Invariant.{Inv}
use lock_free_work_stealing.Deque.Invariant.Steps.{Inv-init, owner_step-Inv}
use lock_free_work_stealing.Deque.Invariant.Stealing.{stay, thief_step-Inv}
use lock_free_work_stealing.Deque.Invariant.Change.{go_on}

-- The histories are newest first.
pub record System : Type 0 where
  pub mem : ChaseLevDeque
  pub owner : Owner
  pub thieves : ℕ → Thief
  pub pushes : List ℕ
  pub takes : List ℕ

abbrev pub start : System
start = record {
  mem = fresh;
  owner = Owner.idle;
  thieves = λ _. Thief.idle;
  pushes = [];
  takes = [];
}

-- The owner makes its next access.
unfoldable pub owner_move : System → System
owner_move s =
    let (d, o, l) = owner_step s.mem s.owner in
    record s {
      mem = d;
      owner = o;
      pushes = push_history l s.pushes;
      takes = take_history l s.takes;
    }

-- Thief `i` makes its next access.
unfoldable pub thief_move : ℕ → System → System
thief_move i s =
    let (d, t, l) = thief_step s.mem (s.thieves i) in
    record s { mem = d; thieves = update s.thieves i t; takes = take_history l s.takes }

-- What may happen next: a method is called by a thread that is in none, or one access is made.
pub data Step (s : System) : System → Type 0 where
  call_push : (x : ℕ) → s.owner ≡ Owner.idle → Step s (record s { owner = push_bot x })
  call_pop : s.owner ≡ Owner.idle → Step s (record s { owner = pop_bot })
  owner_moves : Step s (owner_move s)
  call_steal :
      (i : ℕ)
      → s.thieves i ≡ Thief.idle
      → Step s (record s { thieves = update s.thieves i steal_top })
  thief_moves : (i : ℕ) → Step s (thief_move i s)

pub data Reach : System → Type 0 where
  here : Reach start
  next : {s t : System} → Reach s → Step s t → Reach t

-- The invariant of a whole system.
abbrev pub SystemInv : System → Type 0
SystemInv s = Inv (length s.pushes) s.mem s.owner s.thieves

-- More pushes than a program makes; below it no index or capacity leaves the range of `int64_t`.
abbrev pub max_pushes : ℕ
max_pushes = 2 ^ 61

push_history-le : (l : Label) (h : List ℕ) → length h ≤ length (push_history l h)
push_history-le (Label.pushed x) h = omega arith
push_history-le _ h = omega arith

pub pushes-le : {s t : System} → Step s t → length s.pushes ≤ length t.pushes
unfolding owner_move thief_move
pushes-le (call_push x e) = omega arith
pushes-le (call_pop e) = omega arith
pushes-le {s} owner_moves = push_history-le (owner_step s.mem s.owner).2 s.pushes
pushes-le (call_steal i e) = omega arith
pushes-le (thief_moves i) = omega arith

-- Every call and every access keeps the invariant.
pub Step-SystemInv :
    {s t : System} → Step s t → length s.pushes < max_pushes → SystemInv s → SystemInv t
unfolding owner_move thief_move
Step-SystemInv {s} (call_push x e) small v =
    go_on (subst (λ o. Inv (length s.pushes) s.mem o s.thieves) e v) (push_bot x) refl refl tt
Step-SystemInv {s} (call_pop e) small v =
    go_on (subst (λ o. Inv (length s.pushes) s.mem o s.thieves) e v) pop_bot refl refl tt
Step-SystemInv owner_moves small v = owner_step-Inv _ small _ v
Step-SystemInv (call_steal i e) small v = stay v i steal_top tt
Step-SystemInv (thief_moves i) small v = thief_step-Inv v i _ small (v.thieves_ok i)

pub Reach-SystemInv : {s : System} → Reach s → length s.pushes < max_pushes → SystemInv s
Reach-SystemInv here small = Inv-init
Reach-SystemInv (next r st) small =
    Step-SystemInv st (omega (arith, pushes-le st))
      (Reach-SystemInv r (omega (arith, pushes-le st)))

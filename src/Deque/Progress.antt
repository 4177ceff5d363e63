-- ===== src/Deque/Progress.antt =====
-- include/chase_lev_deque.hpp: no method of the deque waits for another thread.
pub mod Accesses
pub mod Races
use lock_free_work_stealing.Base.{
  ℕ, ◌-◌, ◌≤◌, ◌<◌, ◌≡◌, refl, ◌∙◌, subst, arith, false, none, List, [], ◌∷◌, length, ◌==◌,
  Bool-cases, inl, inr, some,
}
use lock_free_work_stealing.Deque.Machine.{
  ChaseLevDeque, Owner, push_bot, push_top, push_array, push_grow, push_install, push_put,
  push_publish, pop_bot, pop_array, pop_store, pop_top, pop_restore, pop_get, pop_cas, pop_finish,
  Thief, steal_top, steal_bot, steal_array, steal_get, steal_cas, stole, owner_step, thief_step,
}
use lock_free_work_stealing.Deque.Array.{Ptr}
use lock_free_work_stealing.Deque.Invariant.{limit, ThiefOk, Inv}
use lock_free_work_stealing.Deque.System.{System, Reach, max_pushes, Reach-SystemInv}

-- How many steps the owner's method still makes at most; the loop of `grow` is one of them.
abbrev pub owner_rank : Owner → ℕ
owner_rank Owner.idle = 0
owner_rank (push_bot x) = 7
owner_rank (push_top x b) = 6
owner_rank (push_array x b t) = 5
owner_rank (push_grow x b t a) = 4
owner_rank (push_install x b n) = 3
owner_rank (push_put x b a) = 2
owner_rank (push_publish x b) = 1
owner_rank pop_bot = 7
owner_rank (pop_array b) = 6
owner_rank (pop_store b a) = 5
owner_rank (pop_top b a) = 4
owner_rank (pop_restore b) = 1
owner_rank (pop_get b a t) = 3
owner_rank (pop_cas b t raw) = 2
owner_rank (pop_finish b out) = 1

pub owner_step-rank :
    (d : ChaseLevDeque) (o : Owner) → owner_rank (owner_step d o).1 ≤ owner_rank o - 1
unfolding owner_step
owner_step-rank d Owner.idle = omega arith
owner_step-rank d o = ground arith

pub owner_rank-zero : (o : Owner) → owner_rank o ≤ 0 → o ≡ Owner.idle
owner_rank-zero Owner.idle h = refl
owner_rank-zero o h = absurd (omega arith)

pub owner_rank-le : (o : Owner) → owner_rank o ≤ 7
owner_rank-le Owner.idle = omega arith
owner_rank-le o = omega arith

-- The owner's steps, each against the memory that it meets at that moment.
pub owner_run : List ChaseLevDeque → Owner → Owner
owner_run [] o = o
owner_run (d ∷ ds) o = owner_run ds (owner_step d o).1

pub owner_run-idle :
    (ds : List ChaseLevDeque) (o : Owner) → owner_rank o ≤ length ds → owner_run ds o ≡ Owner.idle
unfolding owner_run
owner_run-idle [] o h = owner_rank-zero o h
owner_run-idle (d ∷ ds) o h =
    owner_run-idle ds (owner_step d o).1 (omega (arith, owner_step-rank d o))

-- How many accesses `steal` still makes at most.
abbrev pub thief_rank : Thief → ℕ
thief_rank Thief.idle = 0
thief_rank steal_top = 5
thief_rank (steal_bot t) = 4
thief_rank (steal_array t) = 3
thief_rank (steal_get t a) = 2
thief_rank (steal_cas t raw) = 1

thief_step-rank : (d : ChaseLevDeque) (t : Thief) → thief_rank (thief_step d t).1 ≤ thief_rank t - 1
unfolding thief_step
thief_step-rank d Thief.idle = omega arith
thief_step-rank d t = ground arith

thief_rank-zero : (t : Thief) → thief_rank t ≤ 0 → t ≡ Thief.idle
thief_rank-zero Thief.idle h = refl
thief_rank-zero t h = absurd (omega arith)

thief_rank-le : (t : Thief) → thief_rank t ≤ 5
thief_rank-le Thief.idle = omega arith
thief_rank-le t = omega arith

pub thief_run : List ChaseLevDeque → Thief → Thief
thief_run [] t = t
thief_run (d ∷ ds) t = thief_run ds (thief_step d t).1

thief_run-idle :
    (ds : List ChaseLevDeque) (t : Thief) → thief_rank t ≤ length ds → thief_run ds t ≡ Thief.idle
unfolding thief_run
thief_run-idle [] t h = thief_rank-zero t h
thief_run-idle (d ∷ ds) t h =
    thief_run-idle ds (thief_step d t).1 (omega (arith, thief_step-rank d t))

-- `steal` is wait-free: from any point of it, the thief has returned after five accesses of its
-- own, whatever the other threads make of the memory in between.
pub thief_wait_free :
    (ds : List ChaseLevDeque) (t : Thief) → 5 ≤ length ds → thief_run ds t ≡ Thief.idle
thief_wait_free ds t h = thief_run-idle ds t (omega (arith, thief_rank-le t))

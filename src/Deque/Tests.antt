-- ===== src/Deque/Tests.antt =====
-- include/chase_lev_deque.hpp: schedules that are run, among them those of src/tests.cpp, and the
-- theorems at the states that they reach.
use lock_free_work_stealing.Base.{
  ◌≤◌, add64, sub64, le_i64, lt_i64, shl1, ℕ, zero, suc, ◌+◌, ◌<◌, ◌≡◌, refl, arith, true, false,
  Option, none, some, List, [], ◌∷◌, ◌++◌, count, replicate, if◌then◌else◌, ltb,
}
use lock_free_work_stealing.Deque.Array.{capacity, CircularArray, make, put, get, grow}
use lock_free_work_stealing.Deque.Array.Copy.{Grown, grow-Grown}
use lock_free_work_stealing.Deque.Machine.{
  ChaseLevDeque, push_bot, is_full, Owner, Thief, stole, fresh, owner_step, thief_step, size, empty,
  pop_bot, steal_top,
}
use lock_free_work_stealing.Deque.System.{
  System, start, call_push, call_pop, owner_moves, call_steal, thief_moves, owner_move, thief_move,
  Reach, here, next,
}
use lock_free_work_stealing.Deque.Refine.{Effect}
use lock_free_work_stealing.Deque.Safety.{
  waiting, count_ptr, Step-Effect, Reach-count, empty-all_taken,
}
use lock_free_work_stealing.WorkStealing
use lock_free_work_stealing.WorkStealing.Deques.{Acts, Step-Acts}
use lock_free_work_stealing.Deque.Destructor.{destroy, destroy-frees}
use lock_free_work_stealing.Deque.Sequential.Solo.{solo}
use lock_free_work_stealing.Deque.Sequential.{call_push_bottom, call_pop_bottom, push-pop}
use lock_free_work_stealing.Deque.Progress.Accesses.{copy_loop, owner_accesses, owner_wait_free}
use lock_free_work_stealing.Deque.Progress.Races.{Later, same, later, Took, lost_race-Took}
use lock_free_work_stealing.Deque.Progress.{owner_run, thief_run, thief_wait_free}

-- A choice of the scheduler. A call by a thread that is in a method is passed over.
data Act : Type 0 where
  push : ℕ → Act
  pop : Act
  own : Act
  steal : ℕ → Act
  thief : ℕ → Act

owner_is_idle : (o : Owner) → Option (o ≡ Owner.idle)
owner_is_idle Owner.idle = some refl
owner_is_idle _ = none

thief_is_idle : (t : Thief) → Option (t ≡ Thief.idle)
thief_is_idle Thief.idle = some refl
thief_is_idle _ = none

record Run : Type 0 where
  last : System
  reach : Reach last

act : Run → Act → Run
unfolding owner_is_idle thief_is_idle
act r (push x) = elim (owner_is_idle r.last.owner) [
  | some e ↦ record { last = _; reach = next r.reach (call_push x e) }
  | none ↦ r
]
act r pop = elim (owner_is_idle r.last.owner) [
  | some e ↦ record { last = _; reach = next r.reach (call_pop e) }
  | none ↦ r
]
act r own = record { last = _; reach = next r.reach owner_moves }
act r (steal i) = elim (thief_is_idle (r.last.thieves i)) [
  | some e ↦ record { last = _; reach = next r.reach (call_steal i e) }
  | none ↦ r
]
act r (thief i) = record { last = _; reach = next r.reach (thief_moves i) }

play : Run → List Act → Run
unfolding act fresh owner_move thief_move owner_step thief_step is_full le_i64 lt_i64 add64 sub64
    shl1 capacity make put get grow
play r [] = r
play r (a ∷ as') = play (act r a) as'

abbrev begin : Run
begin = record { last = start; reach = here }

abbrev pushing : ℕ → List Act
pushing x = push x ∷ own ∷ own ∷ own ∷ own ∷ own ∷ []

abbrev popping : List Act
popping = pop ∷ own ∷ own ∷ own ∷ own ∷ own ∷ own ∷ own ∷ []

abbrev stealing : ℕ → List Act
stealing i = steal i ∷ thief i ∷ thief i ∷ thief i ∷ thief i ∷ thief i ∷ []

-- test_deque_basic: two pushes, then three pops.
abbrev two_tasks : Run
two_tasks = play begin (pushing 10 ++ pushing 20)

basic_sizes : (size two_tasks.last.mem ≡ 2) × (empty two_tasks.last.mem ≡ false)
unfolding play size empty
basic_sizes = (refl, refl)

abbrev drained : Run
drained = play two_tasks (popping ++ popping ++ popping)

basic_pops : (drained.last.takes ≡ 10 ∷ 20 ∷ []) × (empty drained.last.mem ≡ true)
unfolding play empty
basic_pops = (refl, refl)

-- The owner and a thief after the same last task: both have read `top_`, and neither has won.
abbrev race : Run
race = play begin (
    pushing 10
    ++ steal 0 ∷ thief 0 ∷ thief 0 ∷ thief 0 ∷ thief 0 ∷ pop ∷ own ∷ own ∷ own ∷ own ∷ own ∷ [])

owner_wins : (play race (own ∷ own ∷ thief 0 ∷ [])).last.takes ≡ 10 ∷ []
unfolding play
owner_wins = refl

thief_wins : (play race (thief 0 ∷ own ∷ own ∷ [])).last.takes ≡ 10 ∷ []
unfolding play
thief_wins = refl

-- Both have the index, and the owner wins: the thief then fails.
abbrev thief_lost : Run
thief_lost = play race (own ∷ own ∷ [])

thief_fails :
    (thief_step thief_lost.last.mem (thief_lost.last.thieves 0)).2
    ≡ stole (record { task = none; empty = false })
unfolding play
thief_fails = refl

-- 255 tasks fill the first array; the next push doubles it, and nothing moves.
abbrev pushing_many : ℕ → List Act
pushing_many zero = []
pushing_many (suc n) = pushing n ++ own ∷ own ∷ pushing_many n

abbrev grown : Run
grown = play begin (pushing_many 260 ++ stealing 3 ++ popping)

grown_takes :
    (grown.last.takes ≡ 0 ∷ 259 ∷ []) × (size grown.last.mem ≡ 258) × (grown.last.mem.array ≡ 1)
unfolding play size
grown_takes = (refl, refl, refl)

Step-Effect_example : Effect (stole (record { task = some 10; empty = false })) (some 10 ∷ []) []
unfolding play
Step-Effect_example = Step-Effect race.reach (thief_moves 0) (omega arith)

Reach-count_example : count 10 drained.last.takes + count_ptr 10 (waiting drained.last) ≡ 1
unfolding play
Reach-count_example = Reach-count 10 drained.reach (omega arith)

empty-all_taken_example : count 20 drained.last.takes ≡ 1
unfolding play empty
empty-all_taken_example = empty-all_taken 20 drained.reach (omega arith) refl refl

-- A theft, in the deque and in a scheduler.
Step-Acts_example :
    (waiting race.last ≡ some 10 ∷ [])
    × ((waiting (thief_move 0 race.last) ≡ [])
        × Acts WorkStealing.fresh 1 0 0 0
            (stole (record { task = some 10; empty = false }))
            (10 ∷ [])
            [])
unfolding play
Step-Acts_example =
    Step-Acts race.reach (thief_moves 0) WorkStealing.fresh 1 0 0 0 (omega arith) (omega arith)

-- The owner takes the last task between the thief's load of `top_` and its compare-exchange.
abbrev owner_first : Later race.last (owner_move (owner_move race.last))
owner_first = later (later same owner_moves) owner_moves

lost_race-Took_example : (0 < 1) × Took owner_first
unfolding play owner_move owner_step
lost_race-Took_example = lost_race-Took 0 (some 10) race.reach owner_first (omega arith) refl refl

-- The memory is that of 300 tasks in a ring for 512, and the owner grows it all the same if it finds
-- it full.
abbrev many : ChaseLevDeque
many = record fresh { bot = 300 }

owner_wait_free_example :
    ((owner_run (many ∷ many ∷ replicate 5 fresh) pop_bot ≡ Owner.idle)
      × (owner_accesses (many ∷ many ∷ replicate 5 fresh) pop_bot ≤ 7))
    × (((owner_run (many ∷ many ∷ replicate 5 fresh) (push_bot 8) ≡ Owner.idle)
          × (owner_accesses (many ∷ many ∷ replicate 5 fresh) (push_bot 8) ≤ 606))
        × (copy_loop 300 300 (make 8) 0 (make (add64 8 1)) 0 ≡ some (grow (make 8) 300 0, 600)))
unfolding fresh make
owner_wait_free_example =
    owner_wait_free (replicate 5 fresh) many many 8 (make 8) (omega arith) (omega arith)
      (omega arith)

thief_wait_free_example : thief_run (replicate 5 fresh) steal_top ≡ Thief.idle
thief_wait_free_example = thief_wait_free (replicate 5 fresh) steal_top (omega arith)

-- A ring of four slots with three tasks, and its wrap at index 4.
abbrev small_ring : CircularArray
small_ring = record { log2_cap = 2; mask = 3; buf = some 7 ∷ none ∷ some 5 ∷ some 6 ∷ [] }

grow-Grown_example : Grown small_ring 5 2 (grow small_ring 5 2)
grow-Grown_example =
    grow-Grown small_ring 5 2 (omega arith) (omega arith) (omega arith) (omega arith) (omega arith)

grow_runs : get (grow small_ring 5 2) 4 ≡ some 7
unfolding grow get put make add64 sub64 shl1 lt_i64
grow_runs = refl

-- Two tasks are left and one array.
destroy-frees_example :
    ((x : ℕ)
      → count x two_tasks.last.takes + count_ptr x (destroy two_tasks.last.mem).tasks
        ≡ count x two_tasks.last.pushes)
    × ((a : ℕ)
        → count a (destroy two_tasks.last.mem).arrays
          ≡ (if ltb a two_tasks.last.mem.next then 1 else 0))
unfolding play
destroy-frees_example = destroy-frees two_tasks.reach (omega arith) refl

grown_destroyed : (destroy grown.last.mem).arrays ≡ 1 ∷ 0 ∷ []
unfolding play destroy
grown_destroyed = refl

push-pop_example :
    ((solo 7 (call_pop_bottom (solo 7 (call_push_bottom two_tasks.last 30)))).owner ≡ Owner.idle)
    × (((solo 7 (call_pop_bottom (solo 7 (call_push_bottom two_tasks.last 30)))).takes
          ≡ 30 ∷ two_tasks.last.takes)
        × (waiting (solo 7 (call_pop_bottom (solo 7 (call_push_bottom two_tasks.last 30))))
            ≡ waiting two_tasks.last))
unfolding play
push-pop_example = push-pop 30 two_tasks.reach (omega arith) refl

-- ===== src/LockFree/Scheduler/Tests.antt =====
-- include/lockfree_queue_scheduler.hpp: schedules of the scheduler that are run, and the theorems at the
-- states that they reach.
use lock_free_work_stealing.Base.{
  ℕ, zero, suc, ◌+◌, ◌^◌, ◌<◌, ◌≡◌, refl, arith, Option, none, some, false, List, [], ◌∷◌, ◌++◌,
  count, length, replicate, add64, sub64, lt_i64, dec_lt, dec_le, one_if_eq, subst, sum_of,
}
use lock_free_work_stealing.LockFree.{reserve, compare_seq, op_step}
use lock_free_work_stealing.LockFree.Queue.{queued}
use lock_free_work_stealing.LockFree.Scheduler.{
  Phase, outside, running, Driver, resting, watching, stopping, Pool, start, enter, poll,
  thread_step, run_start, run_driver, moves, child, external, runs, drives, Reach, here, next,
}
use lock_free_work_stealing.Contract.{Conforms}
use lock_free_work_stealing.Contract.Schedulers.{lock_free_contract}
use lock_free_work_stealing.Contract.Trees.{started-setup_recursive}
use lock_free_work_stealing.Workloads.Recursive.{children, setup_recursive}
use lock_free_work_stealing.LockFree.Scheduler.Safety.{
  unstarted, unfinished, Pool-accounts, stopping-all_ran,
}

-- A choice of the system's scheduler, for three threads; one that is not possible is passed over.
data Act : Type 0 where
  submit : ℕ → ℕ → Act
  spawn : ℕ → ℕ → Act
  move : ℕ → Act
  run : ℕ → Act
  drive : Act

record Play : Type 0 where
  last : Pool
  reach : Reach 3 last

is_outside : (p : Phase) → Option (p ≡ outside)
is_outside outside = some refl
is_outside _ = none

is_resting : (d : Driver) → Option (d ≡ resting)
is_resting resting = some refl
is_resting _ = none

task_of : (p : Phase) → Option ((task : ℕ) × (p ≡ running task))
task_of (running task) = some (task, refl)
task_of _ = none

extend :
    (s : Pool) (n : ℕ)
    → ((i : ℕ) → i < n → s.threads i ≡ outside)
    → s.threads n ≡ outside
    → (i : ℕ) → i < suc n
    → s.threads i ≡ outside
extend s n h e i p = elim (dec_lt i n) [
  | yes q ↦ h i q
  | no nq ↦ let same : n ≡ i = omega arith in subst (λ k. s.threads k ≡ outside) same e
]

all_outside : (s : Pool) (n : ℕ) → Option ((i : ℕ) → i < n → s.threads i ≡ outside)
unfolding is_outside
all_outside s zero = some (λ i p. absurd (omega arith))
all_outside s (suc n) = elim (all_outside s n) [
  | none ↦ none
  | some h ↦ elim (is_outside (s.threads n)) [ none ↦ none | some e ↦ some (extend s n h e) ]
]

act : Play → Act → Play
unfolding is_outside is_resting task_of all_outside
act r (submit i new) = elim (is_outside (r.last.threads i)) [
  | none ↦ r
  | some e ↦ elim (dec_lt i 3) [
    | no np ↦ r
    | yes p ↦ elim (dec_le r.last.size i) [
      | no nq ↦ r
      | yes q ↦ record { last = _; reach = next r.reach (external i new p q e) }
    ]
  ]
]
act r (spawn i new) = elim (task_of (r.last.threads i)) [
  | none ↦ r
  | some (task, e) ↦ elim (dec_lt i 3) [
    | no np ↦ r
    | yes p ↦ record { last = _; reach = next r.reach (child i task new p e) }
  ]
]
act r (move i) = elim (dec_lt i 3) [
  | no np ↦ r
  | yes p ↦ record { last = _; reach = next r.reach (moves i false p) }
]
act r (run n) = elim (all_outside r.last n) [
  | none ↦ r
  | some h ↦ elim (is_resting r.last.driver) [
    | none ↦ r
    | some e ↦ elim (dec_le n 3) [
      | no np ↦ r
      | yes p ↦ record { last = _; reach = next r.reach (runs n p e h) }
    ]
  ]
]
act r drive = record { last = _; reach = next r.reach drives }

acts : Play → List Act → Play
unfolding act
acts r [] = r
acts r (x ∷ xs) = acts (act r x) xs

abbrev steps : ℕ → ℕ → List Act
steps n i = replicate n (move i)

-- Thread 2 submits 7, `run` starts one worker, and the task 7 submits 9 while it runs.
abbrev nested : Play
unfolding acts
nested =
    acts (record { last = start; reach = here })
      (submit 2 7 ∷ steps 5 2 ++ run 1 ∷ steps 6 0 ++ spawn 0 9 ∷ steps 5 0)

abbrev finished : Play
unfolding acts
finished = acts nested (steps 2 0 ++ drive ∷ steps 8 0)

nested_state : (nested.last.ran ≡ 7 ∷ []) × (nested.last.pending ≡ 2)
unfolding acts act reserve compare_seq op_step add64 sub64 lt_i64 enter poll thread_step run_start
    run_driver dec_lt dec_le
nested_state = (refl, refl)

finished_state : (finished.last.ran ≡ 9 ∷ 7 ∷ []) × (finished.last.pending ≡ 0)
unfolding acts act reserve compare_seq op_step add64 sub64 lt_i64 enter poll thread_step run_start
    run_driver dec_lt dec_le
finished_state = (refl, refl)

nested_small : length nested.last.submitted < 2 ^ 62
unfolding acts act reserve compare_seq op_step add64 sub64 lt_i64 enter poll thread_step run_start
    run_driver dec_lt dec_le
nested_small = omega arith

finished_small : length finished.last.submitted < 2 ^ 62
unfolding acts act reserve compare_seq op_step add64 sub64 lt_i64 enter poll thread_step run_start
    run_driver dec_lt dec_le
finished_small = omega arith

finished_watching : finished.last.driver ≡ watching
unfolding acts act reserve compare_seq op_step add64 sub64 lt_i64 enter poll thread_step run_start
    run_driver dec_lt dec_le
finished_watching = refl

finished_stopping : (run_driver finished.last watching).driver ≡ stopping
unfolding acts act reserve compare_seq op_step add64 sub64 lt_i64 enter poll thread_step run_start
    run_driver dec_lt dec_le
finished_stopping = refl

Pool-accounts_example :
    (count 9 nested.last.submitted
      ≡ count 9 nested.last.ran + unstarted 3 nested.last (λ x. one_if_eq x 9))
    × (nested.last.pending ≡ unstarted 3 nested.last (λ _. 1) + unfinished 3 nested.last (λ _. 1))
Pool-accounts_example = Pool-accounts nested.reach nested_small 9

stopping-all_ran_example :
    (count 9 finished.last.submitted ≡ count 9 finished.last.ran)
    × ((unfinished 3 finished.last (λ _. 1) ≡ 0) × (queued finished.last.ring ≡ []))
stopping-all_ran_example =
    stopping-all_ran finished.reach finished_small 9 finished_watching finished_stopping

-- A tree of depth 1 on one worker: the root submits two children of depth 0.
abbrev tree : Play
unfolding acts
tree =
    acts (record { last = start; reach = here })
      (submit 2 1 ∷ steps 5 2
        ++ run 1 ∷ steps 6 0
        ++ spawn 0 0 ∷ steps 5 0
        ++ spawn 0 0 ∷ steps 5 0
        ++ steps 8 0
        ++ steps 10 0)

tree_ran : tree.last.ran ≡ 0 ∷ 0 ∷ 1 ∷ []
unfolding acts act reserve compare_seq op_step add64 sub64 lt_i64 enter poll thread_step run_start
    run_driver dec_lt dec_le
tree_ran = refl

tree_small : length tree.last.submitted < 2 ^ 62
unfolding acts act reserve compare_seq op_step add64 sub64 lt_i64 enter poll thread_step run_start
    run_driver dec_lt dec_le
tree_small = omega arith

tree_over : (tree.last.driver ≡ watching) × ((run_driver tree.last watching).driver ≡ stopping)
unfolding acts act reserve compare_seq op_step add64 sub64 lt_i64 enter poll thread_step run_start
    run_driver dec_lt dec_le
tree_over = (refl, refl)

tree-Conforms : Conforms (1 ∷ []) children tree.last.submitted tree.last.ran
unfolding sum_of acts act reserve compare_seq op_step add64 sub64 lt_i64 enter poll thread_step
    run_start run_driver dec_lt dec_le
tree-Conforms = λ w. omega arith

started-setup_recursive_example : length tree.last.ran ≡ (setup_recursive 1).1
started-setup_recursive_example =
    started-setup_recursive (lock_free_contract 3) tree.last 1 (omega arith) tree.reach tree_small
      tree_over tree-Conforms

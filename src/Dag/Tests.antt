-- ===== src/Dag/Tests.antt =====
-- include/task_graph.hpp: graphs that are built and run, among them the diamond of src/tests.cpp,
-- and the theorems at the states that the runs reach.
use lock_free_work_stealing.Base.{
  ℕ, zero, suc, ◌<◌, ◌^◌, ◌≡◌, ◌≢◌, refl, ap, arith, Option, none, some, List, [], ◌∷◌, ◌++◌, count,
  if◌then◌else◌, ◌==◌, sum_to, sum_of, ◌≤◌,
}
use lock_free_work_stealing.Dag.{
  TaskGraph, empty_graph, node, depends_on, depends_on_all, roots_from, execute, inc32, dec32,
  dec64,
}
use lock_free_work_stealing.Dag.Run.{
  Instance, Exec, begin, decrement, advance, turn, Reach, here, next,
}
use lock_free_work_stealing.Dag.Weights.{in_degree, is_task}
use lock_free_work_stealing.Dag.Invariant.{IsBuilt}
use lock_free_work_stealing.Dag.Drained.{pending}
use lock_free_work_stealing.Dag.Build.{Build, empty, add, link, Build-IsBuilt}
use lock_free_work_stealing.Dag.Order.{
  started-after_predecessors, started-at_most_once, IsRank, drained-ran_once,
  drained-remaining_nodes, IsStuck, stuck-never_run,
}
use lock_free_work_stealing.Dag.Progress.{
  actions, actions_done, actions_done-le, Steps, pending-drains,
}

abbrev with_nodes : ℕ → TaskGraph → TaskGraph
with_nodes zero g = g
with_nodes (suc n) g = elim (node g) [ some p ↦ with_nodes n p.0 | none ↦ g ]

abbrev four : TaskGraph
unfolding node
four = with_nodes 4 empty_graph

-- 0 before 1 and 2, and both before 3
abbrev diamond : TaskGraph
unfolding depends_on_all depends_on node inc32
diamond = depends_on_all (depends_on (depends_on four 1 0) 2 0) 3 (1 ∷ 2 ∷ [])

diamond_counters :
    (diamond.nodes 0).deps_remaining
      ∷ (diamond.nodes 1).deps_remaining
      ∷ (diamond.nodes 2).deps_remaining
      ∷ (diamond.nodes 3).deps_remaining
      ∷ []
    ≡ 0 ∷ 1 ∷ 1 ∷ 2 ∷ []
unfolding depends_on_all depends_on node inc32
diamond_counters = refl

diamond_roots : (execute diamond).1 ≡ 0 ∷ []
unfolding depends_on_all depends_on node inc32 execute roots_from
diamond_roots = refl

-- A run with its history: `act r k` gives a turn to the task at place k.
record Run (g : TaskGraph) : Type 0 where
  last : Exec
  reach : Reach g last

abbrev split_at :
    (k : ℕ) (xs : List Instance)
    → Option (
        (before : List Instance) × (i : Instance) × (after : List Instance) × (xs
          ≡ before ++ i ∷ after))
split_at k [] = none
split_at zero (x ∷ xs) = some ([], x, xs, refl)
split_at (suc k) (x ∷ xs) = elim (split_at k xs) [
  | some (before, i, after, e) ↦ some (x ∷ before, i, after, ap (λ ys. x ∷ ys) e)
  | none ↦ none
]

abbrev act : {g : TaskGraph} → Run g → ℕ → Run g
act r k = elim (split_at k r.last.tasks) [
  | some (before, i, after, e) ↦ record {
    last = _;
    reach = next r.reach (turn before i.node i.phase after e);
  }
  | none ↦ r
]

abbrev acts : {g : TaskGraph} → Run g → List ℕ → Run g
acts r [] = r
acts r (k ∷ ks) = acts (act r k) ks

abbrev begun : (g : TaskGraph) → Run g
begun g = record { last = begin g; reach = here }

-- Task 0 runs to its end (five actions), 1 and 2 in turns, and then 3.
abbrev diamond_ran : Run diamond
diamond_ran =
    acts (begun diamond) (0 ∷ 0 ∷ 0 ∷ 0 ∷ 0 ∷ 1 ∷ 2 ∷ 2 ∷ 1 ∷ 1 ∷ 2 ∷ 2 ∷ 3 ∷ 1 ∷ 3 ∷ 3 ∷ [])

diamond_order : diamond_ran.last.started ≡ 3 ∷ 2 ∷ 1 ∷ 0 ∷ []
unfolding depends_on_all depends_on node inc32 dec32 dec64 execute roots_from begin decrement
    advance
diamond_order = refl

diamond-Build : Build diamond
unfolding depends_on_all depends_on node inc32
diamond-Build =
    link 3 2
      (link 3 1
        (link 2 0
          (link 1 0 (add 3 (add 2 (add 1 (add 0 empty refl) refl) refl) refl) (omega arith)
            (omega arith))
          (omega arith) (omega arith))
        (omega arith) (omega arith))
      (omega arith) (omega arith)

diamond_few : (v : ℕ) → in_degree diamond v < 2 ^ 31
unfolding depends_on_all depends_on node inc32 sum_to
diamond_few v = ground arith

diamond-IsBuilt : IsBuilt diamond
unfolding depends_on_all depends_on node inc32
diamond-IsBuilt = Build-IsBuilt diamond-Build (omega arith) diamond_few

Build-IsBuilt_example : IsBuilt diamond
unfolding depends_on_all depends_on node inc32
Build-IsBuilt_example = Build-IsBuilt diamond-Build (omega arith) diamond_few

-- The last task begins only where 1 has returned.
started-after_predecessors_example : count 1 diamond_ran.last.finished ≡ 1
unfolding depends_on_all depends_on node inc32 dec32 dec64 execute roots_from begin decrement
    advance
started-after_predecessors_example =
    started-after_predecessors diamond-IsBuilt diamond_ran.reach 1 3 (omega arith) (omega arith)
      (omega arith)

started-at_most_once_example :
    (count 3 diamond_ran.last.finished ≤ count 3 diamond_ran.last.started)
    × ((count 3 diamond_ran.last.started ≤ 1) × (sum_of (is_task 3) diamond_ran.last.tasks ≤ 1))
started-at_most_once_example = started-at_most_once diamond-IsBuilt diamond_ran.reach 3

diamond-IsRank : IsRank diamond (λ v. v)
unfolding depends_on_all depends_on node inc32
diamond-IsRank u v p edge = ground arith

diamond_drained : pending diamond_ran.last ≡ 0
unfolding depends_on_all depends_on node inc32 dec32 dec64 execute roots_from begin decrement
    advance sum_of
diamond_drained = refl

drained-ran_once_example :
    (count 2 diamond_ran.last.started ≡ 1) × (count 2 diamond_ran.last.finished ≡ 1)
unfolding depends_on_all depends_on node inc32
drained-ran_once_example =
    drained-ran_once diamond-IsBuilt (λ v. v) diamond-IsRank diamond_ran.reach diamond_drained 2
      (omega arith)

drained-remaining_nodes_example : diamond_ran.last.graph.remaining_nodes ≡ 0
drained-remaining_nodes_example =
    drained-remaining_nodes diamond-IsBuilt (λ v. v) diamond-IsRank diamond_ran.reach
      diamond_drained

actions_done-le_example : actions_done diamond_ran.reach ≤ sum_to 4 (actions diamond)
unfolding depends_on_all depends_on node inc32
actions_done-le_example = actions_done-le diamond-IsBuilt diamond_ran.reach

abbrev diamond_half : Run diamond
diamond_half = acts (begun diamond) (0 ∷ 0 ∷ 0 ∷ 0 ∷ [])

diamond_half_pending : 0 < pending diamond_half.last
unfolding depends_on_all depends_on node inc32 dec32 dec64 execute roots_from begin decrement
    advance sum_of
diamond_half_pending = omega arith

pending-drains_example : (t : Exec) × Steps diamond_half.last t × (pending t ≡ 0)
pending-drains_example = pending-drains diamond-IsBuilt diamond_half.reach

-- A node that nothing precedes, and two that wait for each other.
abbrev cycle : TaskGraph
unfolding depends_on node inc32
cycle = depends_on (depends_on (with_nodes 3 empty_graph) 1 2) 2 1

cycle-Build : Build cycle
unfolding depends_on node inc32
cycle-Build =
    link 2 1 (link 1 2 (add 2 (add 1 (add 0 empty refl) refl) refl) (omega arith) (omega arith))
      (omega arith) (omega arith)

cycle_few : (v : ℕ) → in_degree cycle v < 2 ^ 31
unfolding depends_on node inc32 sum_to
cycle_few v = ground arith

cycle-IsBuilt : IsBuilt cycle
unfolding depends_on node inc32
cycle-IsBuilt = Build-IsBuilt cycle-Build (omega arith) cycle_few

abbrev InCycle : ℕ → Type 0
InCycle v = (0 < v) × (v < 3)

cycle-IsStuck : IsStuck cycle InCycle
unfolding depends_on node inc32
cycle-IsStuck = record {
  inside = λ v c. let p = c.1 in omega arith;
  pred = λ v c. if v == 1 then 2 else 1;
  pred_in = λ v c. (ground arith, ground arith);
  edge = λ v c. let p = c.0 in let q = c.1 in ground arith;
}

abbrev cycle_ran : Run cycle
cycle_ran = acts (begun cycle) (0 ∷ 0 ∷ 0 ∷ [])

cycle_drained : pending cycle_ran.last ≡ 0
unfolding depends_on node inc32 dec32 dec64 execute roots_from begin decrement advance sum_of
cycle_drained = refl

stuck-never_run_example :
    (count 1 cycle_ran.last.started ≡ 0) × (cycle_ran.last.graph.remaining_nodes ≢ 0)
stuck-never_run_example =
    stuck-never_run cycle-IsBuilt cycle-IsStuck cycle_ran.reach 1 (omega arith, omega arith)

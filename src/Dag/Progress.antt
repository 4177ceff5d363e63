-- ===== src/Dag/Progress.antt =====
-- include/task_graph.hpp, TaskGraph::execute: the tasks of a graph come to an end.
use lock_free_work_stealing.Base.{
  zero, ℕ, suc, ◌+◌, ◌*◌, ◌≤◌, ◌<◌, ◌≡◌, refl, sym, ap, subst, arith, List, [], ◌∷◌, ◌++◌, length,
  map, sum_to, sum_to_mono, sum_of, ℕ_discrete,
}
use lock_free_work_stealing.Dag.{TaskGraph, execute, roots_from}
use lock_free_work_stealing.Dag.Run.{
  Phase, queued, in_fn, decrementing, done, Instance, Exec, submit_node, begin, advance, Step, turn,
  Reach, here, next,
}
use lock_free_work_stealing.Dag.Weights.{is_task, sum_by_node}
use lock_free_work_stealing.Dag.Moves.{moved, spawned}
use lock_free_work_stealing.Dag.Drained.{is_pending, pending}
use lock_free_work_stealing.Dag.Invariant.{IsBuilt, Inv, at_most_one}
use lock_free_work_stealing.Dag.Ready.{Reach-Inv}

-- The actions of a node's task: the call, its return, a decrement for each edge, and that of
-- `remaining_nodes_`.
abbrev pub actions : TaskGraph → ℕ → ℕ
actions g n = 3 + length (g.nodes n).successors

abbrev pub actions_at : TaskGraph → ℕ → Phase → ℕ
actions_at g n queued = 3 + length (g.nodes n).successors
actions_at g n in_fn = 2 + length (g.nodes n).successors
actions_at g n (decrementing rest) = 1 + length rest
actions_at g n done = 0

abbrev pub actions_left : TaskGraph → Instance → ℕ
actions_left g i = actions_at g i.node i.phase

abbrev pub actions_of : TaskGraph → Instance → ℕ
actions_of g i = actions g i.node

-- The actions of a run: turns of a task that has returned are none.
abbrev pub action_at : Phase → ℕ
action_at done = 0
action_at _ = 1

abbrev pub actions_done : {g : TaskGraph} {s : Exec} → Reach g s → ℕ
actions_done here = 0
actions_done (next r (turn before n p after e)) = action_at p + actions_done r

-- Each action is one of those that are left.
module _ {g : TaskGraph} {s : Exec} (inv : Inv g s) (before : List Instance) (n : ℕ)
    (after : List Instance) where
  advance-actions :
      (p : Phase)
      → s.tasks ≡ before ++ record { node = n; phase = p } ∷ after
      → action_at p
          + sum_of (actions_left g) (advance s before n p after).tasks
          + sum_of (actions_of g) s.tasks
        ≡ sum_of (actions_left g) s.tasks + sum_of (actions_of g) (advance s before n p after).tasks
  unfolding advance
  advance-actions queued e = omega (
    arith,
    moved s before n after queued in_fn e (actions_left g),
    moved s before n after queued in_fn e (actions_of g),
  )
  advance-actions in_fn e = rw (inv.same n) (
      omega (
        arith,
        moved s before n after in_fn (decrementing (g.nodes n).successors) e (actions_left g),
        moved s before n after in_fn (decrementing (g.nodes n).successors) e (actions_of g),
      ))
  advance-actions (decrementing []) e = omega (
    arith,
    moved s before n after (decrementing []) done e (actions_left g),
    moved s before n after (decrementing []) done e (actions_of g),
  )
  advance-actions (decrementing (v ∷ rest)) e = ground (
    arith,
    spawned s before n after v rest e (actions_left g),
    spawned s before n after v rest e (actions_of g),
  )
  advance-actions done e = omega arith

fresh-actions :
    (g : TaskGraph) (ns : List ℕ)
    → sum_of (actions_left g) (map submit_node ns) ≡ sum_of (actions_of g) (map submit_node ns)
unfolding sum_of
fresh-actions g [] = refl
fresh-actions g (n ∷ ns) = omega (arith, fresh-actions g ns)

actions_done-left :
    {g : TaskGraph} {s : Exec}
    → IsBuilt g
    → (r : Reach g s)
    → actions_done r + sum_of (actions_left g) s.tasks ≡ sum_of (actions_of g) s.tasks
unfolding begin execute
actions_done-left {g} built here = omega (arith, fresh-actions g (roots_from g g.size 0))
actions_done-left built (next r (turn before n p after e)) =
    omega (arith, actions_done-left built r, advance-actions (Reach-Inv built r) before n after p e)

actions_of-le :
    {g : TaskGraph} {s : Exec}
    → IsBuilt g
    → Inv g s
    → sum_of (actions_of g) s.tasks ≤ sum_to g.size (actions g)
actions_of-le {g} {s} built inv =
    subst (λ k. k ≤ sum_to g.size (actions g))
      (sym (sum_by_node g.size (actions g) s.tasks inv.inside))
      (sum_to_mono g.size (λ u. sum_of (is_task u) s.tasks * actions g u) (actions g)
        (λ u p. grind (arith, at_most_one built inv u)))

pending_task :
    (tasks : List Instance)
    → 0 < sum_of is_pending tasks
    → (before : List Instance) × (i : Instance) × (after : List Instance) × (tasks
        ≡ before ++ i ∷ after)
      × (is_pending i ≡ 1)
unfolding sum_of
pending_task [] p = absurd (omega arith)
pending_task (i ∷ is) p = elim (ℕ_discrete (is_pending i) 1) [
  | yes e ↦ ([], i, is, refl, e)
  | no ne ↦
      let (before, j, after, e, q) = pending_task is (ground arith) in
      (i ∷ before, j, after, ap (λ xs. i ∷ xs) e, q)
]

-- For a graph that the build phase left: a run of it never makes more actions (calls, returns and
-- decrements) than three for each node and one for each edge.
pub actions_done-le :
    {g : TaskGraph} {s : Exec}
    → IsBuilt g
    → (r : Reach g s) → actions_done r ≤ sum_to g.size (actions g)
actions_done-le built r =
    omega (arith, actions_done-left built r, actions_of-le built (Reach-Inv built r))

-- A pending task makes one more action.
pending-advances :
    {g : TaskGraph} {s : Exec} (r : Reach g s)
    → 0 < pending s
    → (t : Exec) × (st : Step s t) × (actions_done (next r st) ≡ suc (actions_done r))
pending-advances {g} {s} r p =
    let (before, i, after, e, q) = pending_task s.tasks p in
    (advance s before i.node i.phase after, turn before i.node i.phase after e, ground arith)

-- A run that goes on.
pub data Steps : Exec → Exec → Type 0 where
  stop : {s : Exec} → Steps s s
  more : {s t u : Exec} → Step s t → Steps t u → Steps s u

drains_within :
    {g : TaskGraph} (budget : ℕ) {s : Exec}
    → IsBuilt g
    → (r : Reach g s) → sum_to g.size (actions g) ≤ actions_done r + budget
    → (t : Exec) × Steps s t × (pending t ≡ 0)
drains_within {g} zero {s} built r h = elim (ℕ_discrete (pending s) 0) [
  | yes e ↦ (s, stop, e)
  | no ne ↦
      let (u, st, e) = pending-advances r (omega (arith, ne)) in
      absurd (omega (arith, e, actions_done-le built (next r st)))
]
drains_within {g} (suc budget) {s} built r h = elim (ℕ_discrete (pending s) 0) [
  | yes e ↦ (s, stop, e)
  | no ne ↦
      let (u, st, e) = pending-advances r (omega (arith, ne)) in
      let (t, path, d) = drains_within budget built (next r st) (omega (arith, e)) in
      (t, more st path, d)
]

-- For a graph that the build phase left: a run of it is never stuck, since from every state that it
-- can reach it can go on, by steps of its tasks, to a state in which no task is pending.
pub pending-drains :
    {g : TaskGraph} {s : Exec} → IsBuilt g → Reach g s → (t : Exec) × Steps s t × (pending t ≡ 0)
pending-drains {g} built r = drains_within (sum_to g.size (actions g)) built r (omega arith)

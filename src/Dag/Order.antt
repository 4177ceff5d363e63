-- ===== src/Dag/Order.antt =====
-- include/task_graph.hpp: the order in which the nodes of a graph run, what `execute` leaves when
-- the scheduler has no task left, and what a cycle does.
use lock_free_work_stealing.Base.{
  ℕ, zero, suc, ◌*◌, ◌≤◌, ◌<◌, ◌≡◌, ◌≢◌, refl, ◌∙◌, ap, arith, List, [], ◌∷◌, ◌++◌, count, sum_of,
  sum_of_mono, sum_to-gap, sum_to_mono, sum_to-ext, sum_to-ones, ℕ_discrete,
}
use lock_free_work_stealing.Dag.{TaskGraph, execute}
use lock_free_work_stealing.Dag.Run.{
  Phase, queued, in_fn, decrementing, done, Instance, Exec, advance, turn, Reach, here, next, begin,
}
use lock_free_work_stealing.Dag.Weights.{edges, is_task, is_done, sum_by_node, sum_of-split}
use lock_free_work_stealing.Dag.Invariant.{IsBuilt, Inv, at_most_one}
use lock_free_work_stealing.Dag.Drained.{pending, drained-left, drained-past_fn, drained-done}
use lock_free_work_stealing.Dag.Ready.{
  Reach-Inv, started-le, finished-le, ready-finished, task-ready,
}

module _ {g : TaskGraph} {s : Exec} (built : IsBuilt g) (r : Reach g s) where
  -- For a graph that the build phase left, in every state that a run of it can reach: if the
  -- callable of a node was called and there is an edge to it from a node of the graph, then that
  -- predecessor's callable has returned, exactly once.
  pub started-after_predecessors :
      (u v : ℕ) → u < g.size → 0 < edges g u v → 0 < count v s.started → count u s.finished ≡ 1
  started-after_predecessors u v p edge began =
      let inv = Reach-Inv built r in
      let (q, zero_deps) = task-ready built inv v (omega (arith, started-le inv v)) in
      ready-finished built inv u v p zero_deps edge

  -- For a graph that the build phase left, in every state that a run of it can reach: the callable
  -- of any node was called at most once and returned at most as often as it was called, and a node
  -- has at most one task.
  pub started-at_most_once :
      (v : ℕ)
      → (count v s.finished ≤ count v s.started)
        × ((count v s.started ≤ 1) × (sum_of (is_task v) s.tasks ≤ 1))
  started-at_most_once v =
      let inv = Reach-Inv built r in
      (
        finished-le inv v,
        (omega (arith, started-le inv v, at_most_one built inv v), at_most_one built inv v),
      )

-- A graph without cycles: a number for each node that grows along every edge.
abbrev pub IsRank : TaskGraph → (ℕ → ℕ) → Type 0
IsRank g rank = (u v : ℕ) → u < g.size → 0 < edges g u v → rank u < rank v

module _ {g : TaskGraph} {s : Exec} (built : IsBuilt g) (inv : Inv g s) (drained : pending s ≡ 0)
    (rank : ℕ → ℕ) (acyclic : IsRank g rank) where
  earlier_task :
      (u v : ℕ)
      → (0 < edges g u v → sum_of (is_task u) s.tasks ≡ 1)
      → edges g u v ≤ sum_of (is_task u) s.tasks * edges g u v
  earlier_task u v h = elim (ℕ_discrete (edges g u v) 0) [
    | yes z ↦ omega arith
    | no nz ↦ rw (h (omega arith)) (omega arith)
  ]

  all_have_tasks : (k v : ℕ) → rank v < k → v < g.size → sum_of (is_task v) s.tasks ≡ 1
  all_have_tasks zero v p q = absurd (omega arith)
  all_have_tasks (suc k) v p q = ground (
    arith,
    inv.once v q,
    inv.balance v,
    drained-left g v s.tasks drained,
    sum_by_node g.size (λ u. edges g u v) s.tasks inv.inside,
    sum_to_mono g.size (λ u. edges g u v) (λ u. sum_of (is_task u) s.tasks * edges g u v)
        (λ u pu.
          earlier_task u v (λ edge. all_have_tasks k u (omega (arith, acyclic u v pu edge)) pu)),
  )

  as_many_as_nodes : sum_of (λ _. 1) s.tasks ≡ g.size
  as_many_as_nodes =
      sum_by_node g.size (λ _. 1) s.tasks inv.inside
      ∙ sum_to-ext g.size (λ u. sum_of (is_task u) s.tasks * 1) (λ _. 1)
          (λ u p. omega (arith, all_have_tasks (suc (rank u)) u (omega arith) p))
      ∙ sum_to-ones g.size

module _ {g : TaskGraph} {s : Exec} (built : IsBuilt g) (rank : ℕ → ℕ) (acyclic : IsRank g rank)
    (r : Reach g s) (drained : pending s ≡ 0) where
  -- For a graph that the build phase left and that has no cycle: in every state that a run of it
  -- can reach and where no task is pending, the callable of each node was called exactly once and
  -- returned exactly once.
  pub drained-ran_once : (v : ℕ) → v < g.size → (count v s.started ≡ 1) × (count v s.finished ≡ 1)
  drained-ran_once v p =
      let inv = Reach-Inv built r in
      let a = all_have_tasks built inv drained rank acyclic (suc (rank v)) v (omega arith) p in
      let b = started-le inv v in
      let c = finished-le inv v in
      let d = drained-past_fn v s.tasks drained in
      let e = inv.returned v in (omega arith, omega arith)

  -- For a graph that the build phase left and that has no cycle: where a run of it has no task
  -- pending, `remaining_nodes_` is zero, so that the assertion after `run` holds.
  pub drained-remaining_nodes : s.graph.remaining_nodes ≡ 0
  drained-remaining_nodes =
      let inv = Reach-Inv built r in
      omega (
        arith,
        inv.remaining,
        as_many_as_nodes built inv drained rank acyclic,
        drained-done s.tasks drained,
      )

-- A set of nodes in which each has a predecessor, as the nodes of a cycle are.
pub record IsStuck {κ} (g : TaskGraph) (C : ℕ → Type κ) : Type κ where
  pub inside : (v : ℕ) → C v → v < g.size
  pub pred : (v : ℕ) → C v → ℕ
  pub pred_in : (v : ℕ) (c : C v) → C (pred v c)
  pub edge : (v : ℕ) (c : C v) → 0 < edges g (pred v c) v

module _ {κ} {g : TaskGraph} (built : IsBuilt g) {C : ℕ → Type κ} (stuck : IsStuck g C) where
  never_ready :
      {s : Exec}
      → Inv g s
      → ((v : ℕ) → C v → count v s.started ≡ 0)
      → (v : ℕ) → C v
      → sum_of (is_task v) s.tasks ≡ 0
  never_ready {s} inv none_began v c = elim (ℕ_discrete (sum_of (is_task v) s.tasks) 0) [
    | yes z ↦ z
    | no nz ↦
        let u = stuck.pred v c in
        let cu = stuck.pred_in v c in
        let (p, zero_deps) = task-ready built inv v (omega arith) in
        absurd (
          omega (
            arith,
            ready-finished built inv u v (stuck.inside u cu) zero_deps (stuck.edge v c),
            finished-le inv u,
            none_began u cu,
          ))
  ]

  nothing_started : (v : ℕ) → count v (begin g).started ≡ 0
  unfolding begin execute
  nothing_started v = refl

  none_begin :
      {s : Exec}
      → Inv g s
      → ((v : ℕ) → C v → count v s.started ≡ 0)
      → (before : List Instance) (n : ℕ) (p : Phase) (after : List Instance)
      → s.tasks ≡ before ++ record { node = n; phase = p } ∷ after
      → (v : ℕ) → C v
      → count v (advance s before n p after).started ≡ 0
  unfolding advance
  none_begin inv none before n queued after e v c = ground (
    arith,
    none v c,
    never_ready inv none v c,
    ap (sum_of (is_task v)) e,
    sum_of-split (is_task v) before (record { node = n; phase = queued }) after,
  )
  none_begin inv none before n in_fn after e v c = none v c
  none_begin inv none before n (decrementing []) after e v c = none v c
  none_begin inv none before n (decrementing (x ∷ rest)) after e v c = none v c
  none_begin inv none before n done after e v c = none v c

  none_began : {s : Exec} → Reach g s → (v : ℕ) → C v → count v s.started ≡ 0
  none_began here v c = nothing_started v
  none_began (next r (turn before n p after e)) v c =
      none_begin (Reach-Inv built r) (none_began r) before n p after e v c

  -- For a graph that the build phase left, with a set of its nodes in which each has a predecessor
  -- (such as a cycle): in every state that a run can reach, no callable of a node of the set was
  -- called, and `remaining_nodes_` is not zero, so that the assertion after `run` fails.
  pub stuck-never_run :
      {s : Exec}
      → Reach g s
      → (v : ℕ) → C v
      → (count v s.started ≡ 0) × (s.graph.remaining_nodes ≢ 0)
  stuck-never_run {s} r v c = (
    none_began r v c,
    λ z. omega (
      arith,
      inv.remaining,
      sum_of_mono is_done (λ _. 1) (λ i. ground arith) s.tasks,
      sum_by_node g.size (λ _. 1) s.tasks inv.inside,
      sum_to-ones g.size,
      sum_to-gap g.size (λ u. sum_of (is_task u) s.tasks * 1) (λ _. 1) v 1
          (λ u p. omega (arith, at_most_one built inv u)) (stuck.inside v c)
          (omega (arith, never_ready inv (none_began r) v c)),
    ),
  )
    where
      inv : Inv g s
      inv = Reach-Inv built r

-- ===== src/Dag/Invariant.antt =====
-- include/task_graph.hpp: the counters of a running graph against what its tasks have done.
pub mod Advance
pub mod Begin
use lock_free_work_stealing.Base.{
  ℕ, zero, suc, ◌+◌, ◌*◌, ◌^◌, ◌≤◌, ◌<◌, ◌≡◌, refl, sym, ◌∙◌, subst, arith, List, [], ◌∷◌, ◌++◌,
  length, count, ◌==◌, dec_lt, if◌then◌else◌, sum_to, sum_of, sum_to_mono, sum_to-ones,
}
use lock_free_work_stealing.Dag.{DagNode, TaskGraph}
use lock_free_work_stealing.Dag.Run.{Instance, Exec}
use lock_free_work_stealing.Dag.Weights.{
  edges, in_degree, is_task, has_begun, is_past_fn, is_done, all_decrements, decrements_left,
  sum_by_node,
}

-- What the build phase leaves: each counter is the number of edges to its node, edges lead to
-- nodes of the graph, and the counters fit their types.
pub record IsBuilt (g : TaskGraph) : Type 0 where
  pub counted : (v : ℕ) → (g.nodes v).deps_remaining ≡ in_degree g v
  pub closed : (v : ℕ) → g.size ≤ v → in_degree g v ≡ 0
  pub few : (v : ℕ) → in_degree g v < 2 ^ 31
  pub small : g.size < 2 ^ 63

-- `once`: a node of the graph has a task exactly if its counter is zero, and then one.
pub record Inv (g : TaskGraph) (s : Exec) : Type 0 where
  pub same : (u : ℕ) → (s.graph.nodes u).successors ≡ (g.nodes u).successors
  pub balance :
      (v : ℕ)
      → (s.graph.nodes v).deps_remaining + sum_of (all_decrements g v) s.tasks
        ≡ in_degree g v + sum_of (decrements_left g v) s.tasks
  pub fewer : (v : ℕ) → sum_of (decrements_left g v) s.tasks ≤ sum_of (all_decrements g v) s.tasks
  pub once :
      (v : ℕ)
      → v < g.size
      → sum_of (is_task v) s.tasks ≡ (if (s.graph.nodes v).deps_remaining == 0 then 1 else 0)
  pub inside : (v : ℕ) → g.size ≤ v → sum_of (is_task v) s.tasks ≡ 0
  pub begun : (v : ℕ) → count v s.started ≡ sum_of (has_begun v) s.tasks
  pub returned : (v : ℕ) → count v s.finished ≡ sum_of (is_past_fn v) s.tasks
  pub remaining : s.graph.remaining_nodes + sum_of is_done s.tasks ≡ g.size

module _ {g : TaskGraph} {s : Exec} (built : IsBuilt g) (inv : Inv g s) where
  pub at_most_one : (u : ℕ) → sum_of (is_task u) s.tasks ≤ 1
  at_most_one u = elim (dec_lt u g.size) [
    | yes p ↦ ground (arith, inv.once u p)
    | no p ↦ omega (arith, inv.inside u)
  ]

  -- No more decrements of `v` are ever made than edges lead to it.
  pub all_decrements-le : (v : ℕ) → sum_of (all_decrements g v) s.tasks ≤ in_degree g v
  all_decrements-le v =
      subst (λ k. k ≤ in_degree g v)
        (sym (sum_by_node g.size (λ u. edges g u v) s.tasks inv.inside))
        (sum_to_mono g.size (λ u. sum_of (is_task u) s.tasks * edges g u v) (λ u. edges g u v)
          (λ u p. grind (arith, at_most_one u)))

  pub deps_remaining-le : (v : ℕ) → (s.graph.nodes v).deps_remaining ≤ in_degree g v
  deps_remaining-le v = omega (arith, inv.balance v, inv.fewer v)

  -- There are at most as many tasks as nodes.
  pub tasks-le : sum_of (λ _. 1) s.tasks ≤ g.size
  tasks-le =
      subst (λ k. k ≤ g.size) (sym (sum_by_node g.size (λ _. 1) s.tasks inv.inside))
        (omega (
          arith,
          sum_to_mono g.size (λ u. sum_of (is_task u) s.tasks * 1) (λ _. 1)
              (λ u p. omega (arith, at_most_one u)),
          sum_to-ones g.size,
        ))

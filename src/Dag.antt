-- ===== src/Dag.antt =====
-- include/task_graph.hpp: nodes with dependency counters, how a graph is built, and what `execute`
-- submits to a scheduler.
pub mod Run
pub mod Weights
pub mod Moves
pub mod Invariant
pub mod Drained
pub mod Ready
pub mod Order
pub mod Build
pub mod Progress
mod Tests
use lock_free_work_stealing.Base.{
  ℕ, zero, suc, ◌+◌, ◌-◌, ◌%◌, ◌^◌, Bool, true, false, Option, none, some, List, [], ◌∷◌, ◌++◌,
  ◌==◌, if◌then◌else◌, update,
}

-- The counter is an `int32_t`; a successor is named by its place in `nodes_`.
pub record DagNode : Type 0 where
  pub deps_remaining : ℕ
  pub successors : List ℕ

-- `nodes_[i]` is `nodes i` for `i` below the size. The user's callables are left out: what a node
-- runs touches nothing of the graph.
pub record TaskGraph : Type 0 where
  pub nodes : ℕ → DagNode
  pub size : ℕ
  pub remaining_nodes : ℕ
  pub executing : Bool

abbrev pub fresh_node : DagNode
fresh_node = record { deps_remaining = 0; successors = [] }

abbrev pub empty_graph : TaskGraph
empty_graph = record { nodes = λ _. fresh_node; size = 0; remaining_nodes = 0; executing = false }

-- `fetch_add(1)` and `fetch_sub(1)` on an `int32_t`, and `fetch_sub(1)` on an `int64_t`
unfoldable pub inc32 : ℕ → ℕ
inc32 n = (n + 1) % 2 ^ 32

unfoldable pub dec32 : ℕ → ℕ
dec32 n = (n + 2 ^ 32 - 1) % 2 ^ 32

unfoldable pub dec64 : ℕ → ℕ
dec64 n = (n + 2 ^ 64 - 1) % 2 ^ 64

-- `TaskGraph::node`: the new graph and the place of the new node; none is the failed assertion.
unfoldable pub node : TaskGraph → Option (TaskGraph × ℕ)
node g =
    if g.executing
    then none
    else some (record g { nodes = update g.nodes g.size fresh_node; size = g.size + 1 }, g.size)

-- `n.depends_on(pred)`
unfoldable pub depends_on : TaskGraph → ℕ → ℕ → TaskGraph
depends_on g n pred =
    let linked =
      update g.nodes pred
        (record (g.nodes pred) { successors = (g.nodes pred).successors ++ n ∷ [] }) in
    record g {
      nodes =
          update linked n (record (linked n) { deps_remaining = inc32 (linked n).deps_remaining });
    }

-- `n.depends_on(p1, p2, …)`
unfoldable pub depends_on_all : TaskGraph → ℕ → List ℕ → TaskGraph
depends_on_all g n [] = g
depends_on_all g n (p ∷ ps) = depends_on_all (depends_on g n p) n ps

-- The loop of `execute` over `nodes_`: the places from `i` on, `k` of them, that have no
-- dependency left.
unfoldable pub roots_from : TaskGraph → ℕ → ℕ → List ℕ
roots_from g zero i = []
roots_from g (suc k) i =
    let rest = roots_from g k (i + 1) in if (g.nodes i).deps_remaining == 0 then i ∷ rest else rest

-- What `execute` does before it calls `run`: the nodes that it submits, in order, and the graph.
unfoldable pub execute : TaskGraph → TaskGraph × List ℕ
unfolding roots_from
execute g =
    (record g { executing = true; remaining_nodes = g.size % 2 ^ 64 }, roots_from g g.size 0)

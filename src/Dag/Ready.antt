-- ===== src/Dag/Ready.antt =====
-- include/task_graph.hpp: what is known of a reachable state, and of a node whose counter is zero.
use lock_free_work_stealing.Base.{
  ℕ, ◌+◌, ◌*◌, ◌≤◌, ◌<◌, ◌≡◌, refl, sym, subst, arith, List, [], ◌∷◌, count, dec_lt, sum_of,
  sum_of_mono, sum_to-gap, ℕ_discrete,
}
use lock_free_work_stealing.Dag.{TaskGraph}
use lock_free_work_stealing.Dag.Run.{Instance, Exec, turn, Reach, here, next}
use lock_free_work_stealing.Dag.Weights.{
  edges, in_degree, is_task, has_begun, is_past_fn, all_decrements, decrements_left, sum_by_node,
}
use lock_free_work_stealing.Dag.Invariant.{IsBuilt, Inv, at_most_one, all_decrements-le}
use lock_free_work_stealing.Dag.Invariant.Advance.{advance-Inv}
use lock_free_work_stealing.Dag.Invariant.Begin.{begin-Inv}

pub Reach-Inv : {g : TaskGraph} {s : Exec} → IsBuilt g → Reach g s → Inv g s
Reach-Inv {g} built here = begin-Inv g built
Reach-Inv built (next r (turn before n p after e)) =
    advance-Inv built (Reach-Inv built r) before n after p e

sum_of-add :
    {A : Type 0} (w z : A → ℕ) (xs : List A)
    → sum_of (λ a. w a + z a) xs ≡ sum_of w xs + sum_of z xs
unfolding sum_of
sum_of-add w z [] = refl
sum_of-add w z (x ∷ xs) = omega (arith, sum_of-add w z xs)

module _ {g : TaskGraph} {s : Exec} (inv : Inv g s) where
  pub started-le : (v : ℕ) → count v s.started ≤ sum_of (is_task v) s.tasks
  started-le v =
      omega (arith, inv.begun v, sum_of_mono (has_begun v) (is_task v) (λ i. ground arith) s.tasks)

  pub finished-le : (v : ℕ) → count v s.finished ≤ count v s.started
  finished-le v = omega (
    arith,
    inv.begun v,
    inv.returned v,
    sum_of_mono (is_past_fn v) (has_begun v) (λ i. ground arith) s.tasks,
  )

  -- A task of a node that has no decrement of `v` left, where there is an edge to `v`, is past the
  -- user's callable.
  pub past_fn-le :
      (u v : ℕ)
      → 0 < edges g u v
      → sum_of (is_task u) s.tasks ≤ count u s.finished + sum_of (decrements_left g v) s.tasks
  past_fn-le u v edge = omega (
    arith,
    inv.returned u,
    sum_of-add (is_past_fn u) (decrements_left g v) s.tasks,
    sum_of_mono (is_task u) (λ i. is_past_fn u i + decrements_left g v i) each s.tasks,
  )
    where
      each : (i : Instance) → is_task u i ≤ is_past_fn u i + decrements_left g v i
      each i = elim (ℕ_discrete i.node u) [
        | yes e ↦ ground (arith, subst (λ k. 0 < edges g k v) (sym e) edge)
        | no ne ↦ ground arith
      ]

module _ {g : TaskGraph} {s : Exec} (built : IsBuilt g) (inv : Inv g s) where
  -- If all decrements of `v` were due, each node with an edge to `v` has a task.
  pub all_due-task :
      (u v : ℕ)
      → u < g.size
      → 0 < edges g u v
      → in_degree g v ≤ sum_of (all_decrements g v) s.tasks
      → 0 < sum_of (is_task u) s.tasks
  all_due-task u v p edge full = elim (ℕ_discrete (sum_of (is_task u) s.tasks) 0) [
    | yes z ↦ absurd (
        omega (
          arith,
          sum_by_node g.size (λ k. edges g k v) s.tasks inv.inside,
          sum_to-gap g.size (λ k. sum_of (is_task k) s.tasks * edges g k v) (λ k. edges g k v) u 1
              (λ k q. grind (arith, at_most_one built inv k)) p (rw z (omega arith)),
        ))
    | no nz ↦ omega arith
  ]

  pub ready-finished :
      (u v : ℕ)
      → u < g.size
      → (s.graph.nodes v).deps_remaining ≡ 0
      → 0 < edges g u v
      → count u s.finished ≡ 1
  ready-finished u v p zero_deps edge = omega (
    arith,
    inv.balance v,
    all_decrements-le built inv v,
    all_due-task u v p edge (omega (arith, inv.balance v)),
    past_fn-le inv u v edge,
    finished-le inv u,
    started-le inv u,
    at_most_one built inv u,
  )

  -- A node that has a task is in the graph and its counter is zero.
  pub task-ready :
      (v : ℕ)
      → 0 < sum_of (is_task v) s.tasks
      → (v < g.size) × ((s.graph.nodes v).deps_remaining ≡ 0)
  task-ready v some_task = elim (dec_lt v g.size) [
    | yes p ↦ (p, ground (arith, inv.once v p))
    | no p ↦ absurd (omega (arith, inv.inside v))
  ]

-- ===== src/Dag/Moves.antt =====
-- include/task_graph.hpp: sums over the tasks before and after an action of one of them.
use lock_free_work_stealing.Base.{
  ℕ, ◌+◌, ◌≡◌, ap, arith, List, [], ◌∷◌, ◌++◌, ◌==◌, if◌then◌else◌, sum_of, sum_of-append,
}
use lock_free_work_stealing.Dag.Run.{Phase, decrementing, Instance, Exec, submit_node}
use lock_free_work_stealing.Dag.Weights.{sum_of-split, sum_of-optional}

module _ (s : Exec) (before : List Instance) (n : ℕ) (after : List Instance) where
  -- Sums when the task in the middle changes its phase.
  pub moved :
      (p p' : Phase)
      → s.tasks ≡ before ++ record { node = n; phase = p } ∷ after
      → (w : Instance → ℕ)
      → sum_of w s.tasks + w (record { node = n; phase = p' })
        ≡ sum_of w (before ++ record { node = n; phase = p' } ∷ after)
          + w (record { node = n; phase = p })
  moved p p' e w = omega (
    arith,
    ap (sum_of w) e,
    sum_of-split w before (record { node = n; phase = p }) after,
    sum_of-split w before (record { node = n; phase = p' }) after,
  )

  -- Sums when it has decremented the counter of `v`, and `v` may have become ready.
  pub spawned :
      (v : ℕ) (rest : List ℕ)
      → s.tasks ≡ before ++ record { node = n; phase = decrementing (v ∷ rest) } ∷ after
      → (w : Instance → ℕ)
      → sum_of w s.tasks
          + w (record { node = n; phase = decrementing rest })
          + (if (s.graph.nodes v).deps_remaining == 1 then w (submit_node v) else 0)
        ≡ sum_of w (
            before
            ++ record { node = n; phase = decrementing rest } ∷ after
            ++ (if (s.graph.nodes v).deps_remaining == 1 then submit_node v ∷ [] else []))
          + w (record { node = n; phase = decrementing (v ∷ rest) })
  spawned v rest e w =
      let new : Instance = record { node = n; phase = decrementing rest } in
      let ready = (s.graph.nodes v).deps_remaining == 1 in
      omega (
        arith,
        ap (sum_of w) e,
        sum_of-split w before (record { node = n; phase = decrementing (v ∷ rest) }) after,
        sum_of-split w before new after,
        sum_of-append w (before ++ new ∷ after) (if ready then submit_node v ∷ [] else []),
        sum_of-optional w ready (submit_node v),
      )

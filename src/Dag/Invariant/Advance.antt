-- ===== src/Dag/Invariant/Advance.antt =====
-- include/task_graph.hpp: every action of a task keeps the counters right.
use lock_free_work_stealing.Base.{
  ℕ, ◌+◌, ◌^◌, ◌≤◌, ◌<◌, ◌≡◌, ap, arith, List, [], ◌∷◌, ◌++◌, ◌==◌, if◌then◌else◌, dec_lt, sum_of,
  sum_of_mono,
}
use lock_free_work_stealing.Dag.{TaskGraph, dec32, dec64}
use lock_free_work_stealing.Dag.Run.{
  Phase, queued, in_fn, decrementing, done, Instance, Exec, submit_node, decrement, advance,
}
use lock_free_work_stealing.Dag.Weights.{
  is_task, has_begun, is_past_fn, is_done, all_decrements, decrements_left, sum_of-split,
}
use lock_free_work_stealing.Dag.Moves.{moved, spawned}
use lock_free_work_stealing.Dag.Invariant.{
  IsBuilt, Inv, all_decrements-le, deps_remaining-le, tasks-le,
}

dec64-pred : (n : ℕ) → 0 < n → n < 2 ^ 63 → dec64 n + 1 ≡ n
unfolding dec64
dec64-pred n p q = omega arith

dec32-pred : (n : ℕ) → 0 < n → n < 2 ^ 31 → dec32 n + 1 ≡ n
unfolding dec32
dec32-pred n p q = omega arith

is_done-le : (i : Instance) → is_done i ≤ 1
is_done-le i = ground arith

module _ {g : TaskGraph} {s : Exec} (built : IsBuilt g) (inv : Inv g s) (before : List Instance)
    (n : ℕ) (after : List Instance) where
  queued-Inv :
      s.tasks ≡ before ++ record { node = n; phase = queued } ∷ after
      → Inv g (advance s before n queued after)
  unfolding advance
  queued-Inv e = record {
    same = inv.same;
    balance = λ v. omega (arith, inv.balance v, m (all_decrements g v), m (decrements_left g v));
    fewer = λ v. omega (arith, inv.fewer v, m (all_decrements g v), m (decrements_left g v));
    once = λ v p. let q = m (is_task v) in let o = inv.once v p in omega arith;
    inside = λ v p. omega (arith, inv.inside v p, m (is_task v));
    begun = λ v. let q = m (has_begun v) in let b = inv.begun v in ground arith;
    returned = λ v. omega (arith, inv.returned v, m (is_past_fn v));
    remaining = omega (arith, inv.remaining, m is_done);
  }
    where
      m :
          (w : Instance → ℕ)
          → sum_of w s.tasks + w (record { node = n; phase = in_fn })
            ≡ sum_of w (before ++ record { node = n; phase = in_fn } ∷ after)
              + w (record { node = n; phase = queued })
      m = moved s before n after queued in_fn e

  in_fn-Inv :
      s.tasks ≡ before ++ record { node = n; phase = in_fn } ∷ after
      → Inv g (advance s before n in_fn after)
  unfolding advance
  in_fn-Inv e = rw (inv.same n) (record {
    same = inv.same;
    balance = λ v. omega (arith, inv.balance v, m (all_decrements g v), m (decrements_left g v));
    fewer = λ v. omega (arith, inv.fewer v, m (all_decrements g v), m (decrements_left g v));
    once = λ v p. let q = m (is_task v) in let o = inv.once v p in omega arith;
    inside = λ v p. omega (arith, inv.inside v p, m (is_task v));
    begun = λ v. omega (arith, inv.begun v, m (has_begun v));
    returned = λ v. let q = m (is_past_fn v) in let b = inv.returned v in ground arith;
    remaining = omega (arith, inv.remaining, m is_done);
  })
    where
      m :
          (w : Instance → ℕ)
          → sum_of w s.tasks + w (record { node = n; phase = decrementing (g.nodes n).successors })
            ≡ sum_of w
                (before ++ record { node = n; phase = decrementing (g.nodes n).successors } ∷ after)
              + w (record { node = n; phase = in_fn })
      m = moved s before n after in_fn (decrementing (g.nodes n).successors) e

  finish-Inv :
      s.tasks ≡ before ++ record { node = n; phase = decrementing [] } ∷ after
      → Inv g (advance s before n (decrementing []) after)
  unfolding advance
  finish-Inv e = record {
    same = inv.same;
    balance = λ v. omega (arith, inv.balance v, m (all_decrements g v), m (decrements_left g v));
    fewer = λ v. omega (arith, inv.fewer v, m (all_decrements g v), m (decrements_left g v));
    once = λ v p. let q = m (is_task v) in let o = inv.once v p in omega arith;
    inside = λ v p. omega (arith, inv.inside v p, m (is_task v));
    begun = λ v. omega (arith, inv.begun v, m (has_begun v));
    returned = λ v. omega (arith, inv.returned v, m (is_past_fn v));
    remaining = omega (
      arith,
      inv.remaining,
      m is_done,
      dec64-pred s.graph.remaining_nodes
          (omega (arith, inv.remaining, unfinished, tasks-le built inv))
          (omega (arith, inv.remaining, built.small)),
    );
  }
    where
      m :
          (w : Instance → ℕ)
          → sum_of w s.tasks + w (record { node = n; phase = done })
            ≡ sum_of w (before ++ record { node = n; phase = done } ∷ after)
              + w (record { node = n; phase = decrementing [] })
      m = moved s before n after (decrementing []) done e

      below : (xs : List Instance) → sum_of is_done xs ≤ sum_of (λ _. 1) xs
      below = sum_of_mono is_done (λ _. 1) is_done-le

      unfinished : sum_of is_done s.tasks < sum_of (λ _. 1) s.tasks
      unfinished = omega (
        arith,
        ap (sum_of is_done) e,
        ap (sum_of (λ _. 1)) e,
        sum_of-split is_done before (record { node = n; phase = decrementing [] }) after,
        sum_of-split (λ _. 1) before (record { node = n; phase = decrementing [] }) after,
        below before,
        below after,
      )

  decrement-Inv :
      (v : ℕ) (rest : List ℕ)
      → s.tasks ≡ before ++ record { node = n; phase = decrementing (v ∷ rest) } ∷ after
      → Inv g (advance s before n (decrementing (v ∷ rest)) after)
  unfolding advance decrement
  decrement-Inv v rest e = record {
    same = λ u. ground (arith, inv.same u);
    balance =
        λ u. ground (arith, inv.balance u, m (all_decrements g u), m (decrements_left g u), pred);
    fewer = λ u. ground (arith, inv.fewer u, m (all_decrements g u), m (decrements_left g u));
    once = λ u p. ground (arith, inv.once u p, m (is_task u), pred);
    inside = λ u p. ground (arith, inv.inside u p, m (is_task u), inside_graph);
    begun = λ u. ground (arith, inv.begun u, m (has_begun u));
    returned = λ u. ground (arith, inv.returned u, m (is_past_fn u));
    remaining = ground (arith, inv.remaining, m is_done);
  }
    where
      deps : ℕ
      deps = (s.graph.nodes v).deps_remaining

      old : Instance
      old = record { node = n; phase = decrementing (v ∷ rest) }

      new : Instance
      new = record { node = n; phase = decrementing rest }

      m :
          (w : Instance → ℕ)
          → sum_of w s.tasks + w new + (if deps == 1 then w (submit_node v) else 0)
            ≡ sum_of w (before ++ new ∷ after ++ (if deps == 1 then submit_node v ∷ [] else []))
              + w old
      m = spawned s before n after v rest e

      left : 0 < sum_of (decrements_left g v) s.tasks
      left = ground (
        arith,
        ap (sum_of (decrements_left g v)) e,
        sum_of-split (decrements_left g v) before old after,
      )

      pos : 0 < deps
      pos = omega (arith, left, inv.balance v, all_decrements-le built inv v)

      pred : dec32 deps + 1 ≡ deps
      pred = dec32-pred deps pos (omega (arith, deps_remaining-le built inv v, built.few v))

      inside_graph : v < g.size
      inside_graph = elim (dec_lt v g.size) [
        | yes p ↦ p
        | no p ↦ absurd (
            omega (
              arith,
              left,
              inv.fewer v,
              all_decrements-le built inv v,
              built.closed v (omega arith),
            ))
      ]

  pub advance-Inv :
      (p : Phase)
      → s.tasks ≡ before ++ record { node = n; phase = p } ∷ after
      → Inv g (advance s before n p after)
  unfolding advance
  advance-Inv queued e = queued-Inv e
  advance-Inv in_fn e = in_fn-Inv e
  advance-Inv (decrementing []) e = finish-Inv e
  advance-Inv (decrementing (v ∷ rest)) e = decrement-Inv v rest e
  advance-Inv done e = inv

-- ===== src/Dag/Invariant/Begin.antt =====
-- include/task_graph.hpp: the tasks that `execute` submits before it calls `run`.
use lock_free_work_stealing.Base.{
  ℕ, zero, suc, ◌+◌, ◌≤◌, ◌<◌, ◌≡◌, refl, sym, ◌∙◌, arith, if◌then◌else◌, List, [], ◌∷◌, map, ◌==◌,
  ℕ_discrete, sum_of, arith,
}
use lock_free_work_stealing.Dag.{TaskGraph, roots_from, execute}
use lock_free_work_stealing.Dag.Run.{Instance, submit_node, begin}
use lock_free_work_stealing.Dag.Weights.{
  is_task, has_begun, is_past_fn, is_done, all_decrements, decrements_left,
}
use lock_free_work_stealing.Dag.Invariant.{IsBuilt, Inv}

module _ (w z : Instance → ℕ) where
  sum_of-fresh :
      ((n : ℕ) → w (submit_node n) ≡ z (submit_node n))
      → (ns : List ℕ) → sum_of w (map submit_node ns) ≡ sum_of z (map submit_node ns)
  unfolding sum_of
  sum_of-fresh h [] = refl
  sum_of-fresh h (n ∷ ns) = omega (arith, h n, sum_of-fresh h ns)

sum_of-nothing : {A : Type 0} (xs : List A) → sum_of (λ _. 0) xs ≡ 0
unfolding sum_of
sum_of-nothing [] = refl
sum_of-nothing (x ∷ xs) = omega (arith, sum_of-nothing xs)

module _ (g : TaskGraph) (v : ℕ) where
  -- The loop submits nothing outside its range, and in it one task for each node without
  -- dependencies.
  roots_from-before :
      (k i : ℕ) → v < i → sum_of (is_task v) (map submit_node (roots_from g k i)) ≡ 0
  unfolding roots_from sum_of
  roots_from-before zero i p = refl
  roots_from-before (suc k) i p = elim (ℕ_discrete (g.nodes i).deps_remaining 0) [
    | yes e ↦ ground (arith, e, roots_from-before k (i + 1) (omega arith))
    | no ne ↦ ground (arith, ne, roots_from-before k (i + 1) (omega arith))
  ]

  roots_from-after :
      (k i : ℕ) → i + k ≤ v → sum_of (is_task v) (map submit_node (roots_from g k i)) ≡ 0
  unfolding roots_from sum_of
  roots_from-after zero i p = refl
  roots_from-after (suc k) i p = elim (ℕ_discrete (g.nodes i).deps_remaining 0) [
    | yes e ↦ ground (arith, e, roots_from-after k (i + 1) (omega arith))
    | no ne ↦ ground (arith, ne, roots_from-after k (i + 1) (omega arith))
  ]

  roots_from-once :
      (k i : ℕ)
      → i ≤ v
      → v < i + k
      → sum_of (is_task v) (map submit_node (roots_from g k i))
        ≡ (if (g.nodes v).deps_remaining == 0 then 1 else 0)
  unfolding roots_from sum_of
  roots_from-once zero i p q = absurd (omega arith)
  roots_from-once (suc k) i p q = elim (ℕ_discrete i v) [
    | yes e ↦ rw e (ground (arith, roots_from-before k (v + 1) (omega arith)))
    | no ne ↦
        let r = roots_from-once k (i + 1) (omega arith) (omega arith) in
        elim (ℕ_discrete (g.nodes i).deps_remaining 0) [
          | yes z ↦ ground (arith, z, r, ne)
          | no nz ↦ ground (arith, nz, r, ne)
        ]
  ]

pub begin-Inv : (g : TaskGraph) → IsBuilt g → Inv g (begin g)
unfolding begin execute
begin-Inv g built = record {
  same = λ u. refl;
  balance = λ v. omega (
    arith,
    built.counted v,
    sum_of-fresh (all_decrements g v) (decrements_left g v) (λ n. refl) roots,
  );
  fewer =
      λ v. omega (arith, sum_of-fresh (all_decrements g v) (decrements_left g v) (λ n. refl) roots);
  once = λ v p. roots_from-once g v g.size 0 (omega arith) (omega arith);
  inside = λ v p. roots_from-after g v g.size 0 (omega arith);
  begun = λ v. sym (
      sum_of-fresh (has_begun v) (λ _. 0) (λ n. refl) roots
      ∙ sum_of-nothing (map submit_node roots));
  returned = λ v. sym (
      sum_of-fresh (is_past_fn v) (λ _. 0) (λ n. refl) roots
      ∙ sum_of-nothing (map submit_node roots));
  remaining = omega (
    arith,
    built.small,
    sum_of-fresh is_done (λ _. 0) (λ n. refl) roots,
    sum_of-nothing (map submit_node roots),
  );
}
  where
    roots : List ℕ
    roots = roots_from g g.size 0

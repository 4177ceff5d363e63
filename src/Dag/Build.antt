-- ===== src/Dag/Build.antt =====
-- include/task_graph.hpp: the build phase leaves counters that are the numbers of incoming edges.
use lock_free_work_stealing.Base.{
  ℕ, suc, ◌+◌, ◌*◌, ◌^◌, ◌<◌, ◌≡◌, refl, sym, ◌∙◌, ap, ap₂, subst, arith, List, [], ◌∷◌, ◌++◌,
  count, if◌then◌else◌, update, update_ind, update_self, update_ne, Bool, sum_to, sum_to-ext,
  sum_to-add, sum_to-single, one_if_eq, none, some, true, false,
}
use lock_free_work_stealing.Dag.{
  DagNode, TaskGraph, fresh_node, empty_graph, inc32, node, depends_on,
}
use lock_free_work_stealing.Dag.Weights.{edges, in_degree}
use lock_free_work_stealing.Dag.Invariant.{IsBuilt}

-- The graphs that calls of `node` and of `depends_on` on nodes of the graph can make.
pub data Build : TaskGraph → Type 0 where
  empty : Build empty_graph
  add : {g g' : TaskGraph} (i : ℕ) → Build g → node g ≡ some (g', i) → Build g'
  link :
      {g : TaskGraph} (n pred : ℕ)
      → Build g
      → n < g.size
      → pred < g.size
      → Build (depends_on g n pred)

count-append : (v : ℕ) (xs ys : List ℕ) → count v (xs ++ ys) ≡ count v xs + count v ys
count-append v [] ys = omega arith
count-append v (x ∷ xs) ys = ground (arith, count-append v xs ys)

pub edges-depends_on :
    (g : TaskGraph) (n pred u v : ℕ)
    → edges (depends_on g n pred) u v ≡ edges g u v + one_if_eq pred u * one_if_eq n v
unfolding depends_on
edges-depends_on g n pred u v =
    ap (count v) (
      update_ind linked (λ d. d.successors ≡ (linked u).successors) n u
        (record (linked n) { deps_remaining = inc32 (linked n).deps_remaining })
        (λ e. ap (λ k. (linked k).successors) e) (λ _. refl))
    ∙ update_ind g.nodes
        (λ d. count v d.successors ≡ edges g u v + one_if_eq pred u * one_if_eq n v) pred u
        (record (g.nodes pred) { successors = (g.nodes pred).successors ++ n ∷ [] })
        (λ e. rw (sym e) (ground (arith, count-append v (g.nodes pred).successors (n ∷ []))))
        (λ ne. ground arith)
  where
    linked : ℕ → DagNode
    linked =
        update g.nodes pred
          (record (g.nodes pred) { successors = (g.nodes pred).successors ++ n ∷ [] })

in_degree-depends_on :
    (g : TaskGraph) (n pred v : ℕ)
    → pred < g.size
    → in_degree (depends_on g n pred) v ≡ in_degree g v + one_if_eq n v
unfolding depends_on
in_degree-depends_on g n pred v p =
    sum_to-ext g.size (λ u. edges (depends_on g n pred) u v)
      (λ u. edges g u v + one_if_eq pred u * one_if_eq n v) (λ u q. edges-depends_on g n pred u v)
    ∙ sum_to-add g.size (λ u. edges g u v) (λ u. one_if_eq pred u * one_if_eq n v)
    ∙ ap (λ k. in_degree g v + k) (sum_to-single g.size pred (λ _. one_if_eq n v) p)

sum_to-step : (n : ℕ) (f : ℕ → ℕ) → sum_to (n + 1) f ≡ sum_to n f + f n
unfolding sum_to
sum_to-step n f = subst (λ m. sum_to m f ≡ sum_to n f + f n) (add_one n) refl
  where
    add_one : (n : ℕ) → suc n ≡ n + 1
    add_one n = omega arith

some-unless : {A : Type 0} (b : Bool) (x y : A) → (if b then none else some x) ≡ some y → x ≡ y
some-unless true x y e = absurd (ground (arith, e))
some-unless false x y e = ground (arith, e)

module _ (g : TaskGraph) where
  unfoldable pub grown : TaskGraph
  grown = record g { nodes = update g.nodes g.size fresh_node; size = g.size + 1 }

  -- `node`, where it does not fail, adds a node that no edge touches.
  pub node-grown : (g' : TaskGraph) (i : ℕ) → node g ≡ some (g', i) → grown ≡ g'
  unfolding node grown
  node-grown g' i e =
      ap (λ p. p.0) (some-unless {A = TaskGraph × ℕ} g.executing (grown, g.size) (g', i) e)

  in_degree-node : (v : ℕ) → in_degree grown v ≡ in_degree g v
  unfolding sum_to grown
  in_degree-node v =
      sum_to-step g.size (λ u. edges grown u v)
      ∙ ap₂ ◌+◌
          (sum_to-ext g.size (λ u. edges grown u v) (λ u. edges g u v)
            (λ u p.
              ap (λ d. count v d.successors)
                (update_ne g.nodes g.size u fresh_node (λ e. absurd (omega arith)))))
          (ap (λ d. count v d.successors) (update_self g.nodes g.size fresh_node))
      ∙ omega arith

  add-IsBuilt : IsBuilt g → grown.size < 2 ^ 63 → IsBuilt grown
  unfolding grown
  add-IsBuilt built fits = record {
    counted = λ v.
        update_ind g.nodes (λ d. d.deps_remaining ≡ in_degree grown v) g.size v fresh_node
          (λ e. sym (in_degree-node v ∙ built.closed v (omega arith)))
          (λ ne. built.counted v ∙ sym (in_degree-node v));
    closed = λ v p. in_degree-node v ∙ built.closed v (omega arith);
    few = λ v. omega (arith, in_degree-node v, built.few v);
    small = fits;
  }

  deps-depends_on :
      (n pred v : ℕ)
      → (g.nodes n).deps_remaining + 1 < 2 ^ 32
      → ((depends_on g n pred).nodes v).deps_remaining ≡ (g.nodes v).deps_remaining + one_if_eq n v
  unfolding depends_on inc32
  deps-depends_on n pred v fits =
      update_ind linked (λ d. d.deps_remaining ≡ (g.nodes v).deps_remaining + one_if_eq n v) n v
        (record (linked n) { deps_remaining = inc32 (linked n).deps_remaining })
        (λ e. rw (linked_deps n) (rw (sym e) (ground arith)))
        (λ ne. rw (linked_deps v) (ground arith))
    where
      linked : ℕ → DagNode
      linked =
          update g.nodes pred
            (record (g.nodes pred) { successors = (g.nodes pred).successors ++ n ∷ [] })

      linked_deps : (k : ℕ) → (linked k).deps_remaining ≡ (g.nodes k).deps_remaining
      linked_deps k =
          update_ind g.nodes (λ d. d.deps_remaining ≡ (g.nodes k).deps_remaining) pred k
            (record (g.nodes pred) { successors = (g.nodes pred).successors ++ n ∷ [] })
            (λ e. ap (λ m. (g.nodes m).deps_remaining) e) (λ _. refl)

  link-IsBuilt :
      (n pred : ℕ)
      → n < g.size
      → pred < g.size
      → IsBuilt g
      → ((v : ℕ) → in_degree (depends_on g n pred) v < 2 ^ 31)
      → IsBuilt (depends_on g n pred)
  unfolding depends_on
  link-IsBuilt n pred p q built fits = record {
    counted = λ v. omega (
      arith,
      deps-depends_on n pred v (omega (arith, built.counted n, built.few n)),
      built.counted v,
      in_degree-depends_on g n pred v q,
    );
    closed = λ v r. ground (arith, in_degree-depends_on g n pred v q, built.closed v r);
    few = fits;
    small = built.small;
  }

empty-IsBuilt : IsBuilt empty_graph
unfolding sum_to
empty-IsBuilt = record {
  counted = λ v. refl;
  closed = λ v p. refl;
  few = λ v. omega arith;
  small = omega arith;
}

-- What the build phase leaves, by any calls of `node` and of `depends_on` on nodes of the graph:
-- each counter is the number of edges to its node and edges lead to nodes of the graph, if the
-- number of nodes is below 2^63 and that of edges to a node below 2^31.
pub Build-IsBuilt :
    {g : TaskGraph} → Build g → g.size < 2 ^ 63 → ((v : ℕ) → in_degree g v < 2 ^ 31) → IsBuilt g
unfolding depends_on grown
Build-IsBuilt empty fits few = empty-IsBuilt
Build-IsBuilt (add {g} {g'} i b e) fits few =
    let same = node-grown g g' i e in
    let few' = subst (λ h. (v : ℕ) → in_degree h v < 2 ^ 31) (sym same) few in
    let fits' = subst (λ h. h.size < 2 ^ 63) (sym same) fits in
    subst IsBuilt same (
      add-IsBuilt g (Build-IsBuilt b (omega arith) (λ v. omega (arith, in_degree-node g v, few' v)))
        fits')
Build-IsBuilt (link {g} n pred b p q) fits few =
    link-IsBuilt g n pred p q
      (Build-IsBuilt b fits (λ v. omega (arith, in_degree-depends_on g n pred v q, few v))) few

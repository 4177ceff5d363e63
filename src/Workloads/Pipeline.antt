-- ===== src/Workloads/Pipeline.antt =====
-- bench/scaling.cpp: the graph that time_dag_workload builds.
use lock_free_work_stealing.Base.{
  ℕ, zero, suc, ◌+◌, ◌*◌, ◌≤◌, ◌<◌, ◌≡◌, ◌∙◌, refl, sym, ap, subst, arith, Bool, true, false,
  Option, none, some, List, [], ◌∷◌, ◌++◌, ◌>>=◌, count, if◌then◌else◌, update, ℕ_discrete,
  update_ind,
}
use lock_free_work_stealing.Dag.{
  TaskGraph, empty_graph, fresh_node, node, depends_on, depends_on_all,
}
use lock_free_work_stealing.Dag.Weights.{edges}
use lock_free_work_stealing.Dag.Build.{Build, empty, add, link, edges-depends_on}

-- The loop over `w`, `k` rounds of it: the graph and `cur_stage`.
unfoldable pub add_stage : ℕ → TaskGraph → List ℕ → List ℕ → Option (TaskGraph × List ℕ)
unfolding node depends_on_all
add_stage zero g prev_stage cur_stage = some (g, cur_stage)
add_stage (suc k) g prev_stage cur_stage = do
  (g', n) ← node g
  add_stage k (depends_on_all g' n prev_stage) prev_stage (cur_stage ++ n ∷ [])

-- The loop over `d`
unfoldable pub add_stages : ℕ → ℕ → TaskGraph → List ℕ → Option (TaskGraph × List ℕ)
unfolding add_stage
add_stages zero width g prev_stage = some (g, prev_stage)
add_stages (suc depth) width g prev_stage = do
  (g', cur_stage) ← add_stage width g prev_stage []
  add_stages depth width g' cur_stage

-- The graph of `time_dag_workload`
abbrev pub pipeline : ℕ → ℕ → Option (TaskGraph × List ℕ)
unfolding add_stages
pipeline width depth = add_stages depth width empty_graph []

-- The graph is one of the build phase, has the given size, and its edges lead to later nodes.
pub record Forward (g : TaskGraph) (size : ℕ) : Type 0 where
  pub built : Build g
  pub size_is : g.size ≡ size
  pub building : g.executing ≡ false
  pub forward : (u v : ℕ) → 0 < edges g u v → u < v

-- The places in a list are below a bound.
abbrev pub AllBelow : ℕ → List ℕ → Type 0
AllBelow n [] = 0 ≤ 0
AllBelow n (x ∷ xs) = (x < n) × AllBelow n xs

depends_on-Forward :
    {g : TaskGraph} {size : ℕ}
    → Forward g size
    → (n p : ℕ) → n < size
    → p < n
    → Forward (depends_on g n p) size
unfolding depends_on
depends_on-Forward {g} h n p l m = record {
  built = link n p h.built (omega (arith, h.size_is)) (omega (arith, h.size_is));
  size_is = h.size_is;
  building = h.building;
  forward = λ u v e. elim (ℕ_discrete (edges g u v) 0) [
    | yes z ↦ ground (arith, edges-depends_on g n p u v)
    | no nz ↦ h.forward u v (omega arith)
  ];
}

depends_on_all-Forward :
    (size n : ℕ)
    → n < size
    → (ps : List ℕ) → AllBelow n ps
    → (g : TaskGraph) → Forward g size
    → Forward (depends_on_all g n ps) size
unfolding depends_on_all
depends_on_all-Forward size n l [] below g h = h
depends_on_all-Forward size n l (p ∷ ps) (m, below) g h =
    depends_on_all-Forward size n l ps below (depends_on g n p) (depends_on-Forward h n p l m)

unless-none : {A : Type 0} (b : Bool) (x : Option A) → b ≡ false → (if b then none else x) ≡ x
unless-none true x e = absurd (ground (arith, e))
unless-none false x e = refl

node-Forward :
    (g : TaskGraph) (size : ℕ)
    → Forward g size
    → (g' : TaskGraph) × (node g ≡ some (g', size)) × Forward g' (size + 1)
unfolding node
node-Forward g size h = (
  grown,
  added ∙ ap (λ n. some (grown, n)) h.size_is,
  record {
    built = add g.size h.built added;
    size_is = omega (arith, h.size_is);
    building = h.building;
    forward = λ u v.
        update_ind g.nodes (λ d. 0 < count v d.successors → u < v) g.size u fresh_node
          (λ e pos. absurd (omega arith)) (λ ne. h.forward u v);
  },
)
  where
    grown : TaskGraph
    grown = record g { nodes = update g.nodes g.size fresh_node; size = g.size + 1 }

    added : node g ≡ some (grown, g.size)
    added = unless-none {A = TaskGraph × ℕ} g.executing (some (grown, g.size)) h.building

empty-Forward : Forward empty_graph 0
empty-Forward = record {
  built = empty;
  size_is = refl;
  building = refl;
  forward = λ u v e. absurd (omega arith);
}

AllBelow-mono : (m n : ℕ) → m ≤ n → (xs : List ℕ) → AllBelow m xs → AllBelow n xs
AllBelow-mono m n l [] b = omega arith
AllBelow-mono m n l (x ∷ xs) (a, b) = (omega arith, AllBelow-mono m n l xs b)

AllBelow-append : (n : ℕ) (xs : List ℕ) (x : ℕ) → AllBelow n xs → x < n → AllBelow n (xs ++ x ∷ [])
AllBelow-append n [] x a l = (l, omega arith)
AllBelow-append n (y ∷ ys) x (b, a) l = (b, AllBelow-append n ys x a l)

add_stage-Forward :
    (k size : ℕ) (g : TaskGraph) (prev cur : List ℕ)
    → Forward g size
    → AllBelow size prev
    → AllBelow size cur
    → (r : TaskGraph × List ℕ) × (add_stage k g prev cur ≡ some r)
      × (Forward r.0 (size + k) × AllBelow (size + k) r.1)
unfolding add_stage
add_stage-Forward zero size g prev cur h a b = (
  (g, cur),
  refl,
  (subst (Forward g) (omega arith) h, AllBelow-mono size (size + 0) (omega arith) cur b),
)
add_stage-Forward (suc k) size g prev cur h a b =
    let (g', e, h') = node-Forward g size h in
    let (r, f, (i, c)) =
      add_stage-Forward k (size + 1) (depends_on_all g' size prev) prev (cur ++ size ∷ [])
        (depends_on_all-Forward (size + 1) size (omega arith) prev a g' h')
        (AllBelow-mono size (size + 1) (omega arith) prev a)
        (AllBelow-append (size + 1) cur size (AllBelow-mono size (size + 1) (omega arith) cur b)
          (omega arith)) in
    (
      r,
      subst
          (λ o.
            (o >>= λ p. add_stage k (depends_on_all p.0 p.1 prev) prev (cur ++ p.1 ∷ [])) ≡ some r)
          (sym e) f,
      (
        subst (Forward r.0) (omega arith) i,
        AllBelow-mono (size + 1 + k) (size + suc k) (omega arith) r.1 c,
      ),
    )

add_stages-Forward :
    (depth width size : ℕ) (g : TaskGraph) (prev : List ℕ)
    → Forward g size
    → AllBelow size prev
    → (r : TaskGraph × List ℕ) × (add_stages depth width g prev ≡ some r)
      × Forward r.0 (size + depth * width)
unfolding add_stages
add_stages-Forward zero width size g prev h a = ((g, prev), refl, subst (Forward g) (omega arith) h)
add_stages-Forward (suc depth) width size g prev h a =
    let (r, e, (h', a')) = add_stage-Forward width size g prev [] h a (omega arith) in
    let (q, f, i) = add_stages-Forward depth width (size + width) r.0 r.1 h' a' in
    (
      q,
      subst (λ o. (o >>= λ p. add_stages depth width p.0 p.1) ≡ some q) (sym e) f,
      subst (Forward q.0) (omega arith) i,
    )

-- The graph of `time_dag_workload` for any width and depth: it is built without a failed assertion,
-- by the calls of the build phase, it has a node for each place of each stage, and every edge leads
-- to a node that was made later, so it has no cycle.
pub pipeline-Forward :
    (width depth : ℕ)
    → (r : TaskGraph × List ℕ) × (pipeline width depth ≡ some r) × Forward r.0 (depth * width)
unfolding add_stages
pipeline-Forward width depth =
    let (r, e, h) = add_stages-Forward depth width 0 empty_graph [] empty-Forward (omega arith) in
    (r, e, subst (Forward r.0) (omega arith) h)

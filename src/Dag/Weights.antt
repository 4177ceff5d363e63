-- ===== src/Dag/Weights.antt =====
-- include/task_graph.hpp: what the tasks of a running graph have done, counted for one node.
use lock_free_work_stealing.Base.{
  ℕ, ◌+◌, ◌*◌, ◌≤◌, ◌<◌, ◌≡◌, refl, sym, ◌∙◌, ap₂, arith, Bool, true, false, if◌then◌else◌, List,
  [], ◌∷◌, ◌++◌, count, dec_lt, sum_to, sum_of, sum_to-ext, sum_to-add, sum_to-zero, sum_to-single,
  sum_of-append, one_if_eq,
}
use lock_free_work_stealing.Dag.{TaskGraph}
use lock_free_work_stealing.Dag.Run.{Phase, queued, in_fn, decrementing, done, Instance}

-- How many edges lead from `u` to `v`, and how many lead to `v`.
abbrev pub edges : TaskGraph → ℕ → ℕ → ℕ
edges g u v = count v (g.nodes u).successors

abbrev pub in_degree : TaskGraph → ℕ → ℕ
in_degree g v = sum_to g.size (λ u. edges g u v)

-- Is it a task of node `v`; has it begun; has its callable returned; has it returned?
abbrev pub is_task : ℕ → Instance → ℕ
is_task v i = one_if_eq i.node v

abbrev pub begun_at : ℕ → ℕ → Phase → ℕ
begun_at v n queued = 0
begun_at v n _ = one_if_eq n v

abbrev pub has_begun : ℕ → Instance → ℕ
has_begun v i = begun_at v i.node i.phase

abbrev pub past_fn_at : ℕ → ℕ → Phase → ℕ
past_fn_at v n queued = 0
past_fn_at v n in_fn = 0
past_fn_at v n _ = one_if_eq n v

abbrev pub is_past_fn : ℕ → Instance → ℕ
is_past_fn v i = past_fn_at v i.node i.phase

abbrev pub done_at : Phase → ℕ
done_at done = 1
done_at _ = 0

abbrev pub is_done : Instance → ℕ
is_done i = done_at i.phase

-- The decrements of `v` that a task makes in all, and those that it has still to make.
abbrev pub all_decrements : TaskGraph → ℕ → Instance → ℕ
all_decrements g v i = edges g i.node v

abbrev pub left_at : TaskGraph → ℕ → ℕ → Phase → ℕ
left_at g v n queued = edges g n v
left_at g v n in_fn = edges g n v
left_at g v n (decrementing rest) = count v rest
left_at g v n done = 0

abbrev pub decrements_left : TaskGraph → ℕ → Instance → ℕ
decrements_left g v i = left_at g v i.node i.phase

pub sum_of-split {ℓ} :
    {A : Type ℓ} (w : A → ℕ) (xs : List A) (x : A) (ys : List A)
    → sum_of w (xs ++ x ∷ ys) ≡ sum_of w xs + (w x + sum_of w ys)
unfolding sum_of
sum_of-split w xs x ys = sum_of-append w xs (x ∷ ys)

pub sum_of-optional {ℓ} :
    {A : Type ℓ} (w : A → ℕ) (b : Bool) (x : A)
    → sum_of w (if b then x ∷ [] else []) ≡ (if b then w x else 0)
unfolding sum_of
sum_of-optional w true x = omega arith
sum_of-optional w false x = refl

-- A sum over tasks, collected by node.
pub sum_by_node :
    (n : ℕ) (w : ℕ → ℕ) (tasks : List Instance)
    → ((v : ℕ) → n ≤ v → sum_of (is_task v) tasks ≡ 0)
    → sum_of (λ i. w i.node) tasks ≡ sum_to n (λ u. sum_of (is_task u) tasks * w u)
unfolding sum_of
sum_by_node n w [] h = sym (sum_to-ext n _ _ (λ i p. omega arith) ∙ sum_to-zero n)
sum_by_node n w (i ∷ is) h = sym (
    sum_to-ext n (λ u. (is_task u i + sum_of (is_task u) is) * w u)
      (λ u. is_task u i * w u + sum_of (is_task u) is * w u) (λ u p. omega arith)
    ∙ sum_to-add n (λ u. is_task u i * w u) (λ u. sum_of (is_task u) is * w u)
    ∙ ap₂ ◌+◌ (sum_to-single n i.node w below)
        (sym (sum_by_node n w is (λ v p. omega (arith, h v p)))))
  where
    below : i.node < n
    below = elim (dec_lt i.node n) [ yes p ↦ p | no p ↦ absurd (ground (arith, h i.node)) ]

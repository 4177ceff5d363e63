-- ===== src/Contract.antt =====
-- include/scheduler.hpp: what a scheduler promises, as laws that its implementations fill and that the
-- programs on it use.
pub mod Schedulers
pub mod Trees
use lock_free_work_stealing.Base.{
  ℕ, zero, suc, ◌+◌, ◌*◌, ◌≤◌, ◌<◌, ◌≡◌, ◌∙◌, refl, sym, ap, arith, List, [], ◌∷◌, length, count,
  sum_of, sum_of-count, sum_of-ones, sum_to, sum_to-ext, dec_le,
}

-- The states that the threads of a scheduler can reach, with the tasks that were given to `submit` and
-- those that were started. `IsOver` is a state in which `run` has left its wait and nothing is
-- left to it.
pub record Contract : Type 1 where
  pub State : Type 0
  pub Reached : State → Type 0
  pub IsOver : State → Type 0
  pub submitted : State → List ℕ
  pub ran : State → List ℕ
  pub bound : ℕ
  pub runs_all :
      (s : State)
      → Reached s
      → length (submitted s) < bound
      → IsOver s
      → (task : ℕ) → count task (submitted s) ≡ count task (ran s)

-- A number that no entry reaches.
above_all : (xs : List ℕ) → (n : ℕ) × ((x : ℕ) → n ≤ x → count x xs ≡ 0)
above_all [] = (0, λ x l. refl)
above_all (y ∷ ys) =
    let (n, h) = above_all ys in (n + suc y, λ x l. let z = h x (omega arith) in ground (arith, z))

-- Lists with the same entries, in any order, have the same sums.
sum_of-same :
    (w : ℕ → ℕ) (xs ys : List ℕ) → ((x : ℕ) → count x xs ≡ count x ys) → sum_of w xs ≡ sum_of w ys
sum_of-same w xs ys h =
    let (n, p) = above_all xs in
    let (m, q) = above_all ys in
    sum_of-count (n + m) w xs (λ x l. p x (omega arith))
    ∙ sum_to-ext (n + m) (λ x. count x xs * w x) (λ x. count x ys * w x)
        (λ x l. ap (λ c. c * w x) (h x))
    ∙ sym (sum_of-count (n + m) w ys (λ x l. q x (omega arith)))

-- The program gives the tasks `roots` to `submit`, and a task that was started has submitted its
-- children, in any order.
abbrev pub Conforms : List ℕ → (ℕ → List ℕ) → List ℕ → List ℕ → Type 0
Conforms roots children submitted ran =
    (w : ℕ → ℕ) → sum_of w submitted ≡ sum_of w roots + sum_of (λ t. sum_of w (children t)) ran

sum_of-suc : (f : ℕ → ℕ) (xs : List ℕ) → sum_of (λ t. 1 + f t) xs ≡ length xs + sum_of f xs
unfolding sum_of
sum_of-suc f [] = refl
sum_of-suc f (x ∷ xs) = omega (arith, sum_of-suc f xs)

sum_of-ext_all : (f g : ℕ → ℕ) (xs : List ℕ) → ((x : ℕ) → f x ≡ g x) → sum_of f xs ≡ sum_of g xs
unfolding sum_of
sum_of-ext_all f g [] h = refl
sum_of-ext_all f g (x ∷ xs) h = omega (arith, h x, sum_of-ext_all f g xs h)

module _ (c : Contract) where
  -- For every scheduler that keeps the contract, and every program whose tasks submit their
  -- children: where `run` is over, as many tasks were started as the trees below the roots have,
  -- whatever the order and the interleaving.
  pub started-tree_size :
      (s : c.State) (roots : List ℕ) (children : ℕ → List ℕ) (size : ℕ → ℕ)
      → c.Reached s
      → length (c.submitted s) < c.bound
      → c.IsOver s
      → Conforms roots children (c.submitted s) (c.ran s)
      → ((t : ℕ) → size t ≡ 1 + sum_of size (children t))
      → length (c.ran s) ≡ sum_of size roots
  started-tree_size s roots children size r small over conforms sizes = omega (
    arith,
    conforms size,
    sum_of-same size (c.submitted s) (c.ran s) (c.runs_all s r small over),
    sum_of-ext_all size (λ t. 1 + sum_of size (children t)) (c.ran s) sizes,
    sum_of-suc (λ t. sum_of size (children t)) (c.ran s),
  )

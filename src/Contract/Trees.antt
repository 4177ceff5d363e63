-- ===== src/Contract/Trees.antt =====
-- include/benchmark.hpp, recursive_spawn, on any scheduler that keeps the contract.
use lock_free_work_stealing.Base.{ℕ, ◌<◌, ◌≡◌, arith, [], ◌∷◌, length, sum_of}
use lock_free_work_stealing.Contract.{Contract, Conforms, started-tree_size}
use lock_free_work_stealing.Workloads.Recursive.{
  children, tree_size, children-size, setup_recursive, returned-tree_size,
}

-- For every scheduler that keeps the contract, so whatever the order and the interleaving: where
-- `run` is over, the tree of a depth below 63 was the root that was given to `submit`, and each
-- task that was started has submitted the children that recursive_spawn gives it, as many tasks
-- were started as setup_recursive has returned.
pub started-setup_recursive :
    (c : Contract) (s : c.State) (tree_depth : ℕ)
    → tree_depth < 63
    → c.Reached s
    → length (c.submitted s) < c.bound
    → c.IsOver s
    → Conforms (tree_depth ∷ []) children (c.submitted s) (c.ran s)
    → length (c.ran s) ≡ (setup_recursive tree_depth).1
unfolding sum_of
started-setup_recursive c s tree_depth depth r small over conforms = omega (
  arith,
  started-tree_size c s (tree_depth ∷ []) children tree_size r small over conforms
      (λ t. omega (arith, children-size t)),
  returned-tree_size tree_depth depth,
)

-- ===== src/Workloads/Recursive.antt =====
-- include/benchmark.hpp: the tree of tasks of `recursive_spawn`, run by a scheduler that takes
-- submitted tasks in any order.
use native.Mathlib.Nat.{two-pow-succ, pow-le-pow_right}
use lock_free_work_stealing.Base.{
  ℕ, zero, suc, ◌+◌, ◌^◌, ◌≤◌, ◌<◌, ◌≡◌, refl, sym, ◌∙◌, ap, arith, List, [], ◌∷◌, ◌++◌, add64,
  sub64, sub64-lt, shl1, add64-one, sum_of, sum_of-append,
}

-- The depths of the tasks that wait, and `g_task_count`.
pub record Spawning : Type 0 where
  pub waiting : List ℕ
  pub task_count : ℕ

-- The two calls of `submit` in `recursive_spawn`
abbrev pub children : ℕ → List ℕ
children zero = []
children (suc depth) = depth ∷ depth ∷ []

-- `recursive_spawn`, by the task that stands between `before` and `after`.
unfoldable pub recursive_spawn : Spawning → List ℕ → ℕ → List ℕ → Spawning
recursive_spawn s before depth after = record {
  waiting = (before ++ after) ++ children depth;
  task_count = add64 s.task_count 1;
}

-- `setup_recursive`: the state that it leaves, and what it returns.
unfoldable pub setup_recursive : ℕ → Spawning × ℕ
setup_recursive tree_depth =
    (record { waiting = tree_depth ∷ []; task_count = 0 }, sub64 (shl1 (tree_depth + 1)) 1)

pub data Reach (tree_depth : ℕ) : Spawning → Type 0 where
  here : Reach tree_depth (setup_recursive tree_depth).0
  next :
      {s : Spawning} (before : List ℕ) (depth : ℕ) (after : List ℕ)
      → Reach tree_depth s
      → s.waiting ≡ before ++ depth ∷ after
      → Reach tree_depth (recursive_spawn s before depth after)

-- The tasks of a tree
abbrev pub tree_size : ℕ → ℕ
tree_size zero = 1
tree_size (suc depth) = 1 + (tree_size depth + tree_size depth)

tree_size-pow : (depth : ℕ) → tree_size depth + 1 ≡ 2 ^ suc depth
tree_size-pow zero = refl
tree_size-pow (suc depth) = omega (arith, tree_size-pow depth, two-pow-succ (suc depth))

tree_size-pos : (depth : ℕ) → 0 < tree_size depth
tree_size-pos zero = omega arith
tree_size-pos (suc depth) = omega arith

pub children-size : (depth : ℕ) → sum_of tree_size (children depth) + 1 ≡ tree_size depth
unfolding sum_of
children-size zero = refl
children-size (suc depth) = omega arith

-- Each task is counted once.
Reach-total :
    {tree_depth : ℕ} {s : Spawning}
    → tree_size tree_depth < 2 ^ 64
    → Reach tree_depth s
    → s.task_count + sum_of tree_size s.waiting ≡ tree_size tree_depth
unfolding setup_recursive recursive_spawn sum_of
Reach-total small here = omega arith
Reach-total small (next {s} before depth after r e) =
    let total = Reach-total small r in
    let split = ap (sum_of tree_size) e ∙ sum_of-append tree_size before (depth ∷ after) in
    let pos = tree_size-pos depth in
    let small_count : s.task_count + 1 < 2 ^ 64 = omega arith in
    omega (
      arith,
      ap (sum_of tree_size) e,
      sum_of-append tree_size before (depth ∷ after),
      sum_of-append tree_size before after,
      sum_of-append tree_size (before ++ after) (children depth),
      children-size depth,
      add64-one s.task_count small_count,
    )

-- What setup_recursive returns
pub returned-tree_size :
    (tree_depth : ℕ) → tree_depth < 63 → (setup_recursive tree_depth).1 ≡ tree_size tree_depth
unfolding setup_recursive shl1 sub64
returned-tree_size tree_depth small =
    let power : 2 ^ (tree_depth + 1) ≡ tree_size tree_depth + 1 =
      ap (λ k. 2 ^ k) add_one ∙ sym (tree_size-pow tree_depth) in
    let le : tree_depth + 1 ≤ 63 = omega arith in
    let bound : 2 ^ (tree_depth + 1) ≤ 2 ^ 63 = pow-le-pow_right (omega arith) le in
    rw power (omega arith)
  where
    add_one : tree_depth + 1 ≡ suc tree_depth
    add_one = omega arith

returned-lt : (tree_depth : ℕ) → (setup_recursive tree_depth).1 < 2 ^ 64
unfolding setup_recursive
returned-lt tree_depth = sub64-lt (shl1 (tree_depth + 1)) 1

-- For a depth of the tree below 63: whatever the order in which the tasks of `setup_recursive` run,
-- when none waits `g_task_count` is the number of tasks that it has returned.
pub spawned-setup_recursive :
    {tree_depth : ℕ} {s : Spawning}
    → tree_depth < 63
    → Reach tree_depth s
    → s.waiting ≡ []
    → s.task_count ≡ (setup_recursive tree_depth).1
unfolding sum_of
spawned-setup_recursive {tree_depth} {s} small r e =
    let same = returned-tree_size tree_depth small in
    let lt = returned-lt tree_depth in
    let total = Reach-total (omega arith) r in
    let none_left = ap (sum_of tree_size) e in omega arith

-- ===== src/Dag/Drained.antt =====
-- include/task_graph.hpp, TaskGraph::execute: the tasks where `run` returns, since none is pending.
use lock_free_work_stealing.Base.{
  ℕ, ◌≤◌, ◌≡◌, refl, arith, List, [], ◌∷◌, ◌==◌, if◌then◌else◌, sum_of,
}
use lock_free_work_stealing.Dag.{TaskGraph}
use lock_free_work_stealing.Dag.Run.{Instance, Exec}
use lock_free_work_stealing.Dag.Weights.{is_task, is_past_fn, is_done, done_at, decrements_left}

-- The scheduler's counter of unfinished tasks, by which its `run` returns.
abbrev pub is_pending : Instance → ℕ
is_pending i = if done_at i.phase == 1 then 0 else 1

abbrev pub pending : Exec → ℕ
pending s = sum_of is_pending s.tasks

-- Where nothing is pending, two weights that agree on finished tasks have the same sum.
sum_of-drained :
    (w z : Instance → ℕ)
    → ((i : Instance) → is_pending i ≡ 0 → w i ≤ z i)
    → (tasks : List Instance) → sum_of is_pending tasks ≡ 0
    → sum_of w tasks ≤ sum_of z tasks
unfolding sum_of
sum_of-drained w z h [] e = omega arith
sum_of-drained w z h (i ∷ is) e =
    omega (arith, h i (omega arith), sum_of-drained w z h is (omega arith))

sum_of-zero : (tasks : List Instance) → sum_of (λ _. 0) tasks ≡ 0
unfolding sum_of
sum_of-zero [] = refl
sum_of-zero (i ∷ is) = omega (arith, sum_of-zero is)

pub drained-left :
    (g : TaskGraph) (v : ℕ) (tasks : List Instance)
    → sum_of is_pending tasks ≡ 0
    → sum_of (decrements_left g v) tasks ≡ 0
drained-left g v tasks e = omega (
  arith,
  sum_of-zero tasks,
  sum_of-drained (decrements_left g v) (λ _. 0) (λ i d. ground arith) tasks e,
)

pub drained-past_fn :
    (v : ℕ) (tasks : List Instance)
    → sum_of is_pending tasks ≡ 0
    → sum_of (is_task v) tasks ≤ sum_of (is_past_fn v) tasks
drained-past_fn v = sum_of-drained (is_task v) (is_past_fn v) (λ i d. ground arith)

pub drained-done :
    (tasks : List Instance)
    → sum_of is_pending tasks ≡ 0
    → sum_of (λ _. 1) tasks ≤ sum_of is_done tasks
drained-done = sum_of-drained (λ _. 1) is_done (λ i d. ground arith)

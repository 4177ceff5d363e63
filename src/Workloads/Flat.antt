-- ===== src/Workloads/Flat.antt =====
-- include/benchmark.hpp and bench/scaling.cpp: the workloads of equal tasks, given to any scheduler.
use lock_free_work_stealing.Base.{ℕ, zero, suc, ◌+◌, ◌^◌, ◌<◌, ◌≡◌, arith, add64, add64-one}
use lock_free_work_stealing.Interface.{IScheduler}

module _ {D : Type 0} (sched : IScheduler D) where
  -- The loop of `setup_cpu_bound`, of `setup_tiny_tasks` and of time_flat_workload: `k` rounds from
  -- `i` on. What a task computes is left out; it is named by its place.
  unfoldable pub submit_tasks : sched.State → ℕ → ℕ → sched.State
  submit_tasks s zero i = s
  submit_tasks s (suc k) i = submit_tasks (sched.submit s i) k (i + 1)

  unfoldable pub setup_cpu_bound : sched.State → ℕ → ℕ → sched.State × ℕ
  unfolding submit_tasks
  setup_cpu_bound s num_tasks work_iters = (submit_tasks s num_tasks 0, num_tasks)

  unfoldable pub setup_tiny_tasks : sched.State → ℕ → sched.State × ℕ
  unfolding submit_tasks
  setup_tiny_tasks s num_tasks = (submit_tasks s num_tasks 0, num_tasks)

  -- `kNumTasks` tasks and one call of `run`.
  unfoldable pub time_flat_workload : sched.State → ℕ → sched.State × D
  unfolding submit_tasks
  time_flat_workload s num_workers = sched.run num_workers (submit_tasks s 60000 0)

  -- For a scheduler whose `submit` adds one to a 64-bit counter, the loop adds its rounds.
  pub submit_tasks-adds :
      (pending : sched.State → ℕ)
      → ((s : sched.State) (task : ℕ) → pending (sched.submit s task) ≡ add64 (pending s) 1)
      → (k i : ℕ) (s : sched.State) → pending s + k < 2 ^ 64
      → pending (submit_tasks s k i) ≡ pending s + k
  unfolding submit_tasks
  submit_tasks-adds pending law zero i s small = omega arith
  submit_tasks-adds pending law (suc k) i s small =
      let up = add64-one (pending s) (omega arith) in
      let l = law s i in
      let h = submit_tasks-adds pending law k (i + 1) (sched.submit s i) (omega arith) in
      omega arith

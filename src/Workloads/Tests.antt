-- ===== src/Workloads/Tests.antt =====
-- include/benchmark.hpp and bench/scaling.cpp: small workloads, and the theorems at them.
use lock_free_work_stealing.Base.{ℕ, ◌*◌, ◌≡◌, refl, count, arith, some, List, [], ◌∷◌, add64}
use lock_free_work_stealing.Dag.{TaskGraph}
use lock_free_work_stealing.Workloads.Recursive.{
  recursive_spawn, setup_recursive, Reach, here, next, spawned-setup_recursive,
}
use lock_free_work_stealing.Workloads.Sweep.{
  IsCount, thread_counts, sweep, unique, Growing, thread_counts-sweep,
}
use lock_free_work_stealing.Workloads.Pipeline.{pipeline, Forward, pipeline-Forward}
use lock_free_work_stealing.Base.{◌+◌, ◌/◌, ◌≤◌, ◌<◌, true, false, ltb, leb, ◌==◌, if◌then◌else◌}
use lock_free_work_stealing.Interface.{
  SchedulerName, mutex_queue, lock_free_queue, work_stealing, IScheduler,
}
use lock_free_work_stealing.Workloads.Median.{
  TotalOrder, insert, sort, median_of, run_median, count_by, level, below, above, median_of-halves,
}
use lock_free_work_stealing.Workloads.Table.{
  Floats, WorkloadName, dag, find_first, is_row, all_rows, scheduler_rows, thread_rows, make_row,
  tps,
}
use lock_free_work_stealing.Workloads.Table.Lookup.{all_rows-lookup}
use lock_free_work_stealing.Workloads.Suite.{
  BenchResult, recursive_d12, is_result, all_results, speedup_of,
}
use lock_free_work_stealing.Workloads.Suite.Lookup.{Measures, speedup_of-measured}

-- A tree of depth 1: the root, and its two children, the second first.
one_level : Reach 1 (record { waiting = []; task_count = 3 })
unfolding setup_recursive recursive_spawn add64
one_level = next [] 0 [] (next (0 ∷ []) 0 [] (next [] 1 [] here refl) refl) refl

spawned-setup_recursive_example : 3 ≡ (setup_recursive 1).1
spawned-setup_recursive_example = spawned-setup_recursive (omega arith) one_level refl

pipeline-Forward_example : (r : TaskGraph × List ℕ) × (pipeline 2 3 ≡ some r) × Forward r.0 (3 * 2)
pipeline-Forward_example = pipeline-Forward 2 3

thread_counts_twelve : thread_counts 12 12 ≡ some (1 ∷ 2 ∷ 3 ∷ 4 ∷ 8 ∷ [])
unfolding thread_counts sweep unique
thread_counts_twelve = refl

-- No cores are reported.
thread_counts_none : thread_counts 1 0 ≡ some []
unfolding thread_counts sweep unique
thread_counts_none = refl

thread_counts-sweep_example :
    (xs : List ℕ) × ((sweep 12 12 1 ≡ some xs) × (thread_counts 12 12 ≡ some xs))
    × Growing 1 12 xs
    × ((x : ℕ) → (0 < count x xs → IsCount x × (x ≤ 12)) × (IsCount x → x ≤ 12 → 0 < count x xs))
thread_counts-sweep_example = thread_counts-sweep 12 12 (omega arith) (omega arith)

-- Times in whole seconds.
abbrev whole : Floats ℕ
whole = record {
  divide = λ a b. a / b;
  of_u64 = λ n. n;
  is_positive = λ a. ltb 0 a;
  one = 1;
  minus_one = 0;
}

seconds_total : (x y : ℕ) → leb x y ≡ false → leb y x ≡ true
seconds_total x y e = ground (arith, e)

seconds_trans : (x y z : ℕ) → leb x y ≡ true → leb y z ≡ true → leb x z ≡ true
seconds_trans x y z e f = ground (arith, e, f)

abbrev seconds : TotalOrder ℕ
seconds = record { le = leb; total = seconds_total; trans = seconds_trans }

median_three : run_median seconds (λ k. if k == 1 then 9 else k) ≡ some 3
unfolding run_median median_of sort insert
median_three = refl

median_of-halves_example :
    (m : ℕ) × ((median_of seconds (9 ∷ 2 ∷ 3 ∷ []) ≡ some m)
      × ((0 < count_by (level seconds m) (9 ∷ 2 ∷ 3 ∷ []))
          × ((count_by (below seconds m) (9 ∷ 2 ∷ 3 ∷ []) ≤ 1)
              × (count_by (above seconds m) (9 ∷ 2 ∷ 3 ∷ []) + 1 < 3))))
median_of-halves_example = median_of-halves seconds (9 ∷ 2 ∷ 3 ∷ []) (omega arith)

-- One thread takes 100 seconds, more take less.
abbrev shared : SchedulerName → WorkloadName → ℕ → ℕ
shared sn wl n = 100 / n

speedup_four :
    find_first (is_row lock_free_queue dag 4) (all_rows whole shared (1 ∷ 2 ∷ 4 ∷ 8 ∷ []))
    ≡ some (record {
      scheduler = lock_free_queue;
      workload = dag;
      threads = 4;
      tasks = 1920;
      wall_sec = 25;
      throughput = 76;
      speedup = 4;
      efficiency = 1;
    })
unfolding all_rows scheduler_rows thread_rows
speedup_four = refl

all_rows-lookup_example :
    find_first (is_row work_stealing dag 4) (all_rows whole shared (1 ∷ 2 ∷ 4 ∷ 8 ∷ []))
    ≡ some (make_row whole shared work_stealing dag (tps whole shared work_stealing dag 1) 4)
all_rows-lookup_example =
    all_rows-lookup whole shared work_stealing dag 4 (2 ∷ 4 ∷ 8 ∷ []) (omega arith)

-- A scheduler whose state is the number of its tasks, which `run` takes away in as many seconds.
abbrev counting : SchedulerName → IScheduler ℕ
counting named = record {
  State = ℕ;
  submit = λ s task. s + 1;
  run = λ num_workers s. (0, s);
  name = named;
}

abbrev both : List ((sched : IScheduler ℕ) × sched.State)
both = (counting mutex_queue, 0) ∷ (counting work_stealing, 0) ∷ []

speedup_of-measured_example :
    (r q : BenchResult ℕ) × ((find_first
          (is_result whole work_stealing recursive_d12 2)
          (all_results whole (1 ∷ 2 ∷ []) both)
        ≡ some r)
      × ((find_first
              (is_result whole mutex_queue recursive_d12 2)
              (all_results whole (1 ∷ 2 ∷ []) both)
            ≡ some q)
          × ((Measures whole work_stealing recursive_d12 2 r
                × Measures whole mutex_queue recursive_d12 2 q)
              × (speedup_of whole (all_results whole (1 ∷ 2 ∷ []) both) recursive_d12 2
                  ≡ (8191 / r.wall_sec) / (8191 / q.wall_sec)))))
speedup_of-measured_example =
    speedup_of-measured whole (1 ∷ 2 ∷ []) both recursive_d12 2 refl refl (omega arith)

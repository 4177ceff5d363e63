-- ===== src/Workloads/Suite.antt =====
-- include/benchmark.hpp and bench/main.cpp: the runs of the benchmarks, and the table of speedups.
pub mod Lookup
use lock_free_work_stealing.Base.{
  ℕ, zero, suc, ◌+◌, ◌<◌, ◌≡◌, ◌∙◌, refl, sym, ap, subst, arith, Bool, true, false, Bool-cases, inl,
  inr, ◌&&◌, ◌||◌, Option, none, some, List, [], ◌∷◌, ◌++◌, ◌==◌, if◌then◌else◌, count,
}
use lock_free_work_stealing.Interface.{
  SchedulerName, mutex_queue, lock_free_queue, work_stealing, IScheduler,
}
use lock_free_work_stealing.Workloads.Flat.{setup_cpu_bound, setup_tiny_tasks}
use lock_free_work_stealing.Workloads.Recursive.{setup_recursive}
use lock_free_work_stealing.Workloads.Table.{Floats, same_scheduler, find_first}

-- For the strings that name the benchmarks.
pub data BenchName : Type 0 where
  cpu_bound_50k : BenchName
  recursive_d12 : BenchName
  tiny_tasks_100k : BenchName

abbrev pub same_bench : BenchName → BenchName → Bool
same_bench cpu_bound_50k cpu_bound_50k = true
same_bench recursive_d12 recursive_d12 = true
same_bench tiny_tasks_100k tiny_tasks_100k = true
same_bench _ _ = false

pub record BenchResult (D : Type 0) : Type 0 where
  pub scheduler_name : SchedulerName
  pub benchmark_name : BenchName
  pub num_workers : ℕ
  pub num_tasks : ℕ
  pub wall_sec : D
  pub throughput : D

abbrev pub bench_names : List BenchName
bench_names = cpu_bound_50k ∷ recursive_d12 ∷ tiny_tasks_100k ∷ []

module _ {D : Type 0} (f : Floats D) (sched : IScheduler D) where
  -- The setup functions of run_suite. The task of `setup_recursive` is named by its depth.
  unfoldable pub setup : BenchName → sched.State → sched.State × ℕ
  unfolding setup_cpu_bound setup_tiny_tasks setup_recursive
  setup cpu_bound_50k s = setup_cpu_bound sched s 50000 500
  setup recursive_d12 s = (sched.submit s 12, (setup_recursive 12).1)
  setup tiny_tasks_100k s = setup_tiny_tasks sched s 100000

  unfoldable pub run_bench : BenchName → ℕ → sched.State → sched.State × BenchResult D
  unfolding setup
  run_bench bench num_workers s =
      let (warm, t) = sched.run num_workers (setup bench s).0 in
      let (ready, total_tasks) = setup bench warm in
      let (last, wall) = sched.run num_workers ready in
      (
        last,
        record {
          scheduler_name = sched.name;
          benchmark_name = bench;
          num_workers = num_workers;
          num_tasks = total_tasks;
          wall_sec = wall;
          throughput = f.divide (f.of_u64 total_tasks) wall;
        },
      )

  -- The three calls of run_bench for one thread count.
  unfoldable pub run_benches : List BenchName → ℕ → sched.State → sched.State × List (BenchResult D)
  unfolding run_bench
  run_benches [] nw s = (s, [])
  run_benches (b ∷ bs) nw s =
      let (t, r) = run_bench b nw s in let (u, rs) = run_benches bs nw t in (u, r ∷ rs)

  unfoldable pub run_suite : List ℕ → sched.State → sched.State × List (BenchResult D)
  unfolding run_benches
  run_suite [] s = (s, [])
  run_suite (nw ∷ nws) s =
      let (t, rs) = run_benches bench_names nw s in let (u, qs) = run_suite nws t in (u, rs ++ qs)

module _ {D : Type 0} (f : Floats D) where
  -- The loop of `main` over the schedulers, each with its state.
  unfoldable pub all_results :
      List ℕ → List ((sched : IScheduler D) × sched.State) → List (BenchResult D)
  unfolding run_suite
  all_results thread_counts [] = []
  all_results thread_counts ((sched, s) ∷ rest) =
      (run_suite f sched thread_counts s).1 ++ all_results thread_counts rest

  abbrev pub is_result : SchedulerName → BenchName → ℕ → BenchResult D → Bool
  is_result sname bname nw r =
      same_scheduler r.scheduler_name sname
      && same_bench r.benchmark_name bname
      && r.num_workers == nw

  abbrev pub throughput_or_one : Option (BenchResult D) → D
  throughput_or_one none = f.one
  throughput_or_one (some r) = r.throughput

  unfoldable pub find_tp : List (BenchResult D) → SchedulerName → BenchName → ℕ → D
  find_tp results sname bname nw = throughput_or_one (find_first (is_result sname bname nw) results)

  -- The last column of the table of speedups.
  unfoldable pub speedup_of : List (BenchResult D) → BenchName → ℕ → D
  unfolding find_tp
  speedup_of results bn nw =
      f.divide (find_tp results work_stealing bn nw) (find_tp results mutex_queue bn nw)

-- ===== src/Workloads/Suite/Lookup.antt =====
-- include/benchmark.hpp and bench/main.cpp: what the table of speedups finds in the results.
use lock_free_work_stealing.Base.{
  ◌==◌, ℕ, ◌<◌, ◌≡◌, ◌∙◌, refl, sym, ap, ap₂, subst, arith, Bool, true, false, Bool-cases, inl, inr,
  ◌&&◌, ◌||◌, some, List, [], ◌∷◌, ◌++◌, count, ℕ_discrete, shl1, sub64,
}
use lock_free_work_stealing.Interface.{SchedulerName, mutex_queue, work_stealing, IScheduler}
use lock_free_work_stealing.Workloads.Flat.{setup_cpu_bound, setup_tiny_tasks}
use lock_free_work_stealing.Workloads.Recursive.{setup_recursive}
use lock_free_work_stealing.Workloads.Table.{Floats, same_scheduler, find_first}
use lock_free_work_stealing.Workloads.Suite.{
  BenchName, cpu_bound_50k, recursive_d12, tiny_tasks_100k, same_bench, BenchResult, bench_names,
  setup, run_bench, run_benches, run_suite, all_results, is_result, find_tp, throughput_or_one,
  speedup_of,
}

-- The tasks of each benchmark.
abbrev pub total_of : BenchName → ℕ
total_of cpu_bound_50k = 50000
total_of recursive_d12 = 8191
total_of tiny_tasks_100k = 100000

same_bench-eq : (a b : BenchName) → same_bench a b ≡ true → a ≡ b
same_bench-eq a b e = ground (arith, e)

or_left : (a b : Bool) → a ≡ true → a || b ≡ true
or_left a b e = ground (arith, e)

or_rest : (a b : Bool) → a || b ≡ true → a ≡ false → b ≡ true
or_rest a b e n = ground (arith, e, n)

same_scheduler-eq : (a b : SchedulerName) → same_scheduler a b ≡ true → a ≡ b
same_scheduler-eq a b e = ground (arith, e)

and_left : (a b c : Bool) → a && b && c ≡ true → a ≡ true
and_left a b c e = ground (arith, e)

and_last : (m n : ℕ) (a b : Bool) → a && b && m == n ≡ true → m ≡ n
and_last m n a b e = ground (arith, e)

and_middle : (a b c : Bool) → a && b && c ≡ true → b ≡ true
and_middle a b c e = ground (arith, e)

or_right : (a b : Bool) → b ≡ true → a || b ≡ true
or_right a b e = ground (arith, e)

module _ {D : Type 0} (f : Floats D) where
  -- A result of the given scheduler and benchmark, with that number of workers, and with the
  -- throughput that the tasks of the benchmark have in its time.
  abbrev pub Measures : SchedulerName → BenchName → ℕ → BenchResult D → Type 0
  Measures sname b nw r =
      ((r.scheduler_name ≡ sname) × (r.benchmark_name ≡ b))
      × ((r.num_workers ≡ nw) × (r.throughput ≡ f.divide (f.of_u64 (total_of b)) r.wall_sec))

  -- A result that counts the tasks of its benchmark.
  abbrev Honest : BenchResult D → Type 0
  Honest r =
      (r.num_tasks ≡ total_of r.benchmark_name)
      × (r.throughput ≡ f.divide (f.of_u64 r.num_tasks) r.wall_sec)

  data AllHonest : List (BenchResult D) → Type 0 where
    all_nil : AllHonest []
    all_cons :
        {r : BenchResult D} {rs : List (BenchResult D)}
        → Honest r
        → AllHonest rs
        → AllHonest (r ∷ rs)

  AllHonest-append :
      (rs qs : List (BenchResult D)) → AllHonest rs → AllHonest qs → AllHonest (rs ++ qs)
  AllHonest-append [] qs a b = b
  AllHonest-append (r ∷ rs) qs (all_cons h a) b = all_cons h (AllHonest-append rs qs a b)

  -- Whether some entry passes.
  abbrev exists : (BenchResult D → Bool) → List (BenchResult D) → Bool
  exists p [] = false
  exists p (r ∷ rs) = p r || exists p rs

  exists-append :
      (p : BenchResult D → Bool) (rs qs : List (BenchResult D))
      → exists p (rs ++ qs) ≡ exists p rs || exists p qs
  exists-append p [] qs = refl
  exists-append p (r ∷ rs) qs = let h = exists-append p rs qs in ground (arith, h)

  module _ (sched : IScheduler D) where
    setup-total : (b : BenchName) (s : sched.State) → (setup f sched b s).1 ≡ total_of b
    unfolding setup setup_cpu_bound setup_tiny_tasks setup_recursive shl1 sub64
    setup-total cpu_bound_50k s = refl
    setup-total recursive_d12 s = refl
    setup-total tiny_tasks_100k s = refl

    run_benches-Honest :
        (bs : List BenchName) (nw : ℕ) (s : sched.State) → AllHonest (run_benches f sched bs nw s).1
    unfolding run_benches run_bench
    run_benches-Honest [] nw s = all_nil
    run_benches-Honest (b ∷ bs) nw s = all_cons (setup-total b _, refl) (run_benches-Honest bs nw _)

    run_suite-Honest : (nws : List ℕ) (s : sched.State) → AllHonest (run_suite f sched nws s).1
    unfolding run_suite
    run_suite-Honest [] s = all_nil
    run_suite-Honest (nw ∷ nws) s =
        AllHonest-append _ _ (run_benches-Honest bench_names nw s) (run_suite-Honest nws _)

    module _ (sname : SchedulerName) (named : same_scheduler sched.name sname ≡ true)
        (b : BenchName) (nw : ℕ) where
      run_benches-exists :
          (s : sched.State)
          → exists (is_result f sname b nw) (run_benches f sched bench_names nw s).1 ≡ true
      unfolding run_benches run_bench
      run_benches-exists s = rw named (ground arith)

      run_suite-exists :
          (nws : List ℕ) (s : sched.State)
          → 0 < count nw nws
          → exists (is_result f sname b nw) (run_suite f sched nws s).1 ≡ true
      unfolding run_suite
      run_suite-exists [] s c = absurd (omega arith)
      run_suite-exists (m ∷ nws) s c =
          exists-append (is_result f sname b nw) (run_benches f sched bench_names m s).1 _
          ∙ elim (ℕ_discrete m nw) [
            | yes e ↦ or_left _ _ (
                subst
                  (λ k.
                    exists (is_result f sname b nw) (run_benches f sched bench_names k s).1 ≡ true)
                  (sym e) (run_benches-exists s))
            | no ne ↦ or_right _ _ (
                run_suite-exists nws (run_benches f sched bench_names m s).0
                  (ground (arith, c, ne)))
          ]

  abbrev pub has_name : SchedulerName → List ((sched : IScheduler D) × sched.State) → Bool
  has_name sname [] = false
  has_name sname ((sched, s) ∷ rest) = same_scheduler sched.name sname || has_name sname rest

  all_results-Honest :
      (counts : List ℕ) (scheds : List ((sched : IScheduler D) × sched.State))
      → AllHonest (all_results f counts scheds)
  unfolding all_results
  all_results-Honest counts [] = all_nil
  all_results-Honest counts ((sched, s) ∷ rest) =
      AllHonest-append _ _ (run_suite-Honest sched counts s) (all_results-Honest counts rest)

  all_results-exists :
      (sname : SchedulerName) (b : BenchName) (nw : ℕ) (counts : List ℕ)
      → 0 < count nw counts
      → (scheds : List ((sched : IScheduler D) × sched.State)) → has_name sname scheds ≡ true
      → exists (is_result f sname b nw) (all_results f counts scheds) ≡ true
  unfolding all_results
  all_results-exists sname b nw counts c [] h = absurd (ground (arith, h))
  all_results-exists sname b nw counts c ((sched, s) ∷ rest) h =
      exists-append (is_result f sname b nw) (run_suite f sched counts s).1 _
      ∙ elim (Bool-cases (same_scheduler sched.name sname)) [
        | inl e ↦ or_left _ _ (run_suite-exists sched sname e b nw counts s c)
        | inr e ↦ or_right _ _ (all_results-exists sname b nw counts c rest (or_rest _ _ h e))
      ]

  -- The entry that is found passes, and is one of the list.
  find_first-exists :
      (p : BenchResult D → Bool) (rs : List (BenchResult D))
      → AllHonest rs
      → exists p rs ≡ true
      → (r : BenchResult D) × ((find_first p rs ≡ some r) × ((p r ≡ true) × Honest r))
  find_first-exists p [] a e = absurd (ground (arith, e))
  find_first-exists p (r ∷ rs) (all_cons h a) e = elim (Bool-cases (p r)) [
    | inl y ↦ (r, (rw y refl, (y, h)))
    | inr n ↦ let (q, (g, k)) = find_first-exists p rs a (or_rest _ _ e n) in (q, (rw n g, k))
  ]

  -- For a scheduler among those that ran, a benchmark and a thread count of the list, find_tp finds
  -- a result of these three, and never gives its default.
  find_tp-found :
      (counts : List ℕ) (scheds : List ((sched : IScheduler D) × sched.State))
      (sname : SchedulerName) (b : BenchName) (nw : ℕ)
      → has_name sname scheds ≡ true
      → 0 < count nw counts
      → (r : BenchResult D) × ((find_first (is_result f sname b nw) (all_results f counts scheds)
            ≡ some r)
          × (Measures sname b nw r
              × (find_tp f (all_results f counts scheds) sname b nw
                  ≡ f.divide (f.of_u64 (total_of b)) r.wall_sec)))
  unfolding find_tp
  find_tp-found counts scheds sname b nw h c =
      let (r, (e, (p, (n, t)))) =
        find_first-exists (is_result f sname b nw) (all_results f counts scheds)
          (all_results-Honest counts scheds) (all_results-exists sname b nw counts c scheds h) in
      let same : r.benchmark_name ≡ b = same_bench-eq r.benchmark_name b (and_middle _ _ _ p) in
      let owner = same_scheduler-eq r.scheduler_name sname (and_left _ _ _ p) in
      let throughput = t ∙ ap (λ m. f.divide (f.of_u64 m) r.wall_sec) (n ∙ ap total_of same) in
      (
        r,
        (
          e,
          (
            (
              (owner, same),
              (
                and_last r.num_workers nw (same_scheduler r.scheduler_name sname)
                    (same_bench r.benchmark_name b) p,
                throughput,
              ),
            ),
            ap (throughput_or_one f) e ∙ throughput,
          ),
        ),
      )

  -- Where the work-stealing and the mutex scheduler are among those that ran: for each benchmark and
  -- each thread count of the list, the table of speedups divides two throughputs and never the
  -- default of find_tp. The one is of a result in the list of all results that the work-stealing
  -- scheduler had in this benchmark with this number of workers, the other of one that the mutex
  -- scheduler had in it with this number, and each is the number of the benchmark's tasks by the
  -- result's time.
  pub speedup_of-measured :
      (counts : List ℕ) (scheds : List ((sched : IScheduler D) × sched.State)) (b : BenchName)
      (nw : ℕ)
      → has_name work_stealing scheds ≡ true
      → has_name mutex_queue scheds ≡ true
      → 0 < count nw counts
      → (r q : BenchResult D) × ((find_first
              (is_result f work_stealing b nw)
              (all_results f counts scheds)
            ≡ some r)
          × ((find_first (is_result f mutex_queue b nw) (all_results f counts scheds) ≡ some q)
              × ((Measures work_stealing b nw r × Measures mutex_queue b nw q)
                  × (speedup_of f (all_results f counts scheds) b nw
                      ≡ f.divide
                          (f.divide (f.of_u64 (total_of b)) r.wall_sec)
                          (f.divide (f.of_u64 (total_of b)) q.wall_sec)))))
  unfolding speedup_of
  speedup_of-measured counts scheds b nw h g c =
      let (r, (e, (m, t))) = find_tp-found counts scheds work_stealing b nw h c in
      let (q, (d, (k, u))) = find_tp-found counts scheds mutex_queue b nw g c in
      (r, q, (e, (d, ((m, k), ap₂ f.divide t u))))

-- ===== src/Workloads/Table/Lookup.antt =====
-- bench/scaling.cpp: what the summary finds in the table.
use lock_free_work_stealing.Base.{
  ℕ, ◌<◌, ◌≡◌, ◌∙◌, refl, ap, arith, Bool, true, false, Bool-cases, inl, inr, ◌&&◌, ◌||◌, none,
  some, List, [], ◌∷◌, ◌==◌, if◌then◌else◌, count, ℕ_discrete,
}
use lock_free_work_stealing.Interface.{SchedulerName, mutex_queue, lock_free_queue, work_stealing}
use lock_free_work_stealing.Workloads.Table.{
  Floats, WorkloadName, flat, dag, same_scheduler, same_workload, find_first, sched_names, tps,
  make_row, thread_rows, scheduler_rows, all_rows, is_row, find_first-append_none,
  find_first-append_some,
}

same_scheduler_refl : (sn : SchedulerName) → same_scheduler sn sn ≡ true
same_scheduler_refl sn = ground arith

same_workload_refl : (wl : WorkloadName) → same_workload wl wl ≡ true
same_workload_refl wl = ground arith

abbrev has : SchedulerName → List SchedulerName → Bool
has sn [] = false
has sn (x ∷ xs) = same_scheduler x sn || has sn xs

has_all : (sn : SchedulerName) → has sn sched_names ≡ true
has_all mutex_queue = refl
has_all lock_free_queue = refl
has_all work_stealing = refl

same_scheduler-eq : (x y : SchedulerName) → same_scheduler x y ≡ true → x ≡ y
same_scheduler-eq x y e = ground (arith, e)

module _ {ℓ} {D : Type ℓ} (f : Floats D) (wall : SchedulerName → WorkloadName → ℕ → D) where
  thread_rows-other :
      (sn sn' : SchedulerName) (wl wl' : WorkloadName) (n : ℕ) (baseline : D) (counts : List ℕ)
      → same_scheduler sn sn' && same_workload wl wl' ≡ false
      → find_first (is_row sn' wl' n) (thread_rows f wall sn wl baseline counts) ≡ none
  unfolding thread_rows
  thread_rows-other sn sn' wl wl' n baseline [] e = refl
  thread_rows-other sn sn' wl wl' n baseline (m ∷ ns) e =
      let miss : same_scheduler sn sn' && same_workload wl wl' && m == n ≡ false =
        ground (arith, e) in
      rw miss
        (thread_rows-other sn sn' wl wl' n (if m == 1 then tps f wall sn wl m else baseline) ns e)

  thread_rows-hit :
      (sn : SchedulerName) (wl : WorkloadName) (n : ℕ) (counts : List ℕ)
      → 0 < count n counts
      → find_first (is_row sn wl n) (thread_rows f wall sn wl (tps f wall sn wl 1) counts)
        ≡ some (make_row f wall sn wl (tps f wall sn wl 1) n)
  unfolding thread_rows
  thread_rows-hit sn wl n [] c = absurd (omega arith)
  thread_rows-hit sn wl n (m ∷ ns) c = rw same_base (elim (ℕ_discrete m n) [
    | yes e ↦
        let hit : same_scheduler sn sn && same_workload wl wl && m == n ≡ true =
          ground (arith, same_scheduler_refl sn, same_workload_refl wl) in
        rw hit (ap (λ k. some (make_row f wall sn wl (tps f wall sn wl 1) k)) e)
    | no ne ↦
        let miss : same_scheduler sn sn && same_workload wl wl && m == n ≡ false = ground arith in
        rw miss (thread_rows-hit sn wl n ns (ground (arith, c, ne)))
  ])
    where
      same_base : (if m == 1 then tps f wall sn wl m else tps f wall sn wl 1) ≡ tps f wall sn wl 1
      same_base = elim (ℕ_discrete m 1) [
        | yes e ↦ rw e refl
        | no ne ↦ let miss : m == 1 ≡ false = ground arith in rw miss refl
      ]

  module _ (wl : WorkloadName) (n : ℕ) (ns : List ℕ) where
    scheduler_rows-other :
        (sn : SchedulerName) (wl' : WorkloadName) (names : List SchedulerName)
        → same_workload wl wl' ≡ false
        → find_first (is_row sn wl' n) (scheduler_rows f wall wl (1 ∷ ns) names) ≡ none
    unfolding scheduler_rows
    scheduler_rows-other sn wl' [] e = refl
    scheduler_rows-other sn wl' (x ∷ xs) e =
        find_first-append_none (is_row sn wl' n) (thread_rows f wall x wl f.minus_one (1 ∷ ns))
          (scheduler_rows f wall wl (1 ∷ ns) xs)
          (thread_rows-other x sn wl wl' n f.minus_one (1 ∷ ns) (ground (arith, e)))
        ∙ scheduler_rows-other sn wl' xs e

    scheduler_rows-hit :
        (sn : SchedulerName) (names : List SchedulerName)
        → has sn names ≡ true
        → 0 < count n (1 ∷ ns)
        → find_first (is_row sn wl n) (scheduler_rows f wall wl (1 ∷ ns) names)
          ≡ some (make_row f wall sn wl (tps f wall sn wl 1) n)
    unfolding scheduler_rows thread_rows
    scheduler_rows-hit sn [] h c = absurd (ground (arith, h))
    scheduler_rows-hit sn (x ∷ xs) h c = elim (Bool-cases (same_scheduler x sn)) [
      | inl e ↦
          let same = same_scheduler-eq x sn e in
          find_first-append_some (is_row sn wl n) (thread_rows f wall x wl f.minus_one (1 ∷ ns))
            (scheduler_rows f wall wl (1 ∷ ns) xs) (make_row f wall sn wl (tps f wall sn wl 1) n)
            (ap (λ y. find_first (is_row sn wl n) (thread_rows f wall y wl f.minus_one (1 ∷ ns)))
                same
              ∙ thread_rows-hit sn wl n (1 ∷ ns) c)
      | inr e ↦
          find_first-append_none (is_row sn wl n) (thread_rows f wall x wl f.minus_one (1 ∷ ns))
            (scheduler_rows f wall wl (1 ∷ ns) xs)
            (thread_rows-other x sn wl wl n f.minus_one (1 ∷ ns) (ground (arith, e)))
          ∙ scheduler_rows-hit sn xs (ground (arith, h, e)) c
    ]

  -- Where the first thread count is 1: for every scheduler, workload and thread count of the list,
  -- the look-up of the summary finds the row of that configuration, with its own time, and with
  -- the speedup and the efficiency against the throughput of one thread of the same scheduler and
  -- workload.
  pub all_rows-lookup :
      (sn : SchedulerName) (wl : WorkloadName) (n : ℕ) (ns : List ℕ)
      → 0 < count n (1 ∷ ns)
      → find_first (is_row sn wl n) (all_rows f wall (1 ∷ ns))
        ≡ some (make_row f wall sn wl (tps f wall sn wl 1) n)
  unfolding all_rows
  all_rows-lookup sn flat n ns c =
      find_first-append_some (is_row sn flat n) (scheduler_rows f wall flat (1 ∷ ns) sched_names)
        (scheduler_rows f wall dag (1 ∷ ns) sched_names) _
        (scheduler_rows-hit flat n ns sn sched_names (has_all sn) c)
  all_rows-lookup sn dag n ns c =
      find_first-append_none (is_row sn dag n) (scheduler_rows f wall flat (1 ∷ ns) sched_names)
        (scheduler_rows f wall dag (1 ∷ ns) sched_names)
        (scheduler_rows-other flat n ns sn dag sched_names refl)
      ∙ scheduler_rows-hit dag n ns sn sched_names (has_all sn) c

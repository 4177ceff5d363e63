-- ===== src/Workloads/Table.antt =====
-- bench/scaling.cpp: the rows of the table and their look-up by the summary. A `double` is a value of
-- any type with the operations that the code uses, and a name is a constructor.
pub mod Lookup
use lock_free_work_stealing.Base.{
  ℕ, zero, suc, ◌+◌, ◌*◌, ◌<◌, ◌≡◌, ◌≢◌, ◌∙◌, refl, sym, ap, subst, arith, Bool, true, false,
  Bool-cases, inl, inr, ◌&&◌, Option, none, some, List, [], ◌∷◌, ◌++◌, ◌==◌, if◌then◌else◌, count,
  ℕ_discrete,
}
use lock_free_work_stealing.Interface.{SchedulerName, mutex_queue, lock_free_queue, work_stealing}

pub record Floats {ℓ} (D : Type ℓ) : Type ℓ where
  pub divide : D → D → D
  pub of_u64 : ℕ → D
  pub is_positive : D → Bool
  pub one : D
  pub minus_one : D

pub data WorkloadName : Type 0 where
  flat : WorkloadName
  dag : WorkloadName

-- `==` of names
abbrev pub same_scheduler : SchedulerName → SchedulerName → Bool
same_scheduler mutex_queue mutex_queue = true
same_scheduler lock_free_queue lock_free_queue = true
same_scheduler work_stealing work_stealing = true
same_scheduler _ _ = false

abbrev pub same_workload : WorkloadName → WorkloadName → Bool
same_workload flat flat = true
same_workload dag dag = true
same_workload _ _ = false

pub record ScalingRow {ℓ} (D : Type ℓ) : Type ℓ where
  pub scheduler : SchedulerName
  pub workload : WorkloadName
  pub threads : ℕ
  pub tasks : ℕ
  pub wall_sec : D
  pub throughput : D
  pub speedup : D
  pub efficiency : D

-- The first entry that passes a test, as a loop with `break` or `return` finds it.
abbrev pub find_first {ℓ} : {A : Type ℓ} → (A → Bool) → List A → Option A
find_first p [] = none
find_first p (x ∷ xs) = if p x then some x else find_first p xs

abbrev pub sched_names : List SchedulerName
sched_names = mutex_queue ∷ lock_free_queue ∷ work_stealing ∷ []

-- `kNumTasks`, and `kDagWidth * kDagDepth`
abbrev pub task_total : WorkloadName → ℕ
task_total flat = 60000
task_total dag = 32 * 60

-- `wall s w n` is the time that run_median gives.
module _ {ℓ} {D : Type ℓ} (f : Floats D) (wall : SchedulerName → WorkloadName → ℕ → D) where
  abbrev pub tps : SchedulerName → WorkloadName → ℕ → D
  tps sn wl n = f.divide (f.of_u64 (task_total wl)) (wall sn wl n)

  -- A row, against a baseline.
  abbrev pub make_row : SchedulerName → WorkloadName → D → ℕ → ScalingRow D
  make_row sn wl baseline n = record {
    scheduler = sn;
    workload = wl;
    threads = n;
    tasks = task_total wl;
    wall_sec = wall sn wl n;
    throughput = tps sn wl n;
    speedup = if f.is_positive baseline then f.divide (tps sn wl n) baseline else f.one;
    efficiency =
        if f.is_positive baseline
        then f.divide (f.divide (tps sn wl n) baseline) (f.of_u64 n)
        else f.one;
  }

  -- The loop over the thread counts, with its `baseline`.
  unfoldable pub thread_rows : SchedulerName → WorkloadName → D → List ℕ → List (ScalingRow D)
  thread_rows sn wl baseline [] = []
  thread_rows sn wl baseline (n ∷ ns) =
      let current = if n == 1 then tps sn wl n else baseline in
      make_row sn wl current n ∷ thread_rows sn wl current ns

  -- The loop over the schedulers.
  unfoldable pub scheduler_rows : WorkloadName → List ℕ → List SchedulerName → List (ScalingRow D)
  unfolding thread_rows
  scheduler_rows wl counts [] = []
  scheduler_rows wl counts (sn ∷ sns) =
      thread_rows sn wl f.minus_one counts ++ scheduler_rows wl counts sns

  unfoldable pub all_rows : List ℕ → List (ScalingRow D)
  unfolding scheduler_rows
  all_rows counts = scheduler_rows flat counts sched_names ++ scheduler_rows dag counts sched_names

abbrev pub is_row {ℓ} : {D : Type ℓ} → SchedulerName → WorkloadName → ℕ → ScalingRow D → Bool
is_row sn wl n r = same_scheduler r.scheduler sn && same_workload r.workload wl && r.threads == n

abbrev is_some {ℓ} : {A : Type ℓ} → Option A → Bool
is_some none = false
is_some (some a) = true

some-none {ℓ} : {A : Type ℓ} {a : A} → some a ≢ none
some-none e = let z = ap is_some e in ground (arith, z)

module _ {ℓ} {A : Type ℓ} (p : A → Bool) where
  pub find_first-append_none :
      (xs ys : List A) → find_first p xs ≡ none → find_first p (xs ++ ys) ≡ find_first p ys
  find_first-append_none [] ys e = refl
  find_first-append_none (x ∷ xs) ys e = elim (Bool-cases (p x)) [
    | inl y ↦ absurd (some-none (sym (ap (λ b. if b then some x else find_first p xs) y) ∙ e))
    | inr n ↦
        rw n (
          find_first-append_none xs ys
            (sym (ap (λ b. if b then some x else find_first p xs) n) ∙ e))
  ]

  pub find_first-append_some :
      (xs ys : List A) (a : A) → find_first p xs ≡ some a → find_first p (xs ++ ys) ≡ some a
  find_first-append_some [] ys a e = absurd (some-none (sym e))
  find_first-append_some (x ∷ xs) ys a e = elim (Bool-cases (p x)) [
    | inl y ↦ rw y (sym (ap (λ b. if b then some x else find_first p xs) y) ∙ e)
    | inr n ↦ rw n (
        find_first-append_some xs ys a
          (sym (ap (λ b. if b then some x else find_first p xs) n) ∙ e))
  ]

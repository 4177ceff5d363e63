-- ===== src/WorkStealing/Tests.antt =====
-- include/work_stealing_scheduler.hpp: schedulers that are run, and the theorems at the states that
-- they reach.
use lock_free_work_stealing.Base.{
  true, inl, ℕ, ◌+◌, ◌^◌, ◌<◌, ◌≡◌, ◌≢◌, refl, arith, false, Option, none, some, List, [], ◌∷◌,
  count, length, dec_lt, pop_back, add64, sub64, le_i64,
}
use lock_free_work_stealing.WorkStealing.{
  Phase, stealing, checking_shutdown, running, Driver, outside, waiting, joining, Scheduler, fresh,
  set_phase, push_bottom, push_all, submit, submit_local, submit_injected, run_start, run_driver,
}
use lock_free_work_stealing.WorkStealing.Worker.{
  start_victim, victim_at, none_found, try_attempt, start_task, set_deque, pop_task, steal_task,
  finish_task, worker_step, external, injected, child, works, runs, drives, Reach, here, next,
}
use lock_free_work_stealing.WorkStealing.Invariant.{one, busy_count, injection, held}
use lock_free_work_stealing.WorkStealing.Safety.{copies, Reach-accounts, joining-all_ran}
use lock_free_work_stealing.WorkStealing.Stranded.{stranded-run_waits}
use lock_free_work_stealing.WorkStealing.Victims.{victim_at-other, tries}

-- A choice: another thread submits a task; a task on a worker submits one; an action of a worker,
-- with its random number; `run` is called; an action of `run`. What cannot be done is passed over.
data Act : Type 0 where
  give : ℕ → Act
  spawn : ℕ → ℕ → Act
  work : ℕ → ℕ → Act
  run : ℕ → Act
  drive : Act

record Run (a : Scheduler) : Type 0 where
  last : Scheduler
  reach : Reach a last

is_free : (o : Option ℕ) → Option (o ≡ none)
is_free none = some refl
is_free (some _) = none

is_running : (p : Phase) → Option ((task : ℕ) × (p ≡ running task))
is_running (running task) = some (task, refl)
is_running _ = none

is_outside : (d : Driver) → Option (d ≡ outside)
is_outside outside = some refl
is_outside _ = none

act : {a : Scheduler} → Run a → Act → Run a
unfolding is_free is_running is_outside submit
act r (give task) = elim (is_free r.last.injecting) [
  | some e ↦ record { last = _; reach = next (next r.reach (external task e)) (injected task refl) }
  | none ↦ r
]
act r (spawn i new) = elim (dec_lt i r.last.size) [
  | yes p ↦ elim (is_running (r.last.threads i).phase) [
    | some (task, e) ↦ record { last = _; reach = next r.reach (child i task new p e) }
    | none ↦ r
  ]
  | no p ↦ r
]
act r (work i roll) = elim (dec_lt i r.last.size) [
  | yes p ↦ record { last = _; reach = next r.reach (works i roll false p) }
  | no p ↦ r
]
act r (run n) = elim (dec_lt 0 n) [
  | yes p ↦ elim (is_outside r.last.driver) [
    | some d ↦ elim (is_free r.last.injecting) [
      | some e ↦ record { last = _; reach = next r.reach (runs n (inl p) d e) }
      | none ↦ r
    ]
    | none ↦ r
  ]
  | no p ↦ r
]
act r drive = record { last = _; reach = next r.reach drives }

acts : {a : Scheduler} → Run a → List Act → Run a
unfolding act
acts r [] = r
acts r (x ∷ xs) = acts (act r x) xs

from : (a : Scheduler) → Run a
from a = record { last = a; reach = here }

-- Tasks 7 and 8 are given; of two workers, 0 takes 8, which submits 9, and 1 steals 7; 0 takes 9.
abbrev all_ran : Run fresh
unfolding acts from
all_ran = acts (from fresh) (
    give 7
    ∷ give 8
    ∷ run 2
    ∷ work 0 0
    ∷ spawn 0 9
    ∷ work 0 0
    ∷ work 1 0
    ∷ work 1 0
    ∷ work 1 0
    ∷ work 1 0
    ∷ work 1 0
    ∷ work 1 0
    ∷ work 0 0
    ∷ work 0 0
    ∷ work 0 0
    ∷ work 0 0
    ∷ work 0 0
    ∷ drive
    ∷ [])

all_ran_history : all_ran.last.ran ≡ 9 ∷ 7 ∷ 8 ∷ []
unfolding acts from act is_free is_running is_outside submit set_phase push_bottom submit_local
    submit_injected push_all run_start run_driver start_victim victim_at none_found try_attempt
    start_task set_deque pop_task steal_task finish_task worker_step pop_back add64 sub64 le_i64
    dec_lt
all_ran_history = refl

all_ran_joining : all_ran.last.driver ≡ joining
unfolding acts from act is_free is_running is_outside submit set_phase push_bottom submit_local
    submit_injected push_all run_start run_driver start_victim victim_at none_found try_attempt
    start_task set_deque pop_task steal_task finish_task worker_step pop_back add64 sub64 le_i64
    dec_lt
all_ran_joining = refl

all_ran_small : length all_ran.last.submitted < 2 ^ 63
unfolding acts from act is_free is_running is_outside submit set_phase push_bottom submit_local
    submit_injected push_all run_start run_driver start_victim victim_at none_found try_attempt
    start_task set_deque pop_task steal_task finish_task worker_step pop_back add64 sub64 le_i64
    dec_lt
all_ran_small = omega arith

all_ran_size : 1 < all_ran.last.size
unfolding acts from act is_free is_running is_outside submit set_phase push_bottom submit_local
    submit_injected push_all run_start run_driver start_victim victim_at none_found try_attempt
    start_task set_deque pop_task steal_task finish_task worker_step pop_back add64 sub64 le_i64
    dec_lt
all_ran_size = omega arith

Reach-accounts_example :
    (count 9 all_ran.last.submitted ≡ held (copies 9) all_ran.last + count 9 all_ran.last.ran)
    × (all_ran.last.pending ≡ held one all_ran.last + busy_count all_ran.last)
Reach-accounts_example = Reach-accounts all_ran.reach all_ran_small 9

joining-all_ran_example :
    count 7 all_ran.last.submitted ≡ count 7 all_ran.last.ran + injection (copies 7) all_ran.last
joining-all_ran_example = joining-all_ran all_ran.reach all_ran_small all_ran_joining 7

-- Task 7 runs to its end, and 8 was given after `run` had begun.
abbrev late : Run fresh
unfolding acts from
late = acts (from fresh) (give 7 ∷ run 1 ∷ work 0 0 ∷ give 8 ∷ [])

abbrev later : Run late.last
unfolding acts from
later = acts (from late.last) (work 0 0 ∷ work 0 0 ∷ work 0 0 ∷ work 0 0 ∷ work 0 0 ∷ drive ∷ [])

late_waiting : late.last.driver ≡ waiting
unfolding acts from act is_free is_running is_outside submit set_phase push_bottom submit_local
    submit_injected push_all run_start run_driver start_victim victim_at none_found try_attempt
    start_task set_deque pop_task steal_task finish_task worker_step pop_back add64 sub64 le_i64
    dec_lt
late_waiting = refl

late_queue : 0 < length late.last.inject_queue
unfolding acts from act is_free is_running is_outside submit set_phase push_bottom submit_local
    submit_injected push_all run_start run_driver start_victim victim_at none_found try_attempt
    start_task set_deque pop_task steal_task finish_task worker_step pop_back add64 sub64 le_i64
    dec_lt
late_queue = omega arith

later_small : length later.last.submitted < 2 ^ 63
unfolding acts from act is_free is_running is_outside submit set_phase push_bottom submit_local
    submit_injected push_all run_start run_driver start_victim victim_at none_found try_attempt
    start_task set_deque pop_task steal_task finish_task worker_step pop_back add64 sub64 le_i64
    dec_lt
later_small = omega arith

stranded-run_waits_example : (later.last.driver ≡ waiting) × (0 < length later.last.inject_queue)
stranded-run_waits_example =
    stranded-run_waits late.reach late_waiting late_queue later.reach later_small

victim_at-other_example :
    (start_victim 4 2 11 < 4)
    × ((victim_at 4 2 (start_victim 4 2 11) 1 < 4) × (victim_at 4 2 (start_victim 4 2 11) 1 ≢ 2))
victim_at-other_example = victim_at-other 4 2 11 1 (omega arith) (omega arith)

-- Of four idle workers, the thief 0 that starts at 3 tries 3, 1 and 1, and never 2.
abbrev idle_four : Scheduler
idle_four = record fresh { size = 4 }

idle_round :
    tries 4 (worker_step idle_four 0 2 true checking_shutdown) 0 (stealing 3 0) ≡ 3 ∷ 1 ∷ 1 ∷ []
unfolding tries worker_step set_phase start_victim victim_at none_found try_attempt steal_task
idle_round = refl

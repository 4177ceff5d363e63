-- ===== src/MutexQueue/Tests.antt =====
-- include/mutex_queue_scheduler.hpp: schedules that are run, among them one that loses the wake-up.
use lock_free_work_stealing.Base.{
  ℕ, ◌+◌, ◌^◌, ◌<◌, ◌≡◌, ◌≢◌, refl, arith, Bool, true, false, Option, none, some, List, [], ◌∷◌,
  ◌⊎◌, inl, inr, count, length, dec_lt, add64, sub64,
}
use lock_free_work_stealing.MutexQueue.{
  Phase, locking, sleeping, running, finishing, notifying, returned, Driver, blocked, outside,
  deciding, announcing, Monitor, fresh, submit, notify_one, take_task, worker_step, run_start,
  run_driver, holds_lock, locked, works, drives, Reach, here, next, external, runs,
}
use lock_free_work_stealing.MutexQueue.Invariant.{busy_count}
use lock_free_work_stealing.MutexQueue.Safety.{Monitor-accounts, wait_ends-all_ran}
use lock_free_work_stealing.MutexQueue.LostWakeup.{Hung, none_yet, also, Hung-blocked}

data Act : Type 0 where
  give : ℕ → Act
  run : ℕ → Act
  work : ℕ → Act
  drive : Act

record Run : Type 0 where
  last : Monitor
  reach : Reach last

lock_free : (b : Bool) → Option (b ≡ false)
lock_free false = some refl
lock_free true = none

is_outside : (d : Driver) → Option (d ≡ outside)
is_outside outside = some refl
is_outside _ = none

is_locking : (p : Phase) → (p ≡ locking) ⊎ (p ≢ locking)
is_locking locking = inl refl
is_locking sleeping = inr (λ e. ground (arith, e))
is_locking (running task) = inr (λ e. ground (arith, e))
is_locking finishing = inr (λ e. ground (arith, e))
is_locking notifying = inr (λ e. ground (arith, e))
is_locking returned = inr (λ e. ground (arith, e))

-- What cannot be done is passed over.
act : Run → Act → Run
unfolding lock_free is_outside is_locking
act r (give task) = elim (lock_free (holds_lock r.last.driver)) [
  | some e ↦ record { last = _; reach = external task r.reach e }
  | none ↦ r
]
act r (run n) = elim (is_outside r.last.driver) [
  | some d ↦ record { last = _; reach = runs n r.reach d }
  | none ↦ r
]
act r (work i) = elim (dec_lt i r.last.size) [
  | yes l ↦ elim (is_locking (r.last.threads i)) [
    | inl e ↦ elim (lock_free (holds_lock r.last.driver)) [
      | some f ↦ record { last = _; reach = next r.reach (locked i l e f) }
      | none ↦ r
    ]
    | inr ne ↦ record { last = _; reach = next r.reach (works i (r.last.threads i) l refl ne) }
  ]
  | no l ↦ r
]
act r drive = record { last = _; reach = next r.reach drives }

acts : Run → List Act → Run
unfolding act
acts r [] = r
acts r (x ∷ xs) = acts (act r x) xs

-- The only worker finishes the only task after `run` has tested `pending_` and before it blocks.
abbrev lost : Run
unfolding acts
lost =
    acts (record { last = fresh; reach = here })
      (give 7 ∷ run 1 ∷ work 0 ∷ work 0 ∷ drive ∷ drive ∷ work 0 ∷ work 0 ∷ drive ∷ work 0 ∷ [])

lost_pending : (lost.last.pending ≡ 0) × (lost.last.ran ≡ 7 ∷ [])
unfolding acts act lock_free is_outside is_locking submit notify_one take_task worker_step run_start
    run_driver add64 sub64 dec_lt
lost_pending = (refl, refl)

lost-Hung : Hung lost.last
unfolding acts act lock_free is_outside is_locking submit notify_one take_task worker_step run_start
    run_driver add64 sub64 dec_lt
lost-Hung = record { waits = refl; nothing = refl; running_on = refl; idle = λ i l. ground arith }

Hung-blocked_example :
    ((run_driver lost.last lost.last.driver).driver ≡ blocked)
    × ((run_driver lost.last lost.last.driver).queue ≡ [])
Hung-blocked_example = Hung-blocked lost-Hung (also none_yet drives)

-- `run` tests `pending_` after the worker has finished.
abbrev ended : Run
unfolding acts
ended =
    acts (record { last = fresh; reach = here })
      (give 7 ∷ run 1 ∷ work 0 ∷ work 0 ∷ work 0 ∷ work 0 ∷ drive ∷ [])

ended_small : length ended.last.submitted < 2 ^ 63
unfolding acts act lock_free is_outside is_locking submit notify_one take_task worker_step run_start
    run_driver add64 sub64 dec_lt
ended_small = omega arith

Monitor-accounts_example :
    (count 7 ended.last.submitted ≡ count 7 ended.last.queue + count 7 ended.last.ran)
    × (ended.last.pending ≡ length ended.last.queue + busy_count ended.last)
Monitor-accounts_example = Monitor-accounts ended.reach ended_small 7

ended_deciding : ended.last.driver ≡ deciding
unfolding acts act lock_free is_outside is_locking submit notify_one take_task worker_step run_start
    run_driver add64 sub64 dec_lt
ended_deciding = refl

ended_announcing : (run_driver ended.last deciding).driver ≡ announcing
unfolding acts act lock_free is_outside is_locking submit notify_one take_task worker_step run_start
    run_driver add64 sub64 dec_lt
ended_announcing = refl

wait_ends-all_ran_example :
    (count 7 ended.last.submitted ≡ count 7 ended.last.ran) × (busy_count ended.last ≡ 0)
wait_ends-all_ran_example =
    wait_ends-all_ran ended.reach ended_small 7 ended_deciding ended_announcing

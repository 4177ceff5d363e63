-- ===== src/LockFree/Tests.antt =====
-- include/lockfree_queue_scheduler.hpp: interleavings that are run, and the theorems at the states that
-- they reach.
use lock_free_work_stealing.Base.{
  ℕ, ◌+◌, ◌^◌, ◌≤◌, ◌<◌, ◌≡◌, ◌⊎◌, refl, arith, false, Option, none, some, List, [], ◌∷◌, count,
  add64, sub64, lt_i64,
}
use lock_free_work_stealing.LockFree.{
  ring_size, Op, idle, storing, Ring, fresh, reserve, compare_seq, op_step, Step, enqueues,
  dequeues, moves, Reach, here, next,
}
use lock_free_work_stealing.LockFree.Invariant.{reserved}
use lock_free_work_stealing.LockFree.Invariant.Steps.{enqueued}
use lock_free_work_stealing.LockFree.Queue.{takes, queued, hands, Does, effect, Step-Does}
use lock_free_work_stealing.LockFree.Safety.{taken-entered, storing-bounded, unclaimed-placed}

data Act : Type 0 where
  enqueue : ℕ → ℕ → Act
  dequeue : ℕ → Act
  move : ℕ → Act

record Run : Type 0 where
  last : Ring
  reach : Reach last

op_is_idle : (o : Op) → Option (o ≡ idle)
op_is_idle idle = some refl
op_is_idle _ = none

-- A call by a thread that is in a method is passed over.
act : Run → Act → Run
unfolding op_is_idle
act r (enqueue i task) = elim (op_is_idle (r.last.threads i)) [
  | some e ↦ record { last = _; reach = next r.reach (enqueues i task e) }
  | none ↦ r
]
act r (dequeue i) = elim (op_is_idle (r.last.threads i)) [
  | some e ↦ record { last = _; reach = next r.reach (dequeues i e) }
  | none ↦ r
]
act r (move i) = record { last = _; reach = next r.reach (moves i false) }

acts : Run → List Act → Run
unfolding act
acts r [] = r
acts r (x ∷ xs) = acts (act r x) xs

-- Thread 1 enqueues 7, thread 2 enqueues 8; threads 3 and 4 dequeue, and 4 loses the race for the
-- first position.
abbrev raced : Run
unfolding acts
raced =
    acts (record { last = fresh; reach = here })
      (enqueue 1 7
        ∷ enqueue 2 8
        ∷ move 1
        ∷ move 1
        ∷ move 1
        ∷ move 2
        ∷ move 2
        ∷ move 2
        ∷ dequeue 3
        ∷ dequeue 4
        ∷ move 3
        ∷ move 4
        ∷ move 3
        ∷ move 4
        ∷ move 3
        ∷ move 4
        ∷ move 3
        ∷ move 4
        ∷ move 4
        ∷ [])

raced_taken : raced.last.taken ≡ 0 ∷ []
unfolding acts act op_is_idle reserve compare_seq op_step add64 sub64 lt_i64
raced_taken = refl

raced_small : enqueued raced.reach < 2 ^ 62
unfolding acts act op_is_idle reserve compare_seq op_step add64 sub64 lt_i64
raced_small = omega arith

taken-entered_example :
    (0 < enqueued raced.reach)
    × ((count 0 raced.last.taken ≡ 1) × (raced.last.got 0 ≡ some (raced.last.entered 0)))
unfolding acts act op_is_idle reserve compare_seq op_step add64 sub64 lt_i64
taken-entered_example = taken-entered raced.reach raced_small 0 (omega arith)

abbrev half : Run
unfolding acts
half = acts (record { last = fresh; reach = here }) (enqueue 1 7 ∷ enqueue 2 8 ∷ move 2 ∷ [])

half_small : enqueued half.reach < 2 ^ 62
unfolding acts act op_is_idle reserve compare_seq op_step add64 sub64 lt_i64
half_small = omega arith

half_storing : half.last.threads 2 ≡ storing 1 8
unfolding acts act op_is_idle reserve compare_seq op_step add64 sub64 lt_i64
half_storing = refl

storing-bounded_example : (half.last.tail ≤ 1) × (1 < half.last.tail + ring_size)
storing-bounded_example = storing-bounded half.reach half_small 2 1 8 half_storing

-- The position of 7 is reserved by thread 1; that of 8 too, by thread 2.
half_unclaimed : (half.last.tail ≤ 1) × (1 < half.last.head)
unfolding acts act op_is_idle reserve compare_seq op_step add64 sub64 lt_i64
half_unclaimed = (omega arith, omega arith)

unclaimed-placed_example :
    ((i : ℕ) × (reserved (half.last.threads i) ≡ some 1))
    ⊎ ((half.last.sequence 1 ≡ 1 + 1) × (half.last.payload 1 ≡ some (half.last.entered 1)))
unclaimed-placed_example =
    unclaimed-placed half.reach half_small 1 (half_unclaimed.0) (half_unclaimed.1)

-- Thread 3 is about to claim the first position.
abbrev racing : Run
unfolding acts
racing =
    acts (record { last = fresh; reach = here })
      (enqueue 1 7 ∷ enqueue 2 8 ∷ move 1 ∷ move 1 ∷ move 1 ∷ dequeue 3 ∷ move 3 ∷ move 3 ∷ [])

abbrev racing_step : Step racing.last (op_step racing.last 3 false (racing.last.threads 3))
unfolding acts
racing_step = moves 3 false

racing_effect : effect racing_step ≡ takes 3
unfolding acts act op_is_idle reserve compare_seq op_step add64 sub64 lt_i64
racing_effect = refl

racing_small : enqueued (next racing.reach racing_step) < 2 ^ 62
unfolding acts act op_is_idle reserve compare_seq op_step add64 sub64 lt_i64
racing_small = omega arith

Step-Does_example :
    let t = op_step racing.last 3 false (racing.last.threads 3) in
    Does (effect racing_step) (queued racing.last) (hands racing.last) (queued t) (hands t)
Step-Does_example = Step-Does racing.reach racing_step racing_small

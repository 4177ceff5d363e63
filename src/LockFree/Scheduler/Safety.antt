-- ===== src/LockFree/Scheduler/Safety.antt =====
-- include/lockfree_queue_scheduler.hpp: no task is lost or run twice, and what is done where the wait of
-- `run` ends.
use lock_free_work_stealing.Base.{
  ℕ, ◌+◌, ◌*◌, ◌-◌, ◌^◌, ◌≤◌, ◌<◌, ◌≡◌, refl, ap, arith, Bool, true, false, [], ◌==◌, if◌then◌else◌,
  count, length, sum_to, sum_of, sum_to-ext, sum_to-add, sum_to-term, sum_to-vanish, sum_of-ones,
  one_if_eq, count-sum, lt_i64, dec_lt, ℕ_discrete,
}
use lock_free_work_stealing.LockFree.{Op, Ring}
use lock_free_work_stealing.LockFree.Queue.{queued, window}
use lock_free_work_stealing.LockFree.Scheduler.{Phase, watching, stopping, Pool, run_driver, Reach}
use lock_free_work_stealing.LockFree.Scheduler.Moves.{op_weight}
use lock_free_work_stealing.LockFree.Scheduler.Invariant.{
  new_weight, busy_weight, entered_sum, taken_sum, held_sum, PoolInv, taken-count,
}
use lock_free_work_stealing.LockFree.Scheduler.Invariant.Reached.{Reach-PoolInv}

-- The tasks at positions that were reserved and not emptied, by weight.
abbrev pub waiting_sum : Ring → (ℕ → ℕ) → ℕ
waiting_sum r w = sum_to r.head (λ p. if count p r.taken == 0 then w (r.entered p) else 0)

-- The tasks that were counted in `pending_` and not started, by weight: a thread is about to
-- reserve a position for it, it is at its position, or a thread is about to return it.
abbrev pub unstarted : ℕ → Pool → (ℕ → ℕ) → ℕ
unstarted limit s w =
    sum_to limit (λ i. new_weight w (s.threads i)) + waiting_sum s.ring w + held_sum limit s.ring w

-- The tasks that workers have started and not counted as done, by weight.
abbrev pub unfinished : ℕ → Pool → (ℕ → ℕ) → ℕ
unfinished limit s w = sum_to limit (λ i. busy_weight w (s.threads i))

split_term : (c a : ℕ) → c ≤ 1 → c * a + (if c == 0 then a else 0) ≡ a
split_term c a h = elim (ℕ_discrete c 0) [
  | yes e ↦ rw e (omega arith)
  | no ne ↦ let e : c ≡ 1 = omega arith in rw e (omega arith)
]

module _ {limit : ℕ} {s : Pool} (inv : PoolInv limit s) where
  entered-split : (w : ℕ → ℕ) → entered_sum s.ring w ≡ taken_sum s.ring w + waiting_sum s.ring w
  entered-split w = omega (
    arith,
    taken-count inv w,
    sum_to-add s.ring.head (λ p. count p s.ring.taken * w (s.ring.entered p))
        (λ p. if count p s.ring.taken == 0 then w (s.ring.entered p) else 0),
    sum_to-ext s.ring.head
        (λ p.
          count p s.ring.taken * w (s.ring.entered p)
          + (if count p s.ring.taken == 0 then w (s.ring.entered p) else 0))
        (λ p. w (s.ring.entered p))
        (λ p l. split_term (count p s.ring.taken) (w (s.ring.entered p)) (inv.ring.once p)),
  )

  submitted-split : (w : ℕ → ℕ) → sum_of w s.submitted ≡ sum_of w s.ran + unstarted limit s w
  submitted-split w = omega (arith, inv.entered w, entered-split w, inv.taken w)

  pending-split : s.pending ≡ unstarted limit s (λ _. 1) + unfinished limit s (λ _. 1)
  pending-split = omega (
    arith,
    inv.counted,
    submitted-split (λ _. 1),
    inv.started (λ _. 1),
    sum_of-ones s.submitted,
    sum_of-ones s.done,
  )

  -- Where nothing is unstarted, each task was started as often as it was counted.
  unstarted-vanish : (w : ℕ → ℕ) → unstarted limit s (λ _. 1) ≡ 0 → unstarted limit s w ≡ 0
  unstarted-vanish w z = omega (
    arith,
    sum_to-vanish limit (λ i. new_weight (λ _. 1) (s.threads i)) (λ i. new_weight w (s.threads i))
        (λ i e. new (s.threads i) e) (omega arith),
    sum_to-vanish s.ring.head (λ p. if count p s.ring.taken == 0 then 1 else 0)
        (λ p. if count p s.ring.taken == 0 then w (s.ring.entered p) else 0)
        (λ p e. ground (arith, e)) (omega arith),
    sum_to-vanish limit (λ i. op_weight (λ _. 1) (s.ring.threads i))
        (λ i. op_weight (λ p. w (s.ring.entered p)) (s.ring.threads i))
        (λ i e. held (s.ring.threads i) e) (omega arith),
  )
    where
      new : (p : Phase) → new_weight (λ _. 1) p ≡ 0 → new_weight w p ≡ 0
      new p e = ground (arith, e)

      held : (o : Op) → op_weight (λ _. 1) o ≡ 0 → op_weight (λ p. w (s.ring.entered p)) o ≡ 0
      held o e = ground (arith, e)

  waiting-queued : waiting_sum s.ring (λ _. 1) ≡ 0 → queued s.ring ≡ []
  waiting-queued z = elim (dec_lt s.ring.tail s.ring.head) [
    | yes p ↦
        let last = inv.ring.later s.ring.tail (omega arith) in
        let term =
          sum_to-term s.ring.head (λ p. if count p s.ring.taken == 0 then 1 else 0) s.ring.tail p in
        absurd (ground (arith, last, term, z))
    | no np ↦
        let e : s.ring.head - s.ring.tail ≡ 0 = omega arith in
        ap (window s.ring.entered s.ring.tail) e
  ]

left_wait :
    (s : Pool) (b : Bool)
    → s.driver ≡ watching
    → (if b then s else record s { driver = stopping }).driver ≡ stopping
    → b ≡ false
left_wait s true d e = absurd (ground (arith, d, e))
left_wait s false d e = refl

not_positive : (n : ℕ) → n < 2 ^ 63 → lt_i64 0 n ≡ false → n ≡ 0
unfolding lt_i64
not_positive n p e = ground arith

watched-zero :
    (s : Pool)
    → s.pending < 2 ^ 63
    → s.driver ≡ watching
    → (run_driver s watching).driver ≡ stopping
    → s.pending ≡ 0
unfolding run_driver
watched-zero s p d e = not_positive s.pending p (left_wait s (lt_i64 0 s.pending) d e)

module _ {limit : ℕ} {s : Pool} (r : Reach limit s) (small : length s.submitted < 2 ^ 62) where
  -- In every state of the lock-free scheduler that its threads reach with fewer than 2^62
  -- submissions: of each task, as many copies were counted in `pending_` as were started or are
  -- unstarted; and `pending_` is the number of unstarted and of unfinished tasks.
  pub Pool-accounts :
      (task : ℕ)
      → (count task s.submitted ≡ count task s.ran + unstarted limit s (λ x. one_if_eq x task))
        × (s.pending ≡ unstarted limit s (λ _. 1) + unfinished limit s (λ _. 1))
  Pool-accounts task =
      let inv = Reach-PoolInv r small in
      (
        omega (
          arith,
          submitted-split inv (λ x. one_if_eq x task),
          count-sum task s.submitted,
          count-sum task s.ran,
        ),
        pending-split inv,
      )

  -- In every state of the lock-free scheduler that its threads reach with fewer than 2^62
  -- submissions: where `run` leaves its wait, each task was started as often as it was counted in
  -- `pending_`, no worker is in a task, and the queue is empty.
  pub stopping-all_ran :
      (task : ℕ)
      → s.driver ≡ watching
      → (run_driver s watching).driver ≡ stopping
      → (count task s.submitted ≡ count task s.ran)
        × ((unfinished limit s (λ _. 1) ≡ 0) × (queued s.ring ≡ []))
  stopping-all_ran task d e =
      let inv = Reach-PoolInv r small in
      let (a, b) = Pool-accounts task in
      let z = watched-zero s (omega (arith, inv.counted)) d e in
      let none_left : unstarted limit s (λ _. 1) ≡ 0 = omega arith in
      (
        omega (arith, unstarted-vanish inv (λ x. one_if_eq x task) none_left),
        (omega arith, waiting-queued inv (omega arith)),
      )

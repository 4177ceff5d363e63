-- ===== src/LockFree/Scheduler/Invariant.antt =====
-- include/lockfree_queue_scheduler.hpp: `pending_` and the histories against the ring and the threads.
pub mod Submits
pub mod Actions
pub mod Enters
pub mod Polls
pub mod Steps
pub mod Reached
use lock_free_work_stealing.Base.{
  ℕ, ◌+◌, ◌*◌, ◌≤◌, ◌<◌, ◌≡◌, ◌∙◌, refl, sym, ap, subst, arith, true, false, Option, none, some,
  List, length, sum_to, sum_of, sum_of-ones, sum_to-ones, sum_to-update, sum_to-at, update,
  update_ind, count, sum_of-count, sum_to_mono, dec_lt,
}
use lock_free_work_stealing.LockFree.{Op, idle, Ring}
use lock_free_work_stealing.LockFree.Invariant.{Inv}
use lock_free_work_stealing.LockFree.Invariant.Enqueue.{taken_lt}
use lock_free_work_stealing.LockFree.Scheduler.{
  Phase, outside, announcing, inserting, entering, polling, running, finishing, checking, returned,
  Driver, Pool,
}
use lock_free_work_stealing.LockFree.Scheduler.Moves.{is_enqueue, op_weight, Moved}

-- The task that a thread has counted and not entered, by weight.
abbrev pub new_weight : (ℕ → ℕ) → Phase → ℕ
new_weight w (inserting caller task) = w task
new_weight w _ = 0

abbrev pub caller_weight : (ℕ → ℕ) → Option ℕ → ℕ
caller_weight w none = 0
caller_weight w (some task) = w task

-- The task that a worker has started and not counted as done, by weight.
abbrev pub busy_weight : (ℕ → ℕ) → Phase → ℕ
busy_weight w (announcing caller task) = caller_weight w caller
busy_weight w (inserting caller task) = caller_weight w caller
busy_weight w (entering caller) = caller_weight w caller
busy_weight w (running task) = w task
busy_weight w (finishing task) = w task
busy_weight w _ = 0

-- The tasks of all positions that were reserved, of those that were emptied, and of those among
-- them whose task has not been returned, by weight.
abbrev pub entered_sum : Ring → (ℕ → ℕ) → ℕ
entered_sum r w = sum_to r.head (λ p. w (r.entered p))

abbrev pub taken_sum : Ring → (ℕ → ℕ) → ℕ
taken_sum r w = sum_of (λ p. w (r.entered p)) r.taken

abbrev pub held_sum : ℕ → Ring → (ℕ → ℕ) → ℕ
held_sum limit r w = sum_to limit (λ j. op_weight (λ p. w (r.entered p)) (r.threads j))

-- A thread is in `enqueue`, in `dequeue` or in neither, as its place in the scheduler says.
abbrev pub Fits : Phase → Op → Type 0
Fits (entering caller) op = is_enqueue op ≡ true
Fits polling op = is_enqueue op ≡ false
Fits _ op = op ≡ idle

pub record PoolInv (limit : ℕ) (s : Pool) : Type 0 where
  pub ring : Inv s.ring
  pub fits : (i : ℕ) → Fits (s.threads i) (s.ring.threads i)
  pub entered :
      (w : ℕ → ℕ)
      → sum_of w s.submitted ≡ entered_sum s.ring w + sum_to limit (λ i. new_weight w (s.threads i))
  pub taken : (w : ℕ → ℕ) → taken_sum s.ring w ≡ sum_of w s.ran + held_sum limit s.ring w
  pub started :
      (w : ℕ → ℕ)
      → sum_of w s.ran ≡ sum_of w s.done + sum_to limit (λ i. busy_weight w (s.threads i))
  pub counted : s.pending + length s.done ≡ length s.submitted
  pub bounded : s.size ≤ limit

module _ {limit : ℕ} {s : Pool} (inv : PoolInv limit s) where
  pub head-le : s.ring.head ≤ length s.submitted
  head-le = omega (arith, inv.entered (λ _. 1), sum_of-ones s.submitted, sum_to-ones s.ring.head)

  -- What was taken, by how often each position was.
  pub taken-count :
      (w : ℕ → ℕ)
      → taken_sum s.ring w ≡ sum_to s.ring.head (λ p. count p s.ring.taken * w (s.ring.entered p))
  taken-count w =
      sum_of-count s.ring.head (λ p. w (s.ring.entered p)) s.ring.taken
        (λ p l. inv.ring.later p (omega (arith, inv.ring.ordered)))

  pub taken-le : (w : ℕ → ℕ) → taken_sum s.ring w ≤ entered_sum s.ring w
  taken-le w = omega (
    arith,
    taken-count w,
    sum_to_mono s.ring.head (λ p. count p s.ring.taken * w (s.ring.entered p))
        (λ p. w (s.ring.entered p)) (λ p l. once (count p s.ring.taken) _ (inv.ring.once p)),
  )
    where
      once : (c a : ℕ) → c ≤ 1 → c * a ≤ a
      once c a h = elim (dec_lt 0 c) [
        | yes p ↦ let e : c ≡ 1 = omega arith in rw e (omega arith)
        | no p ↦ let e : c ≡ 0 = omega arith in rw e (omega arith)
      ]

  -- A thread that goes elsewhere and keeps what it has.
  pub place-PoolInv :
      (i : ℕ) (p : Phase)
      → i < limit
      → Fits p (s.ring.threads i)
      → ((w : ℕ → ℕ) → new_weight w p ≡ new_weight w (s.threads i))
      → ((w : ℕ → ℕ) → busy_weight w p ≡ busy_weight w (s.threads i))
      → PoolInv limit (record s { threads = update s.threads i p })
  place-PoolInv i p l fit new busy = record {
    ring = inv.ring;
    fits = λ j.
        update_ind s.threads (λ q. Fits q (s.ring.threads j)) i j p
          (λ e. subst (λ k. Fits p (s.ring.threads k)) e fit) (λ ne. inv.fits j);
    entered = λ w.
        omega (arith, inv.entered w, sum_to-update limit (new_weight w) s.threads i p l, new w);
    taken = inv.taken;
    started = λ w.
        omega (arith, inv.started w, sum_to-update limit (busy_weight w) s.threads i p l, busy w);
    counted = inv.counted;
    bounded = inv.bounded;
  }

-- An action on the ring takes out what it leaves with the thread or hands over.
pub Moved-sums :
    {r t : Ring} {i : ℕ} (limit : ℕ) (w : ℕ → ℕ)
    → i < limit
    → Moved r i (r.threads i) t
    → (entered_sum t w ≡ entered_sum r w)
      × (taken_sum t w + held_sum limit r w
          ≡ taken_sum r w + held_sum limit t w + op_weight (λ p. w (r.entered p)) (r.threads i))
Moved-sums {r} {t} {i} limit w l m = (
  ap (λ f. sum_to t.head (λ p. w (f p))) m.entered
      ∙ ap (λ h. sum_to h (λ p. w (r.entered p))) m.head,
  omega (
    arith,
    ap (λ f. sum_of (λ p. w (f p)) t.taken) m.entered,
    ap (λ f. sum_to limit (λ j. op_weight (λ p. w (f p)) (t.threads j))) m.entered,
    m.taken (λ p. w (r.entered p)),
    sum_to-at limit (λ j. op_weight (λ p. w (r.entered p)) (t.threads j))
        (λ j. op_weight (λ p. w (r.entered p)) (r.threads j)) i l
        (λ j q ne. ap (op_weight (λ p. w (r.entered p))) (m.others j ne)),
  ),
)

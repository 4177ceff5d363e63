-- ===== src/LockFree/Safety.antt =====
-- include/lockfree_queue_scheduler.hpp: what `dequeue` returns, in which order, and how far `enqueue`
-- can run ahead.
use lock_free_work_stealing.Base.{
  sym, bit_and, bit_and-mask, ◌-◌, ℕ, ◌+◌, ◌^◌, ◌≤◌, ◌<◌, ◌≡◌, ◌⊎◌, inl, inr, subst, arith, some,
  count,
}
use lock_free_work_stealing.LockFree.{ring_size, slot_of, storing, Ring, Reach}
use lock_free_work_stealing.LockFree.Invariant.{reserved, OpOk, SlotOk, free, full}
use lock_free_work_stealing.LockFree.Invariant.Frame.{filling-range, drained-range}
use lock_free_work_stealing.LockFree.Invariant.Enqueue.{slot_of-lt, taken_lt}
use lock_free_work_stealing.LockFree.Invariant.Steps.{enqueued, enqueued-head, Reach-Inv}
use lock_free_work_stealing.LockFree.Invariant.Filled.{Reach-Filled}

-- The slot of a position, `pos & kMask` in the code, is its remainder.
pub slot_of-mask : (pos : ℕ) → slot_of pos ≡ bit_and pos (ring_size - 1)
slot_of-mask pos = sym (bit_and-mask pos 17)

slot_ahead :
    (s : Ring) (pos : ℕ)
    → SlotOk s (slot_of pos)
    → pos + 1 < s.sequence (slot_of pos)
    → pos < s.tail
slot_ahead s pos (free p a f low high) q = omega arith
slot_ahead s pos (full p a f below high wrap holds) q = omega arith

module _ {s : Ring} (r : Reach s) (small : enqueued r < 2 ^ 62) where
  -- In every state that is reached with fewer than 2^62 calls of `enqueue`: a position at which
  -- some `dequeue` has exchanged the payload was reserved, it was exchanged once only, and what
  -- came out is the task that was enqueued at it, so never nullptr.
  pub taken-entered :
      (pos : ℕ)
      → 0 < count pos s.taken
      → (pos < enqueued r) × ((count pos s.taken ≡ 1) × (s.got pos ≡ some (s.entered pos)))
  taken-entered pos c =
      let inv = Reach-Inv r small in
      let l = taken_lt inv pos c in
      let o = inv.ordered in
      let n = inv.once pos in (omega (arith, enqueued-head r small), (omega arith, inv.right pos c))

  -- In every state that is reached with fewer than 2^62 calls of `enqueue`: a thread that has passed
  -- the wait in `enqueue` stores at a position below `tail_` plus the size of the ring, which no
  -- `dequeue` has claimed.
  pub storing-bounded :
      (i pos task : ℕ)
      → s.threads i ≡ storing pos task
      → (s.tail ≤ pos) × (pos < s.tail + ring_size)
  storing-bounded i pos task e =
      let inv = Reach-Inv r small in
      let ok = subst (OpOk s) e (inv.each i) in
      filling-range s pos ok.1.1 (inv.slots (slot_of pos) (slot_of-lt pos))

  -- In every state that is reached with fewer than 2^62 calls of `enqueue`: where the sequence of
  -- the slot of a position is above the position and one, the position was claimed already.
  pub ahead-claimed : (pos : ℕ) → pos + 1 < s.sequence (slot_of pos) → pos < s.tail
  ahead-claimed pos p =
      let inv = Reach-Inv r small in slot_ahead s pos (inv.slots (slot_of pos) (slot_of-lt pos)) p

  -- In every state that is reached with fewer than 2^62 calls of `enqueue`: of each position that was
  -- reserved and not claimed, either a thread in `enqueue` still has it, or its slot holds the task
  -- that was enqueued at it, with the sequence that lets `dequeue` claim it.
  pub unclaimed-placed :
      (pos : ℕ)
      → s.tail ≤ pos
      → pos < s.head
      → ((i : ℕ) × (reserved (s.threads i) ≡ some pos))
        ⊎ ((s.sequence (slot_of pos) ≡ pos + 1) × (s.payload (slot_of pos) ≡ some (s.entered pos)))
  unclaimed-placed pos low high = elim (Reach-Filled r small pos low high) [
    | inl h ↦ inl h
    | inr f ↦
        let inv = Reach-Inv r small in
        let range = drained-range s pos f (inv.slots (slot_of pos) (slot_of-lt pos)) in
        inr (f, range.1.1.1 low)
  ]

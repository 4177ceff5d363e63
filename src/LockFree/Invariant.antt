-- ===== src/LockFree/Invariant.antt =====
-- include/lockfree_queue_scheduler.hpp: the sequence numbers against `head_`, `tail_` and what the
-- threads do.
pub mod Frame
pub mod Enqueue
pub mod Dequeue
pub mod Steps
pub mod Filled
use lock_free_work_stealing.Base.{
  ℕ, zero, suc, ◌+◌, ◌-◌, ◌%◌, ◌≤◌, ◌<◌, ◌≡◌, ◌≢◌, Option, none, some, List, count,
}
use lock_free_work_stealing.LockFree.{
  ring_size, slot_of, Op, idle, awaiting, storing, publishing, loading, reading, claiming, taking,
  returning, reloading, Ring,
}

-- The position that a thread in `enqueue` has reserved, and the one that a thread in `dequeue` has
-- claimed.
abbrev pub reserved : Op → Option ℕ
reserved (awaiting pos task) = some pos
reserved (storing pos task) = some pos
reserved (publishing pos) = some pos
reserved _ = none

abbrev pub claimed : Op → Option ℕ
claimed (taking pos) = some pos
claimed (returning pos) = some pos
claimed _ = none

-- What holds of a thread with the slots as they are.
abbrev pub OpOk : Ring → Op → Type 0
OpOk s idle = 0 ≤ 0
OpOk s (awaiting pos task) = (pos < s.head) × (s.entered pos ≡ task)
OpOk s (storing pos task) =
    (pos < s.head) × ((s.entered pos ≡ task) × (s.sequence (slot_of pos) ≡ pos))
OpOk s (publishing pos) =
    (pos < s.head)
    × ((s.payload (slot_of pos) ≡ some (s.entered pos)) × (s.sequence (slot_of pos) ≡ pos))
OpOk s loading = 0 ≤ 0
OpOk s (reading pos) = pos ≤ s.tail
OpOk s (claiming pos) = (pos ≤ s.tail) × (s.tail ≤ pos → s.sequence (slot_of pos) ≡ pos + 1)
OpOk s (taking pos) =
    (pos < s.tail)
    × ((s.sequence (slot_of pos) ≡ pos + 1)
        × ((s.payload (slot_of pos) ≡ some (s.entered pos)) × (count pos s.taken ≡ 0)))
OpOk s (returning pos) =
    (pos < s.tail) × ((s.sequence (slot_of pos) ≡ pos + 1) × (0 < count pos s.taken))
OpOk s reloading = 0 ≤ 0

-- A slot is free for the position that its number names, or holds the position before it.
pub data SlotOk (s : Ring) (k : ℕ) : Type 0 where
  free :
      (pos : ℕ)
      → s.sequence k ≡ pos
      → slot_of pos ≡ k
      → s.tail ≤ pos
      → pos < s.tail + ring_size
      → SlotOk s k
  full :
      (pos : ℕ)
      → s.sequence k ≡ pos + 1
      → slot_of pos ≡ k
      → pos < s.head
      → pos < s.tail + ring_size
      → s.tail ≤ pos + ring_size
      → (s.tail ≤ pos → s.payload k ≡ some (s.entered pos))
      → SlotOk s k

-- No two threads hold one position.
abbrev pub Apart : (Op → Option ℕ) → (ℕ → Op) → Type 0
Apart held threads =
    (i j pos : ℕ) → held (threads i) ≡ some pos → held (threads j) ≡ some pos → i ≡ j

pub record Inv (s : Ring) : Type 0 where
  pub slots : (k : ℕ) → k < ring_size → SlotOk s k
  pub ordered : s.tail ≤ s.head
  pub each : (i : ℕ) → OpOk s (s.threads i)
  pub one_producer : Apart reserved s.threads
  pub one_consumer : Apart claimed s.threads
  pub once : (pos : ℕ) → count pos s.taken ≤ 1
  pub later : (pos : ℕ) → s.tail ≤ pos → count pos s.taken ≡ 0
  pub right : (pos : ℕ) → 0 < count pos s.taken → s.got pos ≡ some (s.entered pos)

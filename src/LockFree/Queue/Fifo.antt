-- ===== src/LockFree/Queue/Fifo.antt =====
-- include/lockfree_queue_scheduler.hpp: what enqueue and dequeue promise of a first-in first-out queue.
use lock_free_work_stealing.Base.{
  ◌≢◌, ℕ, zero, suc, ◌+◌, ◌-◌, ◌≡◌, Option, none, some, Bool, List, [], ◌∷◌, ◌++◌, if◌then◌else◌,
  not, ◌&&◌, ◌==◌,
}
use lock_free_work_stealing.LockFree.{
  slot_of, Op, claiming, taking, returning, Ring, Step, enqueues, dequeues, moves,
}

-- The entries of a family at `n` positions from `i` on.
abbrev pub window : (ℕ → ℕ) → ℕ → ℕ → List ℕ
window f i zero = []
window f i (suc n) = f i ∷ window f (i + 1) n

-- The tasks of the positions that are reserved and not claimed, oldest first.
abbrev pub queued : Ring → List ℕ
queued s = window s.entered s.tail (s.head - s.tail)

-- The task in a thread's hands: what stands in the slot that it has claimed in `dequeue`, until the
-- exchange, and what the exchange has read there, until `dequeue` returns it.
abbrev pub in_hands : Ring → Op → Option ℕ
in_hands s (taking pos) = s.payload (slot_of pos)
in_hands s (returning pos) = s.got pos
in_hands s _ = none

abbrev pub hands : Ring → ℕ → Option ℕ
hands s i = in_hands s (s.threads i)

-- What a step does to a queue with threads that take from it.
pub data Effect : Type 0 where
  keeps : Effect
  puts : ℕ → Effect
  takes : ℕ → Effect
  gives : ℕ → Effect

-- All hands but those of one thread are as before.
abbrev pub Others : ℕ → (ℕ → Option ℕ) → (ℕ → Option ℕ) → Type 0
Others i h h' = (j : ℕ) → j ≢ i → h' j ≡ h j

-- A queue and hands, before and after: tasks enter at the end of the queue, the one at its front goes
-- into the empty hands of the thread that takes it, and that thread then gives it to its caller.
abbrev pub Does : Effect → List ℕ → (ℕ → Option ℕ) → List ℕ → (ℕ → Option ℕ) → Type 0
Does keeps q h q' h' = (q' ≡ q) × ((j : ℕ) → h' j ≡ h j)
Does (puts task) q h q' h' = (q' ≡ q ++ task ∷ []) × ((j : ℕ) → h' j ≡ h j)
Does (takes i) q h q' h' =
    ((task : ℕ) × ((q ≡ task ∷ q') × (h' i ≡ some task))) × ((h i ≡ none) × Others i h h')
Does (gives i) q h q' h' =
    (q' ≡ q) × (((task : ℕ) × (h i ≡ some task)) × ((h' i ≡ none) × Others i h h'))

-- A compare-and-swap takes where it succeeds, and the last store of `dequeue` gives.
abbrev pub op_effect : Ring → ℕ → Bool → Op → Effect
op_effect s i spurious (claiming pos) = if s.tail == pos && not spurious then takes i else keeps
op_effect s i spurious (returning pos) = gives i
op_effect s i spurious _ = keeps

abbrev pub effect : {s t : Ring} → Step s t → Effect
effect (enqueues i task e) = puts task
effect (dequeues i e) = keeps
effect {s} (moves i spurious) = op_effect s i spurious (s.threads i)

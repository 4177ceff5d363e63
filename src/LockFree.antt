-- ===== src/LockFree.antt =====
-- include/lockfree_queue_scheduler.hpp: the ring, and one action of `enqueue` and of `dequeue` at a
-- time.
pub mod Invariant
pub mod Queue
pub mod Safety
pub mod Scheduler
pub mod Destructor
mod Tests
use lock_free_work_stealing.Base.{
  ℕ, zero, suc, ◌+◌, ◌%◌, ◌^◌, ◌<◌, ◌≡◌, Bool, true, false, Option, none, some, List, [], ◌∷◌, ◌==◌,
  add64, sub64, lt_i64, if◌then◌else◌, update, not, ◌&&◌,
}

abbrev pub ring_size : ℕ
ring_size = 131072

-- `pos & kMask`
abbrev pub slot_of : ℕ → ℕ
slot_of pos = pos % ring_size

-- Where a thread stands, with its locals. In `enqueue`: before the test of the sequence, before the
-- store of the payload, before that of the sequence. In `dequeue`: before the first load of `tail_`,
-- before the load of the sequence, before the compare-and-swap, before the exchange, before the
-- store of the sequence, before the load of `tail_` in the loop.
pub data Op : Type 0 where
  idle : Op
  awaiting : ℕ → ℕ → Op
  storing : ℕ → ℕ → Op
  publishing : ℕ → Op
  loading : Op
  reading : ℕ → Op
  claiming : ℕ → Op
  taking : ℕ → Op
  returning : ℕ → Op
  reloading : Op

-- The members, and the histories: the task that reserved each position, how the exchanges at
-- each position ended, and the positions of the exchanges, newest first. `none` is nullptr.
pub record Ring : Type 0 where
  pub sequence : ℕ → ℕ
  pub payload : ℕ → Option ℕ
  pub head : ℕ
  pub tail : ℕ
  pub threads : ℕ → Op
  pub entered : ℕ → ℕ
  pub got : ℕ → Option ℕ
  pub taken : List ℕ

-- The constructor
abbrev pub fresh : Ring
fresh = record {
  sequence = λ i. i;
  payload = λ _. none;
  head = 0;
  tail = 0;
  threads = λ _. idle;
  entered = λ _. 0;
  got = λ _. none;
  taken = [];
}

abbrev pub set_op : Ring → ℕ → Op → Ring
set_op s i op = record s { threads = update s.threads i op }

-- `enqueue` up to its `fetch_add`
unfoldable pub reserve : Ring → ℕ → ℕ → Ring
reserve s i task = record s {
  head = add64 s.head 1;
  threads = update s.threads i (awaiting s.head task);
  entered = update s.entered s.head task;
}

-- The branches of `dequeue` on `diff`.
unfoldable pub compare_seq : ℕ → ℕ → Op
compare_seq seq pos =
    let diff = sub64 seq (add64 pos 1) in
    if diff == 0 then claiming pos else (if lt_i64 diff 0 then idle else reloading)

-- The next action of thread `i`. A weak compare-and-swap may also fail where it need not.
unfoldable pub op_step : Ring → ℕ → Bool → Op → Ring
unfolding compare_seq
op_step s i spurious idle = s
op_step s i spurious (awaiting pos task) =
    if s.sequence (slot_of pos) == pos then set_op s i (storing pos task) else s
op_step s i spurious (storing pos task) = record s {
  payload = update s.payload (slot_of pos) (some task);
  threads = update s.threads i (publishing pos);
}
op_step s i spurious (publishing pos) = record s {
  sequence = update s.sequence (slot_of pos) (add64 pos 1);
  threads = update s.threads i idle;
}
op_step s i spurious loading = set_op s i (reading s.tail)
op_step s i spurious (reading pos) = set_op s i (compare_seq (s.sequence (slot_of pos)) pos)
op_step s i spurious (claiming pos) =
    if s.tail == pos && not spurious
    then record s { tail = add64 pos 1; threads = update s.threads i (taking pos) }
    else set_op s i (reading s.tail)
op_step s i spurious (taking pos) = record s {
  payload = update s.payload (slot_of pos) none;
  threads = update s.threads i (returning pos);
  got = update s.got pos (s.payload (slot_of pos));
  taken = pos ∷ s.taken;
}
op_step s i spurious (returning pos) = record s {
  sequence = update s.sequence (slot_of pos) (add64 pos ring_size);
  threads = update s.threads i idle;
}
op_step s i spurious reloading = set_op s i (reading s.tail)

pub data Step (s : Ring) : Ring → Type 0 where
  enqueues : (i task : ℕ) → s.threads i ≡ idle → Step s (reserve s i task)
  dequeues : (i : ℕ) → s.threads i ≡ idle → Step s (set_op s i loading)
  moves : (i : ℕ) (spurious : Bool) → Step s (op_step s i spurious (s.threads i))

pub data Reach : Ring → Type 0 where
  here : Reach fresh
  next : {s t : Ring} → Reach s → Step s t → Reach t

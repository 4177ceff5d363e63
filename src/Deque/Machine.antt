-- ===== src/Deque/Machine.antt =====
-- include/chase_lev_deque.hpp, class ChaseLevDeque: push_bottom, pop_bottom and steal, one access
-- of shared memory a step, but for the loop of `grow`, which is one step: only the owner writes the
-- slots that it reads, and no other thread has the array that it fills. A thread is a place in its
-- method with the locals that are live there.
use lock_free_work_stealing.Base.{
  ℕ, ◌+◌, Bool, true, false, none, some, List, [], ◌∷◌, ◌++◌, ◌==◌, if◌then◌else◌, update, add64,
  sub64, lt_i64, le_i64,
}
use lock_free_work_stealing.Deque.Array.{Ptr, CircularArray, make, capacity, put, get, grow}

-- The members of the class, with the heap that its array pointers point into. `next` is the first
-- address that no array has; an array that was replaced stays where it is.
pub record ChaseLevDeque : Type 0 where
  pub top : ℕ
  pub bot : ℕ
  pub array : ℕ
  pub old_arrays : List ℕ
  pub heap : ℕ → CircularArray
  pub next : ℕ

abbrev pub initial_log2_cap : ℕ
initial_log2_cap = 8

-- The constructor.
unfoldable pub fresh : ChaseLevDeque
fresh = record {
  top = 0;
  bot = 0;
  array = 0;
  old_arrays = [];
  heap = λ _. make initial_log2_cap;
  next = 1;
}

pub record StealResult : Type 0 where
  pub task : Ptr
  pub empty : Bool

-- What a step hands to the caller of the method that it ends.
pub data Label : Type 0 where
  silent : Label
  pushed : ℕ → Label
  popped : Ptr → Label
  stole : StealResult → Label

-- The tasks that were pushed, and those that came out, newest first.
abbrev pub push_history : Label → List ℕ → List ℕ
push_history (pushed x) h = x ∷ h
push_history _ h = h

abbrev pub take_ptr : Ptr → List ℕ → List ℕ
take_ptr none h = h
take_ptr (some x) h = x ∷ h

abbrev pub take_history : Label → List ℕ → List ℕ
take_history (popped p) h = take_ptr p h
take_history (stole r) h = take_ptr r.task h
take_history _ h = h

-- The owner, before the action that the comment names.
pub data Owner : Type 0 where
  idle : Owner
  push_bot : (x : ℕ) → Owner  -- b = bot_.load
  push_top : (x b : ℕ) → Owner  -- t = top_.load
  push_array : (x b t : ℕ) → Owner  -- a = array_.load, and the test of the capacity
  push_grow : (x b t a : ℕ) → Owner  -- next = a->grow(b, t); old_arrays_.push_back(a)
  push_install : (x b n : ℕ) → Owner  -- array_.store(next)
  push_put : (x b a : ℕ) → Owner  -- a->put(b, task)
  push_publish : (x b : ℕ) → Owner  -- bot_.store(b + 1)
  pop_bot : Owner  -- b = bot_.load - 1
  pop_array : (b : ℕ) → Owner  -- a = array_.load
  pop_store : (b a : ℕ) → Owner  -- bot_.store(b)
  pop_top : (b a : ℕ) → Owner  -- t = top_.load, and the test t > b
  pop_restore : (b : ℕ) → Owner  -- bot_.store(b + 1), and return nullptr
  pop_get : (b a t : ℕ) → Owner  -- raw = a->get(b), and the test t < b
  pop_cas : (b t : ℕ) (raw : Ptr) → Owner  -- top_.compare_exchange_strong(t, t + 1)
  pop_finish : (b : ℕ) (out : Ptr) → Owner  -- bot_.store(b + 1), and return

-- A thief in `steal`.
pub data Thief : Type 0 where
  idle : Thief
  steal_top : Thief  -- t = top_.load
  steal_bot : (t : ℕ) → Thief  -- b = bot_.load, and the test t >= b
  steal_array : (t : ℕ) → Thief  -- a = array_.load
  steal_get : (t a : ℕ) → Thief  -- raw = a->get(t)
  steal_cas : (t : ℕ) (raw : Ptr) → Thief  -- top_.compare_exchange_strong(t, t + 1)

-- `b - t >= a->capacity() - 1`
unfoldable pub is_full : CircularArray → ℕ → ℕ → Bool
is_full a b t = le_i64 (sub64 (capacity a) 1) (sub64 b t)

-- The next action of `push_bottom` or `pop_bottom`: an access, or the whole of `grow`.
unfoldable pub owner_step : ChaseLevDeque → Owner → ChaseLevDeque × Owner × Label
owner_step d Owner.idle = (d, Owner.idle, silent)
owner_step d (push_bot x) = (d, push_top x d.bot, silent)
owner_step d (push_top x b) = (d, push_array x b d.top, silent)
owner_step d (push_array x b t) = (
  d,
  (if is_full (d.heap d.array) b t then push_grow x b t d.array else push_put x b d.array),
  silent,
)
owner_step d (push_grow x b t a) = (
  record d {
    old_arrays = d.old_arrays ++ a ∷ [];
    heap = update d.heap d.next (grow (d.heap a) b t);
    next = d.next + 1;
  },
  push_install x b d.next,
  silent,
)
owner_step d (push_install x b n) = (record d { array = n }, push_put x b n, silent)
owner_step d (push_put x b a) =
    (record d { heap = update d.heap a (put (d.heap a) b (some x)) }, push_publish x b, silent)
owner_step d (push_publish x b) = (record d { bot = add64 b 1 }, Owner.idle, pushed x)
owner_step d pop_bot = (d, pop_array (sub64 d.bot 1), silent)
owner_step d (pop_array b) = (d, pop_store b d.array, silent)
owner_step d (pop_store b a) = (record d { bot = b }, pop_top b a, silent)
owner_step d (pop_top b a) =
    (d, (if lt_i64 b d.top then pop_restore b else pop_get b a d.top), silent)
owner_step d (pop_restore b) = (record d { bot = add64 b 1 }, Owner.idle, popped none)
owner_step d (pop_get b a t) =
    let raw = get (d.heap a) b in
    if lt_i64 t b then (d, Owner.idle, popped raw) else (d, pop_cas b t raw, silent)
owner_step d (pop_cas b t raw) =
    if d.top == t
    then (record d { top = add64 t 1 }, pop_finish b raw, silent)
    else (d, pop_finish b none, silent)
owner_step d (pop_finish b out) = (record d { bot = add64 b 1 }, Owner.idle, popped out)

-- The next access of `steal`.
unfoldable pub thief_step : ChaseLevDeque → Thief → ChaseLevDeque × Thief × Label
thief_step d Thief.idle = (d, Thief.idle, silent)
thief_step d steal_top = (d, steal_bot d.top, silent)
thief_step d (steal_bot t) =
    if le_i64 d.bot t
    then (d, Thief.idle, stole (record { task = none; empty = true }))
    else (d, steal_array t, silent)
thief_step d (steal_array t) = (d, steal_get t d.array, silent)
thief_step d (steal_get t a) = (d, steal_cas t (get (d.heap a) t), silent)
thief_step d (steal_cas t raw) =
    if d.top == t
    then (record d { top = add64 t 1 }, Thief.idle, stole (record { task = raw; empty = false }))
    else (d, Thief.idle, stole (record { task = none; empty = false }))

-- `empty()` and `size()`
unfoldable pub empty : ChaseLevDeque → Bool
empty d = le_i64 d.bot d.top

unfoldable pub size : ChaseLevDeque → ℕ
size d = if lt_i64 0 (sub64 d.bot d.top) then sub64 d.bot d.top else 0

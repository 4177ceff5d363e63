-- ===== src/Deque/Invariant.antt =====
-- include/chase_lev_deque.hpp: which indices of a deque hold a task that nobody has received, and
-- what the locals of the threads say about shared memory.
pub mod Frame
pub mod Change
pub mod Pushing
pub mod Popping
pub mod Stealing
pub mod Steps
use lock_free_work_stealing.Base.{
  ℕ, zero, suc, ◌+◌, ◌-◌, ◌^◌, ◌≤◌, ◌<◌, ◌≡◌, Bool, true, false, none, some, List, [], ◌∷◌, ◌++◌,
  if◌then◌else◌, add64, sub64, ltb,
}
use lock_free_work_stealing.Deque.Array.{Ptr, CircularArray, get, IsArray}
use lock_free_work_stealing.Deque.Machine.{
  ChaseLevDeque, Owner, push_bot, push_top, push_array, push_grow, push_install, push_put,
  push_publish, pop_bot, pop_array, pop_store, pop_top, pop_restore, pop_get, pop_cas, pop_finish,
  Thief, steal_top, steal_bot, steal_array, steal_get, steal_cas,
}

-- The pointer at an index of the live array.
abbrev pub item : ChaseLevDeque → ℕ → Ptr
item d i = get (d.heap d.array) i

-- Has `pop_bottom` lowered `bot_` without having settled who gets the last task?
abbrev pub is_popping : Owner → Bool
is_popping (pop_top _ _) = true
is_popping (pop_restore _) = true
is_popping (pop_get _ _ _) = true
is_popping (pop_cas _ _ _) = true
is_popping (pop_finish _ _) = true
is_popping _ = false

-- One past the last index with a task: `bot_`, or one more while the owner is taking that task.
abbrev pub bottom : ChaseLevDeque → Owner → ℕ
bottom d o = if is_popping o then add64 d.bot 1 else d.bot

-- One past the last index that a thief can still win.
abbrev pub limit : ChaseLevDeque → Owner → ℕ
limit d (pop_get b a t) = if ltb t b then d.bot else add64 d.bot 1
limit d o = bottom d o

-- What the owner's locals say.
abbrev pub OwnerOk : ChaseLevDeque → Owner → Type 0
OwnerOk d Owner.idle = Unit {0}
OwnerOk d (push_bot x) = Unit {0}
OwnerOk d (push_top x b) = b ≡ d.bot
OwnerOk d (push_array x b t) = (b ≡ d.bot) × (t ≤ d.top) × (b < t + ((d.heap d.array).mask + 1))
OwnerOk d (push_grow x b t a) =
    (b ≡ d.bot)
    × (t ≤ d.top)
    × (a ≡ d.array)
    × (b < t + ((d.heap d.array).mask + 1))
    × ((d.heap d.array).mask ≤ b - t)
OwnerOk d (push_install x b n) =
    (b ≡ d.bot)
    × (n < d.next)
    × (b + 1 < d.top + ((d.heap n).mask + 1))
    × ((i : ℕ) → d.top ≤ i → i < b → get (d.heap n) i ≡ item d i)
OwnerOk d (push_put x b a) =
    (b ≡ d.bot) × (a ≡ d.array) × (b + 1 < d.top + ((d.heap d.array).mask + 1))
OwnerOk d (push_publish x b) =
    (b ≡ d.bot) × (item d b ≡ some x) × (b + 1 < d.top + ((d.heap d.array).mask + 1))
OwnerOk d pop_bot = Unit {0}
OwnerOk d (pop_array b) = b ≡ sub64 d.bot 1
OwnerOk d (pop_store b a) = (b ≡ sub64 d.bot 1) × (a ≡ d.array)
OwnerOk d (pop_top b a) = (b ≡ d.bot) × (a ≡ d.array) × (b < 2 ^ 64)
OwnerOk d (pop_restore b) = (b ≡ d.bot) × (d.top ≡ add64 b 1)
OwnerOk d (pop_get b a t) =
    (b ≡ d.bot) × (a ≡ d.array) × (t ≤ b) × (t ≤ d.top) × (b + 1 ≡ add64 d.bot 1)
OwnerOk d (pop_cas b t raw) =
    (b ≡ d.bot) × (t ≡ b) × (t ≤ d.top) × (raw ≡ item d b) × (b + 1 ≡ add64 d.bot 1)
OwnerOk d (pop_finish b out) = (b ≡ d.bot) × (d.top ≡ add64 b 1)

-- What a thief's locals say, where `last` is the limit: as long as `top_` has not moved past the
-- index that it read, the index is live and what it read there is what stands there.
abbrev pub ThiefOk : ChaseLevDeque → ℕ → Thief → Type 0
ThiefOk d last Thief.idle = Unit {0}
ThiefOk d last steal_top = Unit {0}
ThiefOk d last (steal_bot t) = t ≤ d.top
ThiefOk d last (steal_array t) = (t ≤ d.top) × (t ≡ d.top → d.top < last)
ThiefOk d last (steal_get t a) =
    (t ≤ d.top)
    × (t ≡ d.top → d.top < last)
    × (a < d.next)
    × (t ≡ d.top → get (d.heap a) d.top ≡ item d d.top)
ThiefOk d last (steal_cas t raw) =
    (t ≤ d.top) × (t ≡ d.top → d.top < last) × (t ≡ d.top → raw ≡ item d d.top)

-- `n` bounds the pushes so far.
pub record Inv (n : ℕ) (d : ChaseLevDeque) (o : Owner) (thieves : ℕ → Thief) : Type 0 where
  pub arrays : (p : ℕ) → p < d.next → IsArray (d.heap p)
  pub current : d.array < d.next
  pub word : d.bot < 2 ^ 64
  pub few : bottom d o ≤ n
  pub top-le : d.top ≤ limit d o
  pub limit-le : limit d o ≤ bottom d o
  pub room : bottom d o < d.top + ((d.heap d.array).mask + 1)
  pub live : (i : ℕ) → d.top ≤ i → i < bottom d o → (x : ℕ) × (item d i ≡ some x)
  pub owner : OwnerOk d o
  pub thieves_ok : (i : ℕ) → ThiefOk d (limit d o) (thieves i)

-- The pointers at `n` indices from `i` on.
abbrev pub window : CircularArray → ℕ → ℕ → List Ptr
window a i zero = []
window a i (suc n) = get a i ∷ window a (i + 1) n

-- A task that the owner has won and not yet returned.
abbrev pub held : Owner → List Ptr
held (pop_finish b (some x)) = some x ∷ []
held _ = []

-- The tasks that were pushed and not yet received, oldest first.
abbrev pub contents : ChaseLevDeque → Owner → List Ptr
contents d o = held o ++ window (d.heap d.array) d.top (bottom d o - d.top)

-- ===== src/Deque/Array.antt =====
-- include/chase_lev_deque.hpp, class CircularArray: a ring of task pointers whose size is a power
-- of two, and `grow`.
pub mod Copy
use native.Mathlib.Nat.{mod-lt, div-add-mod, pow-suc}
use lock_free_work_stealing.Base.{
  bit_and, bit_and-mask, ap, ◌-◌, ℕ, zero, suc, ◌+◌, ◌*◌, ◌%◌, ◌^◌, ◌≤◌, ◌<◌, ◌≡◌, refl, ◌∙◌, sym,
  ◌≢◌, Option, none, List, arith, ℕ_discrete, if◌then◌else◌, length, get_or, set, replicate,
  length-replicate, length-set, get_or-set_self, get_or-set_ne, add64, sub64, lt_i64, shl1,
}

-- `Task*`: none is nullptr, and a task is named by a number.
abbrev pub Ptr : Type 0
Ptr = Option ℕ

pub record CircularArray : Type 0 where
  pub log2_cap : ℕ
  pub mask : ℕ
  pub buf : List Ptr

-- The constructor; the slots of the vector start as null pointers.
unfoldable pub make : ℕ → CircularArray
make log2_cap = record {
  log2_cap = log2_cap;
  mask = sub64 (shl1 log2_cap) 1;
  buf = replicate (shl1 log2_cap) none;
}

unfoldable pub capacity : CircularArray → ℕ
capacity a = shl1 a.log2_cap

-- `idx & mask_`
unfoldable pub slot : CircularArray → ℕ → ℕ
slot a idx = bit_and idx a.mask

unfoldable pub put : CircularArray → ℕ → Ptr → CircularArray
unfolding slot
put a idx p = record a { buf = set a.buf (slot a idx) p }

unfoldable pub get : CircularArray → ℕ → Ptr
unfolding slot
get a idx = get_or a.buf (slot a idx) none

-- `for (i = top; i < bot; ++i) next->put(i, get(i))`, by the rounds that are left.
unfoldable pub copy_from : ℕ → CircularArray → ℕ → CircularArray → CircularArray
copy_from zero old i next = next
copy_from (suc n) old i next = copy_from n old (add64 i 1) (put next i (get old i))

-- The rounds of that loop.
unfoldable pub rounds : ℕ → ℕ → ℕ
rounds bot top = if lt_i64 top bot then sub64 bot top else 0

unfoldable pub grow : CircularArray → ℕ → ℕ → CircularArray
unfolding copy_from rounds
grow a bot top = copy_from (rounds bot top) a top (make (add64 a.log2_cap 1))

-- What the constructor sets up and `put` keeps, for capacities that are positive as `int64_t`.
pub record IsArray (a : CircularArray) : Type 0 where
  pub cap : 2 ^ a.log2_cap ≡ a.mask + 1
  pub size : length a.buf ≡ a.mask + 1
  pub small : a.mask < 2 ^ 62

pub pow-pos : (k : ℕ) → 0 < 2 ^ k
pow-pos zero = omega arith
pow-pos (suc k) = rw pow-suc (omega (arith, pow-pos k))

pub make-IsArray : (k : ℕ) → 2 ^ k ≤ 2 ^ 62 → IsArray (make k)
unfolding make shl1 sub64
make-IsArray k h = record {
  cap = omega (arith, pow-pos k);
  size = let null : Ptr = none in omega (arith, pow-pos k, length-replicate (2 ^ k % 2 ^ 64) null);
  small = omega (arith, pow-pos k);
}

pub mask-put : (a : CircularArray) (i : ℕ) (p : Ptr) → (put a i p).mask ≡ a.mask
unfolding put
mask-put a i p = refl

pub put-IsArray : {a : CircularArray} (i : ℕ) (p : Ptr) → IsArray a → IsArray (put a i p)
unfolding put
put-IsArray {a} i p v = record {
  cap = v.cap;
  size = omega (arith, v.size, length-set a.buf (bit_and i a.mask) p);
  small = v.small;
}

-- The mask takes the remainder by the capacity.
pub slot-mod : {a : CircularArray} (i : ℕ) → IsArray a → slot a i ≡ i % (a.mask + 1)
unfolding slot
slot-mod {a} i v =
    let mask : a.mask ≡ 2 ^ a.log2_cap - 1 = omega (arith, v.cap) in
    ap (bit_and i) mask ∙ bit_and-mask i a.log2_cap ∙ ap (λ m. i % m) v.cap

slot-lt : {a : CircularArray} (i : ℕ) → IsArray a → slot a i < length a.buf
slot-lt {a} i v = rw (v.size, slot-mod i v) (mod-lt i {m = a.mask + 1} (omega arith))

-- Two indices less than a modulus apart fall into different slots.
mod-ne : (i j m : ℕ) → i < j → j < i + m → i % m ≢ j % m
mod-ne i j m p q e = grind (arith, div-add-mod i m, div-add-mod j m)

pub get-put_self : {a : CircularArray} (i : ℕ) (p : Ptr) → IsArray a → get (put a i p) i ≡ p
unfolding get put
get-put_self {a} i p v = get_or-set_self a.buf (slot a i) p none (slot-lt i v)

-- Live indices have slots of their own.
slot-ne :
    {a : CircularArray} (i j : ℕ) → IsArray a → i < j → j < i + (a.mask + 1) → slot a i ≢ slot a j
slot-ne {a} i j v lt near e =
    mod-ne i j (a.mask + 1) lt near (sym (slot-mod i v) ∙ e ∙ slot-mod j v)

pub get-put_ne :
    {a : CircularArray} (i j : ℕ) (p : Ptr)
    → IsArray a
    → i < j
    → j < i + (a.mask + 1)
    → (get (put a j p) i ≡ get a i) × (get (put a i p) j ≡ get a j)
unfolding get put
get-put_ne {a} i j p v lt near = (
  get_or-set_ne a.buf (slot a j) (slot a i) p none (λ e. slot-ne i j v lt near (sym e)),
  get_or-set_ne a.buf (slot a i) (slot a j) p none (slot-ne i j v lt near),
)

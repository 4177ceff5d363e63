-- ===== src/Deque/Array/Copy.antt =====
-- include/chase_lev_deque.hpp, CircularArray::grow: what its copying loop leaves behind.
use native.Mathlib.Nat.{pow-suc}
use lock_free_work_stealing.Base.{
  ℕ, zero, suc, ◌+◌, ◌*◌, ◌^◌, ◌≤◌, ◌<◌, ◌≡◌, refl, ◌∙◌, arith, ℕ_discrete, add64, add64-one, sub64,
  lt_i64, shl1,
}
use lock_free_work_stealing.Deque.Array.{
  CircularArray, make, put, get, copy_from, rounds, grow, IsArray, pow-pos, make-IsArray,
  put-IsArray, mask-put, get-put_self, get-put_ne,
}

-- The copying loop keeps the size, copies every index of its range, and keeps what it had below.
pub record Copied (n : ℕ) (old : CircularArray) (i : ℕ) (next out : CircularArray) : Type 0 where
  pub valid : IsArray out
  pub cap : out.mask ≡ next.mask
  pub copied : (j : ℕ) → i ≤ j → j < i + n → get out j ≡ get old j
  pub kept : (j : ℕ) → j < i → i + n ≤ j + (next.mask + 1) → get out j ≡ get next j

Copied-step :
    (n : ℕ) (old : CircularArray) (i : ℕ) (next out : CircularArray)
    → IsArray next
    → n < next.mask + 1
    → Copied n old (i + 1) (put next i (get old i)) out
    → Copied (suc n) old i next out
Copied-step n old i next out v k r = record {
  valid = r.valid;
  cap = r.cap ∙ mask-put next i (get old i);
  copied = λ j p q. elim (ℕ_discrete i j) [
    | yes e ↦ rw (← e) (
        r.kept i (omega arith) (omega (arith, mask-put next i (get old i)))
        ∙ get-put_self i (get old i) v)
    | no e ↦ r.copied j (omega arith) (omega arith)
  ];
  kept = λ j p q.
      r.kept j (omega arith) (omega (arith, mask-put next i (get old i)))
      ∙ (get-put_ne j i (get old i) v p (omega arith)).0;
}

pub copy_from-Copied :
    (n : ℕ) (old : CircularArray) (i : ℕ) (next : CircularArray)
    → IsArray next
    → i + n < 2 ^ 64
    → n ≤ next.mask + 1
    → Copied n old i next (copy_from n old i next)
unfolding copy_from
copy_from-Copied zero old i next v h k = record {
  valid = v;
  cap = refl;
  copied = λ j p q. absurd (omega arith);
  kept = λ j p q. refl;
}
copy_from-Copied (suc n) old i next v h k = rw (add64-one i (omega arith)) (
    Copied-step n old i next _ v (omega arith) (
      copy_from-Copied n old (i + 1) (put next i (get old i)) (put-IsArray i (get old i) v)
        (omega arith) (omega (arith, mask-put next i (get old i)))))

-- What `grow` returns: twice the room, and the same pointers at the live indices.
pub record Grown (a : CircularArray) (bot top : ℕ) (next : CircularArray) : Type 0 where
  pub valid : IsArray next
  pub cap : next.mask + 1 ≡ 2 * (a.mask + 1)
  pub live : (j : ℕ) → top ≤ j → j < bot → get next j ≡ get a j

rounds-eq : (bot top : ℕ) → top ≤ bot → bot < 2 ^ 63 → top + rounds bot top ≡ bot
unfolding rounds lt_i64 sub64
rounds-eq bot top p q = ground arith

lt-pow : (k : ℕ) → k < 2 ^ k
lt-pow zero = omega arith
lt-pow (suc k) = rw pow-suc (omega (arith, lt-pow k))

double : (a : CircularArray) → IsArray a → 2 ^ suc a.log2_cap ≡ 2 * (a.mask + 1)
double a v = rw pow-suc (omega (arith, v.cap))

next_log2 : (a : CircularArray) → IsArray a → add64 a.log2_cap 1 ≡ suc a.log2_cap
unfolding add64
next_log2 a v = omega (arith, lt-pow a.log2_cap, v.cap, v.small)

pub mask-make : (k : ℕ) → 2 ^ k ≤ 2 ^ 62 → (make k).mask + 1 ≡ 2 ^ k
unfolding make sub64 shl1
mask-make k h = omega (arith, pow-pos k)

-- `grow` returns a well-formed ring of twice the capacity that has the same pointer at every index
-- from `top` up to, not including, `bot`, for a well-formed ring of at most 2 ^ 61 slots, if
-- top ≤ bot < 2 ^ 63 and the range is no longer than the ring.
pub grow-Grown :
    (a : CircularArray) (bot top : ℕ)
    → IsArray a
    → top ≤ bot
    → bot < 2 ^ 63
    → bot ≤ top + (a.mask + 1)
    → a.mask + 1 ≤ 2 ^ 61
    → Grown a bot top (grow a bot top)
unfolding grow
grow-Grown a bot top v p q room small = rw (next_log2 a v) (record {
  valid = c.valid;
  cap = omega (arith, c.cap, wide);
  live = λ j lo hi. c.copied j lo (omega (arith, rounds-eq bot top p q));
})
  where
    fits : 2 ^ suc a.log2_cap ≤ 2 ^ 62
    fits = omega (arith, double a v)

    wide : (make (suc a.log2_cap)).mask + 1 ≡ 2 * (a.mask + 1)
    wide = mask-make (suc a.log2_cap) fits ∙ double a v

    c :
        Copied
          (rounds bot top)
          a
          top
          (make (suc a.log2_cap))
          (copy_from (rounds bot top) a top (make (suc a.log2_cap)))
    c =
        copy_from-Copied (rounds bot top) a top (make (suc a.log2_cap))
          (make-IsArray (suc a.log2_cap) fits) (omega (arith, rounds-eq bot top p q))
          (omega (arith, wide, rounds-eq bot top p q))

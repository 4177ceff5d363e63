-- ===== src/Base/Bits.antt =====
-- A mask of ones takes the remainder by a power of two.
use Prim.Native.Nat.{
  ℕ, zero, suc, ◌+◌, ◌-◌, ◌*◌, ◌/◌, ◌%◌, ◌^◌, ◌≤◌, ◌<◌, min, bit_and, digits, bit_and-bitwise,
}
use native.Mathlib.Nat.{
  two-pow-succ, div-add-mod, mod-lt, add-mul-mod_self_left, mod-eq_of_lt, zero-mod,
}
use mathlib.Core.Path.{◌≡◌, refl, sym, ap, ◌∙◌}
use native.Mathlib.Omega.{arith}

-- k ones in binary
abbrev ones : ℕ → ℕ
ones zero = 0
ones (suc k) = ones k * 2 + 1

ones-pow : (k : ℕ) → ones k + 1 ≡ 2 ^ k
ones-pow zero = refl
ones-pow (suc k) = omega (arith, ones-pow k, two-pow-succ k)

-- The remainder by twice a number, from that of the half.
mod-twice : (a m : ℕ) → 0 < m → a / 2 % m * 2 + a % 2 ≡ a % (m * 2)
mod-twice a m p = sym (
    ap (λ n. n % (m * 2)) whole
    ∙ add-mul-mod_self_left (u * 2 + a % 2) (m * 2) t
    ∙ mod-eq_of_lt small)
  where
    t : ℕ
    t = a / 2 / m

    u : ℕ
    u = a / 2 % m

    small : u * 2 + a % 2 < m * 2
    small = let l : u < m = mod-lt (a / 2) p in omega arith

    half : m * t + u ≡ a / 2
    half = div-add-mod (a / 2) m

    whole : a ≡ u * 2 + a % 2 + m * 2 * t
    whole = grind (arith, half)

digits-ones : (n k a : ℕ) → a ≤ n → digits (λ _. 0) min n a (ones k) ≡ a % 2 ^ k
digits-ones zero k a le =
    sym (ap (λ n. n % 2 ^ k) (let e : a ≡ 0 = omega arith in e) ∙ zero-mod (2 ^ k))
digits-ones (suc n) k zero le = sym (zero-mod (2 ^ k))
digits-ones (suc n) zero (suc a) le = omega (arith, digits-ones n zero (suc a / 2) (omega arith))
digits-ones (suc n) (suc k) (suc a) le =
    let half : (ones k * 2 + 1) / 2 ≡ ones k = omega arith in
    let last : (ones k * 2 + 1) % 2 ≡ 1 = omega arith in
    let power : 2 ^ k * 2 ≡ 2 ^ suc k = omega (arith, two-pow-succ k) in
    rw (half, last)
      (omega (
        arith,
        digits-ones n k (suc a / 2) (omega arith),
        mod-twice (suc a) (2 ^ k) (omega (arith, ones-pow k)),
        ap (λ m. suc a % m) power,
      ))

pub bit_and-mask : (a k : ℕ) → bit_and a (2 ^ k - 1) ≡ a % 2 ^ k
bit_and-mask a k =
    ap (bit_and a) (let e : 2 ^ k - 1 ≡ ones k = omega (arith, ones-pow k) in e)
    ∙ bit_and-bitwise a (ones k)
    ∙ digits-ones a k a (omega arith)

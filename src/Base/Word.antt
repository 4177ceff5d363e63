-- ===== src/Base/Word.antt =====
-- 64-bit machine words as numbers below 2 ^ 64; an `int64_t` is its two's complement pattern.
use Prim.Native.Nat.{ℕ, ◌+◌, ◌-◌, ◌%◌, ◌^◌, ◌≤◌, ◌<◌}
use mathlib.Core.Path.{◌≡◌}
use mathlib.Core.Bool.{Bool, true, false}
use native.Mathlib.Omega.{arith}
use lock_free_work_stealing.Base.Tests.{ltb, leb}

unfoldable pub add64 : ℕ → ℕ → ℕ
add64 a b = (a + b) % 2 ^ 64

-- `-` on ℕ stops at 0, so the modulus is added first.
unfoldable pub sub64 : ℕ → ℕ → ℕ
sub64 a b = (a + 2 ^ 64 - b) % 2 ^ 64

-- The signed orders: moving both patterns by 2 ^ 63 turns them into the unsigned ones.
unfoldable pub lt_i64 : ℕ → ℕ → Bool
lt_i64 a b = ltb ((a + 2 ^ 63) % 2 ^ 64) ((b + 2 ^ 63) % 2 ^ 64)

unfoldable pub le_i64 : ℕ → ℕ → Bool
le_i64 a b = leb ((a + 2 ^ 63) % 2 ^ 64) ((b + 2 ^ 63) % 2 ^ 64)

-- `int64_t(1) << k`
unfoldable pub shl1 : ℕ → ℕ
shl1 k = 2 ^ k % 2 ^ 64

pub add64-one : (a : ℕ) → a + 1 < 2 ^ 64 → add64 a 1 ≡ a + 1
unfolding add64
add64-one a h = omega arith

pub add64-sub64 : (a : ℕ) → a < 2 ^ 64 → add64 (sub64 a 1) 1 ≡ a
unfolding add64 sub64
add64-sub64 a h = omega arith

pub sub64-lt : (a b : ℕ) → sub64 a b < 2 ^ 64
unfolding sub64
sub64-lt a b = omega arith

-- Between patterns of numbers that are not negative the signed orders are those of ℕ.
pub lt_i64-small : (a b : ℕ) → a < 2 ^ 63 → b < 2 ^ 63 → lt_i64 a b ≡ ltb a b
unfolding lt_i64
lt_i64-small a b p q = ground arith

pub le_i64-small : (a b : ℕ) → a < 2 ^ 63 → b < 2 ^ 63 → le_i64 a b ≡ leb a b
unfolding le_i64
le_i64-small a b p q = ground arith

-- A signed comparison with `b`, where `b` is one less than a small number, and so may be -1.
pub lt_i64-pred :
    (b t : ℕ)
    → b < 2 ^ 64
    → add64 b 1 < 2 ^ 63
    → t ≤ add64 b 1
    → (lt_i64 b t ≡ true → t ≡ add64 b 1) × (lt_i64 b t ≡ false → (t ≤ b) × (b + 1 ≡ add64 b 1))
unfolding lt_i64 add64
lt_i64-pred b t p q r = (λ e. ground arith, λ e. ground arith)

pub add64-lt : (a b : ℕ) → add64 a b < 2 ^ 64
unfolding add64
add64-lt a b = omega arith

-- A signed comparison that fails, of a pattern that may be negative with a small number.
pub le_i64-false : (b t : ℕ) → b < 2 ^ 64 → t < 2 ^ 63 → le_i64 b t ≡ false → (t < b) × (b < 2 ^ 63)
unfolding le_i64
le_i64-false b t p q e = ground arith

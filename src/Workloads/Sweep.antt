-- ===== src/Workloads/Sweep.antt =====
-- bench/main.cpp: the thread counts of the sweep.
use native.Mathlib.Nat.{pow-le-pow_right, two-pow-succ}
use lock_free_work_stealing.Base.{
  ℕ_discrete, ◌⊎◌, inl, inr, count, ℕ, zero, suc, ◌+◌, ◌*◌, ◌%◌, ◌^◌, ◌≤◌, ◌<◌, ◌≡◌, refl, sym, ap,
  subst, arith, Option, none, some, List, [], ◌∷◌, ltb, leb, ◌==◌, if◌then◌else◌, ◌>>=◌, dec_le,
}

-- `n = (n < 4 ? n + 1 : n * 2)` on a `uint32_t`
abbrev pub next_count : ℕ → ℕ
next_count n = if ltb n 4 then n + 1 else n * 2 % 2 ^ 32

abbrev pub min_count : ℕ → ℕ → ℕ
min_count n hw = if ltb hw n then hw else n

-- The loop, with fuel for its rounds; none is a loop that has not ended.
unfoldable pub sweep : ℕ → ℕ → ℕ → Option (List ℕ)
sweep zero hw n = if leb n hw then none else some []
sweep (suc fuel) hw n =
    let rest = sweep fuel hw (next_count n) in
    if leb n hw then rest >>= (λ counts. some (min_count n hw ∷ counts)) else some []

-- `std::unique`, with the erasure
unfoldable pub unique : List ℕ → List ℕ
unique [] = []
unique (x ∷ []) = x ∷ []
unique (x ∷ y ∷ rest) = let others = unique (y ∷ rest) in if x == y then others else x ∷ others

unfoldable pub thread_counts : ℕ → ℕ → Option (List ℕ)
unfolding sweep unique
thread_counts fuel hw = do counts ← sweep fuel hw 1; some (unique counts)

-- Growing numbers from `low` up to `high`.
abbrev pub Growing : ℕ → ℕ → List ℕ → Type 0
Growing low high [] = 0 ≤ 0
Growing low high (x ∷ xs) = ((low ≤ x) × (x ≤ high)) × Growing (suc x) high xs

next_count-gt : (n hw : ℕ) → 0 < n → n ≤ hw → hw < 2 ^ 31 → suc n ≤ next_count n
next_count-gt n hw p q r = ground arith

Growing-weaken :
    (low low' high : ℕ) (xs : List ℕ) → low ≤ low' → Growing low' high xs → Growing low high xs
Growing-weaken low low' high [] p g = omega arith
Growing-weaken low low' high (x ∷ xs) p ((a, b), g) = ((omega arith, b), g)

-- The counts that the benchmarks are made for: 3, and the powers of two.
abbrev pub IsCount : ℕ → Type 0
IsCount x = (x ≡ 3) ⊎ ((k : ℕ) × (x ≡ 2 ^ k))

two : 0 < 2
two = omega arith

four-le-pow : (k : ℕ) → 4 ≤ 2 ^ suc (suc k)
four-le-pow k = pow-le-pow_right two {i = 2} {j = suc (suc k)} (omega arith)

-- From a count on, the loop goes to the next one.
next_count-IsCount :
    (n : ℕ)
    → n < 2 ^ 31
    → IsCount n
    → IsCount (next_count n) × ((x : ℕ) → IsCount x → n < x → next_count n ≤ x)
next_count-IsCount n small (inl e) = (inr (2, ground (arith, e)), λ x d l. ground (arith, e))
next_count-IsCount n small (inr (zero, e)) =
    (inr (1, ground (arith, e)), λ x d l. ground (arith, e))
next_count-IsCount n small (inr (suc zero, e)) =
    (inl (ground (arith, e)), λ x d l. ground (arith, e))
next_count-IsCount n small (inr (suc (suc k), e)) = (inr (suc (suc (suc k)), twice), least)
  where
    twice : next_count n ≡ 2 ^ suc (suc (suc k))
    twice = ground (arith, e, four-le-pow k, two-pow-succ (suc (suc k)))

    least : (x : ℕ) → IsCount x → n < x → next_count n ≤ x
    least x (inl f) l = absurd (omega (arith, four-le-pow k))
    least x (inr (j, f)) l = elim (dec_le (suc (suc (suc k))) j) [
      | yes h ↦
          let m = pow-le-pow_right two {i = suc (suc (suc k))} {j = j} h in omega (arith, twice)
      | no h ↦
          let m = pow-le-pow_right two {i = j} {j = suc (suc k)} (omega (arith, h)) in
          absurd (omega arith)
    ]

-- The numbers in the list are the counts from `n` up to the number of cores.
abbrev Counts : ℕ → ℕ → List ℕ → Type 0
Counts n hw xs =
    (x : ℕ)
    → (0 < count x xs → IsCount x × (x ≤ hw)) × (IsCount x → n ≤ x → x ≤ hw → 0 < count x xs)

Counts-next :
    (n hw : ℕ) (xs : List ℕ)
    → n ≤ hw
    → n < 2 ^ 31
    → IsCount n
    → Counts (next_count n) hw xs
    → Counts n hw (n ∷ xs)
Counts-next n hw xs le small c h x = elim (ℕ_discrete n x) [
  | yes e ↦ (λ p. (subst IsCount e c, omega arith), λ d l m. ground (arith, e))
  | no ne ↦ (
    λ p. (h x).0 (ground (arith, ne)),
    λ d l m.
        let q = (h x).1 d ((next_count-IsCount n small c).1 x d (omega (arith, ne))) m in
        ground (arith, ne, q),
  )
]

sweep-Counts :
    (fuel hw n : ℕ)
    → 0 < n
    → hw < 2 ^ 31
    → hw < n + fuel
    → IsCount n
    → (xs : List ℕ) × (sweep fuel hw n ≡ some xs) × Growing n hw xs × Counts n hw xs
unfolding sweep
sweep-Counts zero hw n p q r c =
    ([], ground arith, omega arith, λ x. (λ z. absurd (omega arith), λ d l m. absurd (omega arith)))
sweep-Counts (suc fuel) hw n p q r c = elim (dec_le n hw) [
  | no l ↦ (
    [],
    ground (arith, l),
    omega arith,
    λ x. (λ z. absurd (omega arith), λ d b m. absurd (omega (arith, l))),
  )
  | yes l ↦
      let gt = next_count-gt n hw p l q in
      let (xs, e, g, m) =
        sweep-Counts fuel hw (next_count n) (omega arith) q (omega arith)
          (next_count-IsCount n (omega arith) c).0 in
      (
        n ∷ xs,
        ground (arith, l, e),
        ((omega arith, l), Growing-weaken (suc n) (next_count n) hw xs gt g),
        Counts-next n hw xs l (omega arith) c m,
      )
]

IsCount-pos : (x : ℕ) → IsCount x → 1 ≤ x
IsCount-pos x (inl e) = omega arith
IsCount-pos x (inr (k, e)) =
    let m = pow-le-pow_right two {i = 0} {j = k} (omega arith) in omega arith

unique-Growing : (low high : ℕ) (xs : List ℕ) → Growing low high xs → unique xs ≡ xs
unfolding unique
unique-Growing low high [] g = refl
unique-Growing low high (x ∷ []) g = refl
unique-Growing low high (x ∷ y ∷ rest) ((a, b), ((c, d), g)) =
    let same = unique-Growing (suc x) high (y ∷ rest) ((c, d), g) in ground (arith, same)

-- For fewer than 2^31 logical cores, and fuel for one round more than there are cores: the loop
-- ends, `std::unique` removes nothing from what it has pushed, and the counts are in growing order
-- the numbers up to the number of cores that are 3 or a power of two, all of them and no others.
pub thread_counts-sweep :
    (fuel hw : ℕ)
    → hw < 2 ^ 31
    → hw < 1 + fuel
    → (xs : List ℕ) × ((sweep fuel hw 1 ≡ some xs) × (thread_counts fuel hw ≡ some xs))
      × Growing 1 hw xs
      × ((x : ℕ) → (0 < count x xs → IsCount x × (x ≤ hw)) × (IsCount x → x ≤ hw → 0 < count x xs))
unfolding thread_counts
thread_counts-sweep fuel hw q r =
    let (xs, e, g, m) = sweep-Counts fuel hw 1 (omega arith) q r (inr (0, refl)) in
    (
      xs,
      (
        e,
        subst (λ o. (o >>= λ counts. some (unique counts)) ≡ some xs) (sym e)
            (ap some (unique-Growing 1 hw xs g)),
      ),
      g,
      λ x. ((m x).0, λ c l. (m x).1 c (IsCount-pos x c) l),
    )

-- ===== src/Base/Sums.antt =====
-- Sums over the numbers below a bound, and over the entries of a list.
use Prim.Native.Nat.{ℕ, zero, suc, ◌+◌, ◌*◌, ◌≤◌, ◌<◌}
use mathlib.Core.Path.{◌≡◌, refl, sym, ap, ap₂, subst, ◌∙◌}
use mathlib.Core.Logic.{◌≢◌}
use mathlib.Core.List.{List, [], ◌∷◌, ◌++◌}
use native.Mathlib.Decide.{ℕ_discrete, dec_lt}
use native.Mathlib.Omega.{arith}
use lock_free_work_stealing.Base.Tests.{◌==◌, if◌then◌else◌}
use lock_free_work_stealing.Base.Lists.{length, count, put_front, pop_back}
use mathlib.Core.Option.{Option, none, some}
use lock_free_work_stealing.Base.Family.{update, update_self, update_ne}

-- f 0 + … + f (n - 1)
unfoldable pub sum_to : ℕ → (ℕ → ℕ) → ℕ
sum_to zero f = 0
sum_to (suc n) f = sum_to n f + f n

pub sum_to-ext : (n : ℕ) (f g : ℕ → ℕ) → ((i : ℕ) → i < n → f i ≡ g i) → sum_to n f ≡ sum_to n g
unfolding sum_to
sum_to-ext zero f g h = refl
sum_to-ext (suc n) f g h = ap₂ ◌+◌ (sum_to-ext n f g (λ i p. h i (omega arith))) (h n (omega arith))

pub sum_to_mono : (n : ℕ) (f g : ℕ → ℕ) → ((i : ℕ) → i < n → f i ≤ g i) → sum_to n f ≤ sum_to n g
unfolding sum_to
sum_to_mono zero f g h = omega arith
sum_to_mono (suc n) f g h =
    omega (arith, sum_to_mono n f g (λ i p. h i (omega arith)), h n (omega arith))

pub sum_to-add : (n : ℕ) (f g : ℕ → ℕ) → sum_to n (λ i. f i + g i) ≡ sum_to n f + sum_to n g
unfolding sum_to
sum_to-add zero f g = refl
sum_to-add (suc n) f g = omega (arith, sum_to-add n f g)

pub sum_to-zero : (n : ℕ) → sum_to n (λ _. 0) ≡ 0
unfolding sum_to
sum_to-zero zero = refl
sum_to-zero (suc n) = omega (arith, sum_to-zero n)

pub sum_to-ones : (n : ℕ) → sum_to n (λ _. 1) ≡ n
unfolding sum_to
sum_to-ones zero = refl
sum_to-ones (suc n) = omega (arith, sum_to-ones n)

-- Where one term is larger than its bound by k, so is the sum, at least.
pub sum_to-gap :
    (n : ℕ) (f g : ℕ → ℕ) (j k : ℕ)
    → ((i : ℕ) → i < n → f i ≤ g i)
    → j < n
    → f j + k ≤ g j
    → sum_to n f + k ≤ sum_to n g
unfolding sum_to
sum_to-gap zero f g j k h lt d = absurd (omega arith)
sum_to-gap (suc n) f g j k h lt d = elim (ℕ_discrete j n) [
  | yes e ↦
      omega (arith, subst (λ m. f m + k ≤ g m) e d, sum_to_mono n f g (λ i p. h i (omega arith)))
  | no ne ↦
      omega
        (arith, sum_to-gap n f g j k (λ i p. h i (omega arith)) (omega arith) d, h n (omega arith))
]

abbrev pub one_if_eq : ℕ → ℕ → ℕ
one_if_eq i j = if i == j then 1 else 0

-- A sum with one term.
pub sum_to-single : (n j : ℕ) (w : ℕ → ℕ) → j < n → sum_to n (λ i. one_if_eq j i * w i) ≡ w j
unfolding sum_to
sum_to-single zero j w lt = absurd (omega arith)
sum_to-single (suc n) j w lt = elim (ℕ_discrete j n) [
  | yes e ↦ ground (
    arith,
    sum_to-ext n (λ i. one_if_eq j i * w i) (λ _. 0) (λ i p. ground arith),
    sum_to-zero n,
    ap w e,
  )
  | no ne ↦ ground (arith, sum_to-single n j w (omega arith))
]

module _ {ℓ} {A : Type ℓ} where
  unfoldable pub sum_of : (A → ℕ) → List A → ℕ
  sum_of w [] = 0
  sum_of w (x ∷ xs) = w x + sum_of w xs

  pub sum_of-append : (w : A → ℕ) (xs ys : List A) → sum_of w (xs ++ ys) ≡ sum_of w xs + sum_of w ys
  unfolding sum_of
  sum_of-append w [] ys = omega arith
  sum_of-append w (x ∷ xs) ys = omega (arith, sum_of-append w xs ys)

  pub sum_of_mono :
      (w z : A → ℕ) → ((a : A) → w a ≤ z a) → (xs : List A) → sum_of w xs ≤ sum_of z xs
  unfolding sum_of
  sum_of_mono w z h [] = omega arith
  sum_of_mono w z h (x ∷ xs) = omega (arith, h x, sum_of_mono w z h xs)

-- A family that changes at one index.
pub sum_to-update {ℓ} :
    {A : Type ℓ} (n : ℕ) (w : A → ℕ) (f : ℕ → A) (j : ℕ) (a : A)
    → j < n
    → sum_to n (λ i. w (update f j a i)) + w (f j) ≡ sum_to n (λ i. w (f i)) + w a
unfolding sum_to
sum_to-update zero w f j a p = absurd (omega arith)
sum_to-update (suc n) w f j a p = elim (ℕ_discrete j n) [
  | yes e ↦ omega (
    arith,
    sum_to-ext n (λ i. w (update f j a i)) (λ i. w (f i))
        (λ i q. ap w (update_ne f j i a (λ e'. absurd (omega arith)))),
    ap w (subst (λ k. update f j a k ≡ a) e (update_self f j a)),
    ap (λ k. w (f k)) e,
  )
  | no ne ↦ omega (arith, sum_to-update n w f j a (omega arith), ap w (update_ne f j n a ne))
]

pub sum_to-term : (n : ℕ) (f : ℕ → ℕ) (i : ℕ) → i < n → f i ≤ sum_to n f
unfolding sum_to
sum_to-term zero f i p = absurd (omega arith)
sum_to-term (suc n) f i p = elim (ℕ_discrete i n) [
  | yes e ↦ omega (arith, ap f e)
  | no ne ↦ omega (arith, sum_to-term n f i (omega arith))
]

module _ {ℓ} {A : Type ℓ} (w : A → ℕ) where
  abbrev pair_sum : Option (List A × A) → ℕ
  pair_sum none = 0
  pair_sum (some (ys, y)) = w y + sum_of w ys

  sum_of-put_front : (x : A) (o : Option (List A × A)) → pair_sum (put_front x o) ≡ w x + pair_sum o
  unfolding sum_of
  sum_of-put_front x none = omega arith
  sum_of-put_front x (some (ys, y)) = omega arith

  sum_of-pair : (xs : List A) → sum_of w xs ≡ pair_sum (pop_back xs)
  unfolding sum_of pop_back
  sum_of-pair [] = refl
  sum_of-pair (x ∷ xs) = omega (arith, sum_of-put_front x (pop_back xs), sum_of-pair xs)

  pub sum_of-pop_back :
      (xs ys : List A) (y : A) → pop_back xs ≡ some (ys, y) → sum_of w xs ≡ w y + sum_of w ys
  sum_of-pop_back xs ys y e = omega (arith, sum_of-pair xs, ap pair_sum e)

pub sum_of-ones {ℓ} : {A : Type ℓ} (xs : List A) → sum_of (λ _. 1) xs ≡ length xs
unfolding sum_of
sum_of-ones [] = refl
sum_of-ones (x ∷ xs) = omega (arith, sum_of-ones xs)

-- A sum that is zero where another is.
pub sum_to-vanish :
    (n : ℕ) (f g : ℕ → ℕ) → ((i : ℕ) → f i ≡ 0 → g i ≡ 0) → sum_to n f ≡ 0 → sum_to n g ≡ 0
unfolding sum_to
sum_to-vanish zero f g h e = refl
sum_to-vanish (suc n) f g h e =
    omega (arith, sum_to-vanish n f g h (omega arith), h n (omega arith))

pub sum_of-vanish {ℓ} :
    {A : Type ℓ} (w : A → ℕ) (xs : List A) → sum_of (λ _. 1) xs ≡ 0 → sum_of w xs ≡ 0
unfolding sum_of
sum_of-vanish w [] e = refl
sum_of-vanish w (x ∷ xs) e = absurd (omega arith)

-- Two families that differ at one index at most.
pub sum_to-at :
    (n : ℕ) (f g : ℕ → ℕ) (i : ℕ)
    → i < n
    → ((j : ℕ) → j < n → i ≢ j → f j ≡ g j)
    → sum_to n f + g i ≡ sum_to n g + f i
unfolding sum_to
sum_to-at zero f g i p h = absurd (omega arith)
sum_to-at (suc n) f g i p h = elim (ℕ_discrete i n) [
  | yes e ↦ omega (
    arith,
    sum_to-ext n f g (λ j q. h j (omega arith) (λ z. absurd (omega arith))),
    ap f e,
    ap g e,
  )
  | no ne ↦
      omega
        (arith, sum_to-at n f g i (omega arith) (λ j q. h j (omega arith)), h n (omega arith) ne)
]

-- A list of numbers below a bound is the sum over them of how often each occurs.
pub sum_of-count :
    (n : ℕ) (w : ℕ → ℕ) (xs : List ℕ)
    → ((x : ℕ) → n ≤ x → count x xs ≡ 0)
    → sum_of w xs ≡ sum_to n (λ x. count x xs * w x)
unfolding sum_of
sum_of-count n w [] h =
    sym (sum_to-ext n (λ x. 0 * w x) (λ _. 0) (λ x p. omega arith) ∙ sum_to-zero n)
sum_of-count n w (y ∷ ys) h = elim (dec_lt y n) [
  | yes p ↦ omega (
    arith,
    sum_of-count n w ys (λ x l. let z = h x l in ground arith),
    sum_to-at n (λ x. count x (y ∷ ys) * w x) (λ x. count x ys * w x) y p (λ x q ne. ground arith),
    once y,
  )
  | no np ↦ let z = h y (omega arith) in absurd (ground arith)
]
  where
    once : (x : ℕ) → count x (x ∷ ys) * w x ≡ count x ys * w x + w x
    once x = let e : count x (x ∷ ys) ≡ suc (count x ys) = ground arith in rw e (omega arith)

-- Weights that agree on what is in a list.
pub sum_of-ext :
    (f g : ℕ → ℕ) (xs : List ℕ) → ((x : ℕ) → 0 < count x xs → f x ≡ g x) → sum_of f xs ≡ sum_of g xs
unfolding sum_of
sum_of-ext f g [] h = refl
sum_of-ext f g (y ∷ ys) h =
    ap₂ ◌+◌ (h y (ground arith)) (sum_of-ext f g ys (λ x p. h x (ground arith)))

pub count-sum : (task : ℕ) (xs : List ℕ) → sum_of (λ x. one_if_eq x task) xs ≡ count task xs
unfolding sum_of
count-sum task [] = refl
count-sum task (x ∷ xs) = ground (arith, count-sum task xs)

-- ===== src/Workloads/Median.antt =====
-- bench/scaling.cpp: the median of the samples, over times of any type with a total order, as `double`
-- is for what a clock returns.
use lock_free_work_stealing.Base.{
  ℕ, zero, suc, ◌+◌, ◌/◌, ◌≤◌, ◌<◌, ◌≡◌, ◌≢◌, ◌∙◌, refl, sym, ap, subst, arith, Bool, true, false,
  Bool-cases, inl, inr, not, ◌&&◌, Option, none, some, List, [], ◌∷◌, length, if◌then◌else◌,
}

pub record TotalOrder {ℓ} (D : Type ℓ) : Type ℓ where
  pub le : D → D → Bool
  pub total : (x y : D) → le x y ≡ false → le y x ≡ true
  pub trans : (x y z : D) → le x y ≡ true → le y z ≡ true → le x z ≡ true

abbrev pub get_elem? {ℓ} : {A : Type ℓ} → List A → ℕ → Option A
get_elem? [] i = none
get_elem? (x ∷ xs) zero = some x
get_elem? (x ∷ xs) (suc i) = get_elem? xs i

-- How many entries pass a test.
abbrev pub count_by {ℓ} : {A : Type ℓ} → (A → Bool) → List A → ℕ
count_by p [] = 0
count_by p (x ∷ xs) = if p x then suc (count_by p xs) else count_by p xs

module _ {ℓ} {A : Type ℓ} where
  abbrev or_else : A → Option A → A
  or_else d none = d
  or_else d (some a) = a

  some_eq : {a b : A} → some a ≡ some b → a ≡ b
  some_eq {a} e = ap (or_else a) e

  abbrev is_some : Option A → Bool
  is_some none = false
  is_some (some a) = true

  none-some : {a : A} → none ≢ some a
  none-some e = let z = ap is_some e in ground (arith, z)

module _ {ℓ} {D : Type ℓ} (o : TotalOrder D) where
  -- `std::sort`
  unfoldable pub insert : D → List D → List D
  insert x [] = x ∷ []
  insert x (y ∷ ys) = let rest = insert x ys in if o.le x y then x ∷ y ∷ ys else y ∷ rest

  unfoldable pub sort : List D → List D
  unfolding insert
  sort [] = []
  sort (x ∷ xs) = insert x (sort xs)

  -- none where the index is out of range.
  unfoldable pub median_of : List D → Option D
  unfolding sort
  median_of xs = get_elem? (sort xs) (length (sort xs) / 2)

  -- `fn k` is the time of the call number `k`; the first is the warm-up.
  unfoldable pub run_median : (ℕ → D) → Option D
  unfolding median_of
  run_median fn = median_of (fn 1 ∷ fn 2 ∷ fn 3 ∷ [])

  -- Strictly below and above a time, and level with it.
  abbrev pub below : D → D → Bool
  below m y = not (o.le m y)

  abbrev pub above : D → D → Bool
  above m y = not (o.le y m)

  abbrev pub level : D → D → Bool
  level m y = o.le y m && o.le m y

  le_refl : (x : D) → o.le x x ≡ true
  le_refl x = elim (Bool-cases (o.le x x)) [ inl y ↦ y | inr n ↦ o.total x x n ]

  count_by-insert :
      (p : D → Bool) (x : D) (ys : List D) → count_by p (insert x ys) ≡ count_by p (x ∷ ys)
  unfolding insert
  count_by-insert p x [] = refl
  count_by-insert p x (y ∷ ys) = elim (Bool-cases (o.le x y)) [
    | inl e ↦ rw e refl
    | inr e ↦ rw e (let h = count_by-insert p x ys in ground (arith, h))
  ]

  count_by-sort : (p : D → Bool) (xs : List D) → count_by p (sort xs) ≡ count_by p xs
  unfolding sort
  count_by-sort p [] = refl
  count_by-sort p (x ∷ xs) =
      count_by-insert p x (sort xs) ∙ let h = count_by-sort p xs in ground (arith, h)

  count_by-all : (xs : List D) → count_by (λ _. true) xs ≡ length xs
  count_by-all [] = refl
  count_by-all (x ∷ xs) = ap suc (count_by-all xs)

  -- No entry is below `x`.
  data IsBound (x : D) : List D → Type ℓ where
    none_left : IsBound x []
    one_more : {y : D} {ys : List D} → o.le x y ≡ true → IsBound x ys → IsBound x (y ∷ ys)

  data IsSorted : List D → Type ℓ where
    sorted_nil : IsSorted []
    sorted_cons : {x : D} {xs : List D} → IsBound x xs → IsSorted xs → IsSorted (x ∷ xs)

  IsBound-le : {x y : D} {ys : List D} → o.le x y ≡ true → IsBound y ys → IsBound x ys
  IsBound-le e none_left = none_left
  IsBound-le {x} {y} e (one_more {y = z} l b) = one_more (o.trans x y z e l) (IsBound-le e b)

  insert-IsBound :
      (x y : D) (ys : List D) → o.le x y ≡ true → IsBound x ys → IsBound x (insert y ys)
  unfolding insert
  insert-IsBound x y [] e b = one_more e none_left
  insert-IsBound x y (z ∷ ys) e (one_more l b) = elim (Bool-cases (o.le y z)) [
    | inl f ↦ rw f (one_more e (one_more l b))
    | inr f ↦ rw f (one_more l (insert-IsBound x y ys e b))
  ]

  insert-IsSorted : (x : D) (ys : List D) → IsSorted ys → IsSorted (insert x ys)
  unfolding insert
  insert-IsSorted x [] s = sorted_cons none_left sorted_nil
  insert-IsSorted x (y ∷ ys) (sorted_cons b s) = elim (Bool-cases (o.le x y)) [
    | inl e ↦ rw e (sorted_cons (one_more e (IsBound-le e b)) (sorted_cons b s))
    | inr e ↦ rw e (sorted_cons (insert-IsBound y x ys (o.total x y e) b) (insert-IsSorted x ys s))
  ]

  sort-IsSorted : (xs : List D) → IsSorted (sort xs)
  unfolding sort
  sort-IsSorted [] = sorted_nil
  sort-IsSorted (x ∷ xs) = insert-IsSorted x (sort xs) (sort-IsSorted xs)

  count_by-le : (p : D → Bool) (ys : List D) → count_by p ys ≤ length ys
  count_by-le p [] = omega arith
  count_by-le p (y ∷ ys) = let h = count_by-le p ys in ground arith

  none_below-bound : (x : D) (ys : List D) → IsBound x ys → count_by (below x) ys ≡ 0
  none_below-bound x [] b = refl
  none_below-bound x (y ∷ ys) (one_more l b) = rw l (none_below-bound x ys b)

  bound_at :
      (x m : D) (ys : List D) (k : ℕ) → IsBound x ys → get_elem? ys k ≡ some m → o.le x m ≡ true
  bound_at x m [] k b e = absurd (none-some e)
  bound_at x m (y ∷ ys) zero (one_more l b) e = subst (λ z. o.le x z ≡ true) (some_eq e) l
  bound_at x m (y ∷ ys) (suc k) (one_more l b) e = bound_at x m ys k b e

  -- In a sorted list, what is below an entry stands before it and what is above stands after it.
  IsSorted-at :
      (ys : List D) (k : ℕ) (m : D)
      → IsSorted ys
      → get_elem? ys k ≡ some m
      → (count_by (below m) ys ≤ k)
        × ((count_by (above m) ys + k < length ys) × (0 < count_by (level m) ys))
  IsSorted-at [] k m s e = absurd (none-some e)
  IsSorted-at (y ∷ ys) zero m (sorted_cons b s) e =
      subst
        (λ z.
          (count_by (below z) (y ∷ ys) ≤ 0)
          × ((count_by (above z) (y ∷ ys) + 0 < length (y ∷ ys))
              × (0 < count_by (level z) (y ∷ ys))))
        (some_eq e)
        (let same = le_refl y in
          let n = none_below-bound y ys b in
          let c = count_by-le (above y) ys in (ground arith, (ground arith, ground arith)))
  IsSorted-at (y ∷ ys) (suc k) m (sorted_cons b s) e =
      let (a, (c, d)) = IsSorted-at ys k m s e in
      let l = bound_at y m ys k b e in (ground arith, (ground arith, ground arith))

  get_elem?-some : (ys : List D) (k : ℕ) → k < length ys → (m : D) × (get_elem? ys k ≡ some m)
  get_elem?-some [] k l = absurd (omega arith)
  get_elem?-some (y ∷ ys) zero l = (y, refl)
  get_elem?-some (y ∷ ys) (suc k) l = get_elem?-some ys k (omega arith)

  length-sort : (xs : List D) → length (sort xs) ≡ length xs
  length-sort xs = sym (count_by-all (sort xs)) ∙ count_by-sort (λ _. true) xs ∙ count_by-all xs

  -- Of a list with an entry, median_of returns an entry, up to level ones: at most half of the
  -- entries are strictly below it, and fewer than the other half strictly above it.
  pub median_of-halves :
      (xs : List D)
      → 0 < length xs
      → (m : D) × ((median_of xs ≡ some m)
          × ((0 < count_by (level m) xs)
              × ((count_by (below m) xs ≤ length xs / 2)
                  × (count_by (above m) xs + length xs / 2 < length xs))))
  unfolding median_of
  median_of-halves xs l =
      let same = length-sort xs in
      let (m, e) = get_elem?-some (sort xs) (length (sort xs) / 2) (omega arith) in
      let (a, (b, c)) = IsSorted-at (sort xs) (length (sort xs) / 2) m (sort-IsSorted xs) e in
      let p = count_by-sort (below m) xs in
      let q = count_by-sort (above m) xs in
      let r = count_by-sort (level m) xs in (m, (e, (omega arith, (omega arith, omega arith))))

-- ===== src/Deque/Refine/Window.antt =====
-- include/chase_lev_deque.hpp: the pointers at a range of indices.
use lock_free_work_stealing.Base.{
  ℕ, zero, suc, ◌+◌, ◌-◌, ◌≤◌, ◌<◌, ◌≡◌, refl, ◌∙◌, ap, ap₂, arith, [], ◌∷◌, ◌++◌, length,
}
use lock_free_work_stealing.Deque.Array.{CircularArray, get}
use lock_free_work_stealing.Deque.Invariant.{window}

pub window-ext :
    (a a' : CircularArray) (i n : ℕ)
    → ((j : ℕ) → i ≤ j → j < i + n → get a' j ≡ get a j)
    → window a' i n ≡ window a i n
window-ext a a' i zero h = refl
window-ext a a' i (suc n) h =
    ap₂ ◌∷◌ (h i (omega arith) (omega arith))
      (window-ext a a' (i + 1) n (λ j p q. h j (omega arith) (omega arith)))

pub window-suc :
    (a : CircularArray) (i n : ℕ) → window a i (suc n) ≡ window a i n ++ get a (i + n) ∷ []
window-suc a i zero = ap (λ k. get a k ∷ []) (omega arith)
window-suc a i (suc n) =
    ap (◌∷◌ (get a i))
      (window-suc a (i + 1) n ∙ ap (λ k. window a (i + 1) n ++ get a k ∷ []) (omega arith))

pub length-window : (a : CircularArray) (i n : ℕ) → length (window a i n) ≡ n
length-window a i zero = refl
length-window a i (suc n) = ap suc (length-window a (i + 1) n)

-- The ranges of a deque: from `i` up to, not including, `j`.
module _ (a : CircularArray) (i j : ℕ) where
  pub window-empty : j ≤ i → window a i (j - i) ≡ []
  window-empty h = let e : j - i ≡ 0 = omega arith in ap (window a i) e

  pub window-oldest : i < j → window a i (j - i) ≡ get a i ∷ window a (i + 1) (j - (i + 1))
  window-oldest h = let e : j - i ≡ suc (j - (i + 1)) = omega arith in ap (window a i) e

  pub window-newest :
      (k : ℕ) → k ≡ j + 1 → i ≤ j → window a i (k - i) ≡ window a i (j - i) ++ get a j ∷ []
  window-newest k e h =
      let sizes : k - i ≡ suc (j - i) = omega arith in
      ap (window a i) sizes
      ∙ window-suc a i (j - i)
      ∙ ap (λ m. window a i (j - i) ++ get a m ∷ []) (omega arith)

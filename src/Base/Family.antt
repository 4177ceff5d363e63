-- ===== src/Base/Family.antt =====
-- Families indexed by number (addresses, threads): a change at one index.
use Prim.Native.Nat.{ℕ}
use mathlib.Core.Path.{◌≡◌, sym, subst}
use mathlib.Core.Logic.{◌≢◌}
use native.Mathlib.Decide.{ℕ_discrete}
use native.Mathlib.Omega.{arith}
use lock_free_work_stealing.Base.Tests.{◌==◌, if◌then◌else◌}

abbrev pub update {ℓ} : {A : Type ℓ} → (ℕ → A) → ℕ → A → ℕ → A
update f i a j = if i == j then a else f j

module _ {ℓ} {A : Type ℓ} (f : ℕ → A) where
  pub update_self : (i : ℕ) (a : A) → update f i a i ≡ a
  update_self i a = ground arith

  pub update_ne : (i j : ℕ) (a : A) → i ≢ j → update f i a j ≡ f j
  update_ne i j a h = ground arith

  -- To prove a predicate of an entry after a change.
  pub update_ind {κ} :
      (P : A → Type κ) (i j : ℕ) (a : A) → (i ≡ j → P a) → (i ≢ j → P (f j)) → P (update f i a j)
  update_ind P i j a new old = elim (ℕ_discrete i j) [
    | yes e ↦ subst P (subst (λ k. a ≡ update f i a k) e (sym (update_self i a))) (new e)
    | no ne ↦ subst P (sym (update_ne i j a ne)) (old ne)
  ]

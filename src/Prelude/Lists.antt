-- ===== src/Prelude/Lists.antt =====
-- Lists measured by the native numbers.
use Prim.Native.Nat.{ℕ, suc, ◌+◌}
use mathlib.Core.Path.{◌≡◌, refl}
use mathlib.Core.List.{List, [], ◌∷◌, ◌++◌}
use mathlib.Core.Bool.{Bool, true, false}
use native.Mathlib.Omega.{arith}
use dual_tmux.Prelude.Tests.{if◌then◌else◌}

module _ {ℓ} {A : Type ℓ} where
  abbrev pub length : List A → ℕ
  length [] = 0
  length (x ∷ xs) = suc (length xs)

  pub length-append : (xs ys : List A) → length (xs ++ ys) ≡ length xs + length ys
  length-append [] ys = omega arith
  length-append (x ∷ xs) ys = omega (arith, length-append xs ys)

  -- `[x for x in xs if keep(x)]`
  unfoldable pub select : (A → Bool) → List A → List A
  select keep [] = []
  select keep (x ∷ xs) = let rest = select keep xs in if keep x then x ∷ rest else rest

  -- `P` holds of every element.
  abbrev pub All {κ} : (A → Type κ) → List A → Type κ
  All P [] = Unit
  All P (x ∷ xs) = P x × All P xs

  pub All-map {κ μ} :
      (P : A → Type κ) (Q : A → Type μ)
      → ((x : A) → P x → Q x)
      → (xs : List A) → All P xs
      → All Q xs
  All-map P Q f [] h = tt
  All-map P Q f (x ∷ xs) (p, ps) = (f x p, All-map P Q f xs ps)

  -- What holds of the elements, and that they are kept, holds of the selected ones.
  pub All-select {κ} :
      (P : A → Type κ) (keep : A → Bool) (xs : List A)
      → All P xs
      → All (λ x. P x × (keep x ≡ true)) (select keep xs)
  unfolding select
  All-select P keep [] h = tt
  All-select P keep (x ∷ xs) (p, ps) = by_test (keep x) refl (All-select P keep xs ps)
    where
      by_test :
          (b : Bool)
          → keep x ≡ b
          → All (λ y. P y × (keep y ≡ true)) (select keep xs)
          → All (λ y. P y × (keep y ≡ true)) (if b then x ∷ select keep xs else select keep xs)
      by_test true e rest = ((p, e), rest)
      by_test false e rest = rest

  pub All-tt : (xs : List A) → All (λ x. Unit {0}) xs
  All-tt [] = tt
  All-tt (x ∷ xs) = (tt, All-tt xs)

-- ===== src/Prelude/Equality.antt =====
-- Python's `==` as an interface: a Boolean test that decides equality.
use Prim.Native.Nat.{ℕ}
use Prim.Native.String.{String}
use mathlib.Core.Path.{◌≡◌, refl}
use mathlib.Core.Logic.{◌↔◌}
use mathlib.Core.Bool.{Bool, true, false, not, ◌||◌}
use mathlib.Core.Option.{Option, none, some}
use mathlib.Core.List.{List, [], ◌∷◌}
use text.Mathlib.Text.{◌==◌ as str_eq}
use text.Mathlib.TextEquality.{eq_iff}
use dual_tmux.Prelude.Tests.{nat_beq, nat_beq_iff, if◌then◌else◌}

pub record Comparable {ℓ} (A : Type ℓ) : Type ℓ where
  pub equal : A → A → Bool
  pub equal_iff : (x y : A) → (equal x y ≡ true) ↔ (x ≡ y)

infix 50 ◌==◌
abbrev pub ◌==◌ {ℓ} : {T : Type ℓ} ⦃by : Comparable T⦄ → T → T → Bool
◌==◌ ⦃by⦄ = by.equal

pub beq_refl {ℓ} : {T : Type ℓ} ⦃by : Comparable T⦄ (x : T) → (x == x) ≡ true
beq_refl ⦃by⦄ x = (by.equal_iff x x).1 refl

instance abbrev pub nat_eq : Comparable ℕ
nat_eq = record { equal = nat_beq; equal_iff = nat_beq_iff }

instance abbrev pub string_eq : Comparable String
string_eq = record { equal = str_eq; equal_iff = eq_iff }

-- `x in xs`
abbrev pub contains {ℓ} : {T : Type ℓ} ⦃by : Comparable T⦄ → List T → T → Bool
contains [] value = false
contains (first ∷ others) value = first == value || contains others value

-- The elements of `set(xs)`, each once.
unfoldable pub distinct {ℓ} : {A : Type ℓ} ⦃e : Comparable A⦄ → List A → List A
distinct [] = []
distinct (x ∷ xs) = let rest = distinct xs in if contains rest x then rest else x ∷ rest

-- The truth value of a text.
abbrev pub nonempty : String → Bool
nonempty s = not (s == "")

-- `x is not None`
abbrev pub is_some {ℓ} : {A : Type ℓ} → Option A → Bool
is_some none = false
is_some (some a) = true

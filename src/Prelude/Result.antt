-- ===== src/Prelude/Result.antt =====
-- Exceptions as values. A method that mutates and may raise returns its state beside a `Result`.
use Prim.Native.Nat.{ℕ}
use Prim.Native.String.{String}
use mathlib.Core.Path.{◌≡◌, refl}
use mathlib.Core.Bool.{Bool, true, false}
use mathlib.Core.Logic.{◌⊎◌, inl, inr}

-- Why a machine refuses an event.
pub data Refusal : Type 0 where
  unavailable guard_rejected : Refusal

-- The exceptions that the modelled code raises or passes on.
pub data Exn : Type 0 where
  transition_error : Refusal → Exn
  validation_error : String → Exn
  value_error : String → Exn
  type_error : String → Exn
  attribute_error : String → Exn
  key_error : String → Exn
  os_error : String → Exn
  system_exit : String → Exn
  runtime_error : String → Exn
  control_error : String → String → ℕ → Exn

pub data Result {ℓ} (A : Type ℓ) : Type ℓ where
  ok : A → Result A
  err : Exn → Result A

-- `if not test: raise e`
abbrev pub guard : Bool → Exn → Result (Unit {0})
guard false raised = err raised
guard true raised = ok tt

infixl 5 ◌>>=◌ ◌>>◌
abbrev pub ◌>>=◌ {ℓ κ} : {B : Type κ} {A : Type ℓ} → Result A → (A → Result B) → Result B
err raised >>= next = err raised
ok value >>= next = next value

abbrev pub ◌>>◌ {κ} : {B : Type κ} → Result (Unit {0}) → Result B → Result B
check >> after = check >>= λ _. after

pub Result-cases {ℓ} :
    {A : Type ℓ} (r : Result A) → ((a : A) × (r ≡ ok a)) ⊎ ((e : Exn) × (r ≡ err e))
Result-cases (ok a) = inl (a, refl)
Result-cases (err e) = inr (e, refl)

pub >>=-ok {ℓ} : {A : Type ℓ} (m : Result A) → (m >>= λ a. ok a) ≡ m
>>=-ok (ok a) = refl
>>=-ok (err e) = refl

pub >>=-assoc {ℓ κ μ} :
    {A : Type ℓ} {B : Type κ} {C : Type μ} (m : Result A) (f : A → Result B) (g : B → Result C)
    → (m >>= λ a. f a >>= g) ≡ (m >>= f >>= g)
>>=-assoc (ok a) f g = refl
>>=-assoc (err e) f g = refl

-- A chain that succeeds has succeeded at its first step.
pub >>=-ok_inv {ℓ κ} :
    {B : Type κ} {A : Type ℓ} (m : Result A) (f : A → Result B) {b : B}
    → m >>= f ≡ ok b
    → (a : A) × (m ≡ ok a) × (f a ≡ ok b)
>>=-ok_inv (ok a) f h = (a, refl, h)
>>=-ok_inv (err e) f h = cc

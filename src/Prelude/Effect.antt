-- ===== src/Prelude/Effect.antt =====
-- Code that changes a state and may raise: the state is kept when it raises.
use mathlib.Core.Path.{◌≡◌, refl}
use mathlib.Core.Bool.{Bool, true, false}
use native.Mathlib.Omega.{arith}
use dual_tmux.Prelude.Result.{Exn, Result, ok, err}

abbrev pub Act {ℓ κ} : Type ℓ → Type κ → Type (ℓ ⊔ κ)
Act S A = S → S × Result A

unfoldable pub and_then {ℓ κ μ} :
    {S : Type ℓ} {A : Type κ} {B : Type μ} → S × Result A → (A → Act S B) → S × Result B
and_then (s, ok a) next = next a s
and_then (s, err e) next = (s, err e)

infixl 5 ◌>>=◌ ◌>>◌
abbrev pub ◌>>=◌ {ℓ κ μ} :
    {S : Type ℓ} {A : Type κ} {B : Type μ} → Act S A → (A → Act S B) → Act S B
◌>>=◌ first next s = and_then (first s) next

abbrev pub ◌>>◌ {ℓ κ μ} : {S : Type ℓ} {A : Type κ} {B : Type μ} → Act S A → Act S B → Act S B
first >> next = first >>= λ _. next

abbrev pub return {ℓ κ} : {S : Type ℓ} {A : Type κ} → A → Act S A
return a s = (s, ok a)

abbrev pub raise {ℓ κ} : {S : Type ℓ} {A : Type κ} → Exn → Act S A
raise e s = (s, err e)

abbrev pub check {ℓ} : {S : Type ℓ} → Bool → Exn → Act S (Unit {0})
check true e s = (s, ok tt)
check false e s = (s, err e)

unfoldable pub reraised {ℓ κ} :
    {S : Type ℓ} {A : Type κ} → Exn → S × Result (Unit {0}) → S × Result A
reraised e (s, ok done) = (s, err e)
reraised e (s, err x) = (s, err x)

unfoldable pub handled {ℓ κ} :
    {S : Type ℓ} {A : Type κ} → S × Result A → (Exn → Act S (Unit {0})) → S × Result A
unfolding reraised
handled (s, ok a) handler = (s, ok a)
handled (s, err e) handler = reraised e (handler e s)

-- `try: act  except BaseException as e: handler(e); raise`
abbrev pub on_error {ℓ κ} : {S : Type ℓ} {A : Type κ} → Act S A → (Exn → Act S (Unit {0})) → Act S A
on_error act handler s = handled (act s) handler

abbrev pub inside {ℓ κ μ} :
    {S : Type ℓ} {T : Type κ} {A : Type μ} → (T → S → S) → S → T × Result A → S × Result A
inside put s (t, r) = (put t s, r)

-- `act` on a part of the state.
abbrev pub on_part {ℓ κ μ} :
    {S : Type ℓ} {T : Type κ} {A : Type μ} → (S → T) → (T → S → S) → Act T A → Act S A
on_part get put act s = inside put s (act (get s))

module _ {ℓ κ μ} {S : Type ℓ} {A : Type κ} {B : Type μ} where
  pub and_then-ok :
      (p : S × Result A) (next : A → Act S B) {a : A} → p.1 ≡ ok a → and_then p next ≡ next a p.0
  unfolding and_then
  and_then-ok (s, ok b) next h = ground (arith, h)
  and_then-ok (s, err e) next h = cc

  pub and_then-err :
      (p : S × Result A) (next : A → Act S B) {e : Exn}
      → p.1 ≡ err e
      → and_then p next ≡ (p.0, err e)
  unfolding and_then
  and_then-err (s, ok b) next h = cc
  and_then-err (s, err x) next h = cc

module _ {ℓ κ} {S : Type ℓ} {A : Type κ} where
  pub handled-ok :
      (p : S × Result A) (handler : Exn → Act S (Unit {0})) {a : A}
      → p.1 ≡ ok a
      → handled p handler ≡ (p.0, ok a)
  unfolding handled
  handled-ok (s, ok b) handler h = cc
  handled-ok (s, err e) handler h = cc

  pub reraised-ok :
      (e : Exn) (q : S × Result (Unit {0})) → q.1 ≡ ok tt → reraised {A = A} e q ≡ (q.0, err e)
  unfolding reraised
  reraised-ok e (s, ok u) h = refl
  reraised-ok e (s, err x) h = cc

  pub handled-err :
      (p : S × Result A) (handler : Exn → Act S (Unit {0})) {e : Exn}
      → p.1 ≡ err e
      → (handler e p.0).1 ≡ ok tt
      → handled p handler ≡ ((handler e p.0).0, err e)
  unfolding handled
  handled-err (s, ok b) handler h g = cc
  handled-err (s, err x) handler {e} h g =
      let same : x ≡ e = cc in rw same (reraised-ok e (handler e s) g)

-- What holds of both outcomes of a step holds of the whole.
pub and_then-cases {ℓ κ μ ν} :
    {S : Type ℓ} {A : Type κ} {B : Type μ} (P : S × Result B → Type ν) (p : S × Result A)
    (next : A → Act S B)
    → ((a : A) → p.1 ≡ ok a → P (next a p.0))
    → ((e : Exn) → p.1 ≡ err e → P (p.0, err e))
    → P (and_then p next)
unfolding and_then
and_then-cases P (s, ok a) next f g = f a refl
and_then-cases P (s, err e) next f g = g e refl

pub handled-cases {ℓ κ ν} :
    {S : Type ℓ} {A : Type κ} (P : S × Result A → Type ν) (p : S × Result A)
    (handler : Exn → Act S (Unit {0}))
    → ((a : A) → p.1 ≡ ok a → P (p.0, ok a))
    → ((e : Exn) → p.1 ≡ err e → P (reraised e (handler e p.0)))
    → P (handled p handler)
unfolding handled
handled-cases P (s, ok a) handler f g = f a refl
handled-cases P (s, err e) handler f g = g e refl

-- `try: ...  except ...: handler; raise`, followed by more, when the handler does not raise.
pub tried-cases {ℓ κ μ ν} :
    {S : Type ℓ} {A : Type κ} {B : Type μ} (P : S × Result B → Type ν) (p : S × Result A)
    (handler : Exn → Act S (Unit {0})) (next : A → Act S B)
    → ((a : A) → p.1 ≡ ok a → P (next a p.0))
    → ((e : Exn) → p.1 ≡ err e → (q : S) × (handler e p.0 ≡ (q, ok tt)) × P (q, err e))
    → P (and_then (handled p handler) next)
unfolding and_then handled reraised
tried-cases P (s, ok a) handler next f g = f a refl
tried-cases P (s, err e) handler next f g = let (q, h, done) = g e refl in rw h done

pub and_then-return {ℓ κ μ} :
    {S : Type ℓ} {A : Type κ} {B : Type μ} (s : S) (a : A) (next : A → Act S B)
    → and_then (s, ok a) next ≡ next a s
unfolding and_then
and_then-return s a next = refl

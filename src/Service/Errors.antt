-- ===== src/Service/Errors.antt =====
-- `ControlError`, `_translate` and the `note` of `resume`, of src/dual_tmux/control.py. `describe`
-- is `str(exc)`.
use dual_tmux.Prelude.{String, ◌≡◌, refl, Bool, true, false, ◌||◌, find?}
use dual_tmux.Prelude.{if◌then◌else◌, nonempty, is_some}
use dual_tmux.Prelude.Effect.{Act}
use dual_tmux.Prelude.Result.{
  Exn, Result, ok, err, transition_error, validation_error, value_error, os_error, system_exit,
  control_error,
}

abbrev pub mentions : String → String → Bool
mentions message words = is_some (find? message words)

unfoldable pub exit_error : String → Exn
exit_error message =
    if mentions message "unknown tunnel" || mentions message "no tunnels"
    then control_error "operation_failed" message 404
    else control_error "operation_failed" message 409

-- What is raised in place of an exception.
unfoldable pub translate_error : (Exn → String) → Exn → Exn
unfolding exit_error
translate_error describe (system_exit message) =
    exit_error (if nonempty message then message else "operation failed")
translate_error describe (transition_error why) =
    control_error "fsm_rejected" (describe (transition_error why)) 409
translate_error describe (validation_error message) =
    control_error "fsm_rejected" (describe (validation_error message)) 409
translate_error describe e = e

abbrev translate_result {ℓ} : {A : Type ℓ} → (Exn → String) → Result A → Result A
translate_result describe (ok a) = ok a
translate_result describe (err e) = err (translate_error describe e)

abbrev pub translated {ℓ κ} :
    {S : Type ℓ} {A : Type κ} → (Exn → String) → S × Result A → S × Result A
translated describe (s, r) = (s, translate_result describe r)

-- `_translate`
abbrev pub translate {ℓ κ} : {S : Type ℓ} {A : Type κ} → (Exn → String) → Act S A → Act S A
translate describe call s = translated describe (call s)

-- `(TransitionError, ValidationError, ValueError, OSError)`
abbrev pub is_machine_error : Exn → Bool
is_machine_error (transition_error why) = true
is_machine_error (validation_error message) = true
is_machine_error (value_error message) = true
is_machine_error (os_error message) = true
is_machine_error _ = false

abbrev pub is_os_error : Exn → Bool
is_os_error (os_error message) = true
is_os_error _ = false

abbrev noted_result {ℓ} : {A : Type ℓ} → Result A → Result (Unit {0})
noted_result (ok a) = ok tt
noted_result (err e) = if is_machine_error e then ok tt else err e

abbrev pub noted {ℓ κ} : {S : Type ℓ} {A : Type κ} → S × Result A → S × Result (Unit {0})
noted (s, r) = (s, noted_result r)

abbrev pub note {ℓ κ} : {S : Type ℓ} {A : Type κ} → Act S A → Act S (Unit {0})
note action s = noted (action s)

err_injective {ℓ} : {A : Type ℓ} {x y : Exn} {r : Result A} → r ≡ err x → r ≡ err y → x ≡ y
err_injective h g = cc

module _ {ℓ κ} {S : Type ℓ} {A : Type κ} where
  pub translated-ok :
      (describe : Exn → String) (p : S × Result A) {a : A}
      → p.1 ≡ ok a
      → translated describe p ≡ (p.0, ok a)
  translated-ok describe (s, ok b) h = cc
  translated-ok describe (s, err x) h = cc

  pub translated-err :
      (describe : Exn → String) (p : S × Result A) {e : Exn}
      → p.1 ≡ err e
      → translated describe p ≡ (p.0, err (translate_error describe e))
  translated-err describe (s, ok b) h = cc
  translated-err describe (s, err x) h = cc

  pub noted-ok : (p : S × Result A) {a : A} → p.1 ≡ ok a → noted p ≡ (p.0, ok tt)
  noted-ok (s, ok b) h = refl
  noted-ok (s, err x) h = cc

  pub ok_not_err :
      (describe : Exn → String) (p : S × Result A) {a : A} {x : Exn}
      → p.1 ≡ ok a
      → ¬ ((translated describe p).1 ≡ err x)
  ok_not_err describe (s, ok b) h g = cc
  ok_not_err describe (s, err y) h g = cc

  pub err_not_ok :
      (describe : Exn → String) (p : S × Result A) {a : A} {x : Exn}
      → p.1 ≡ err x
      → ¬ ((translated describe p).1 ≡ ok a)
  err_not_ok describe (s, ok b) h g = cc
  err_not_ok describe (s, err y) h g = cc

  pub translated-ok_inv :
      (describe : Exn → String) (p : S × Result A) {a : A}
      → (translated describe p).1 ≡ ok a
      → p.1 ≡ ok a
  translated-ok_inv describe (s, ok b) h = h
  translated-ok_inv describe (s, err y) h = cc

  pub translated-err_inv :
      (describe : Exn → String) (p : S × Result A) {e : Exn}
      → (translated describe p).1 ≡ err e
      → (x : Exn) × (p.1 ≡ err x) × (translate_error describe x ≡ e)
  translated-err_inv describe (s, ok b) h = cc
  translated-err_inv describe (s, err y) h = (y, refl, err_injective refl h)

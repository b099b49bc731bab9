-- ===== src/Freeze/Missing.antt =====
-- `LIVE_SESSION_MISSING` rejects an attempt that is proving.
use dual_tmux.Prelude.{ℕ, String, ◌≡◌, refl, ap, true, false, nonempty, arith, inl, inr, Bool-cases}
use dual_tmux.Prelude.Result.{Result, ok, err}
use dual_tmux.Fsm.Store.{memory_store}
use dual_tmux.Binding.State.{BindingState, proving, rejected, live_session_missing}
use dual_tmux.Binding.Node.{
  AgentRole, BindingAttemptNode, BindingError, missing as missing_payload, error_field,
  model_validate, validate_payload, legal_candidate,
}
use dual_tmux.Binding.Chart.{apply_changes}
use dual_tmux.Binding.Steps.{target}
use dual_tmux.Binding.Sound.{IsSound}
use dual_tmux.Binding.Machine.{Snapshot}
use dual_tmux.Binding.Commit.Accepted.{IsSteady, send_ok, state-send}
use dual_tmux.Freeze.Attempt.{
  Attempt, Host, Outcome, Freezing, is_proving, sends, missing, after_missing,
}

pub memory_store-IsSteady : IsSteady (memory_store Snapshot)
memory_store-IsSteady k v s = refl

legal_rejected :
    (n : BindingAttemptNode) (message : String)
    → model_validate n ≡ ok n
    → model_validate (record n { state = rejected; error = message })
      ≡ ok (record n { state = rejected; error = message })
unfolding model_validate legal_candidate
legal_rejected n message h = ground arith

module _ (m : Attempt) (h : IsSound m.core) (s : m.core.state ≡ proving) (e : BindingError)
    (now : ℕ) (coded : nonempty e.code ≡ true) where
  validate-error_field :
      validate_payload live_session_missing (error_field e) ≡ ok (missing_payload e)
  unfolding validate_payload
  validate-error_field = rw coded refl

  pub sends_ok : (sends m e now).1 ≡ ok rejected
  unfolding apply_changes
  sends_ok =
      send_ok (memory_store Snapshot) memory_store-IsSteady m live_session_missing (error_field e)
        now (missing_payload e) rejected h validate-error_field
        (ap (λ t. target t live_session_missing) s) refl
        (legal_rejected m.core.context.node _ h.legal)

  pub state-sends : (sends m e now).0.core.state ≡ rejected
  state-sends =
      state-send (memory_store Snapshot) memory_store-IsSteady m live_session_missing
        (error_field e) now rejected h sends_ok

module _ {D J O : Type 0} (f : Freezing D J O) (side : AgentRole) where
  pub after_missing-ok :
      (q : Attempt × Result BindingState) (h : Host J O) (next : Attempt → Outcome J O)
      {t : BindingState}
      → q.1 ≡ ok t
      → after_missing f side q h next ≡ next q.0
  after_missing-ok (m, ok t) h next e = refl
  after_missing-ok (m, err x) h next e = cc

  -- What holds of the rest after a rejection, and of the rest where the attempt is not proving, holds
  -- of both.
  pub missing-cases :
      (P : Outcome J O → Type 0) (m : Attempt) (h : Host J O) (e : BindingError) (now : ℕ)
      (next : Attempt → Outcome J O)
      → (m.core.state ≡ proving → IsSound m.core)
      → nonempty e.code ≡ true
      → ((m' : Attempt) → m'.core.state ≡ rejected → P (next m'))
      → (is_proving m.core.state ≡ false → P (next m))
      → P (missing f side m h e now next)
  unfolding missing
  missing-cases P m h e now next sound coded done other =
      elim (Bool-cases (is_proving m.core.state)) [
        | inl t ↦
            let s : m.core.state ≡ proving = ground (arith) in
            rw t (
              rw (after_missing-ok (sends m e now) h next (sends_ok m (sound s) s e now coded))
                (done (sends m e now).0 (state-sends m (sound s) s e now coded)))
        | inr o ↦ rw o (other o)
      ]

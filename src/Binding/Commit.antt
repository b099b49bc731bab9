-- ===== src/Binding/Commit.antt =====
-- `BindingMachine.commit_proven` of datanode/runtime_fsm/binding.py. The hooks are callables that
-- work on an outside world `W`; `describe` is `str(exc)`.
pub mod Accepted
pub mod Outcome
use dual_tmux.Prelude.{ℕ, String, Bool, true, false, ◌&&◌, Option, none, some, List, [], ◌∷◌}
use dual_tmux.Prelude.Result.{Exn, system_exit, Result, ok, err}
use dual_tmux.Fsm.Store.{StateStore}
use dual_tmux.Binding.State.{
  BindingState, committing, live_session_proven, commit_succeeded, commit_failed,
}
use dual_tmux.Binding.Node.{BindingAttemptNode, BindingError, Fields, no_fields, error_field}
use dual_tmux.Binding.Chart.{Context}
use dual_tmux.Binding.Machine.{Snapshot, Core, BindingMachine, send}

abbrev pub Hook : Type 0 → Type 0
Hook W = BindingAttemptNode → Context → W → W × Option Exn

-- The loop over `_commit_hooks`, up to the first that raises.
unfoldable pub run_hooks : {W : Type 0} → List (Hook W) → Core → W → W × Option Exn
run_hooks [] core w = (w, none)
run_hooks (hook ∷ hooks) core w =
    let (w', raised) = hook core.context.node core.context w in
    elim raised [ some e ↦ (w', some e) | none ↦ run_hooks hooks core w' ]

abbrev pub is_committing : BindingState → Bool
is_committing committing = true
is_committing _ = false

abbrev pub Outcome : StateStore Snapshot → Type 0 → Type 0
Outcome st W = (BindingMachine st.State × W) × Result BindingState

abbrev pub rejection : (Exn → String) → Exn → Fields
rejection describe e = error_field (record { code = "commit_rejected"; message = describe e })

-- `except Exception` does not catch `SystemExit`.
abbrev pub is_exception : Exn → Bool
is_exception (system_exit s) = false
is_exception _ = true

module _ (st : StateStore Snapshot) (describe : Exn → String) {W : Type 0} where
  -- What is raised: `e`, unless reporting the failure raises itself.
  abbrev pub reraise : Exn → BindingMachine st.State × Result BindingState → W → Outcome st W
  reraise e (m, ok s) w = ((m, w), err e)
  reraise e (m, err x) w = ((m, w), err x)

  -- The `except Exception` block, and what is raised past it.
  unfoldable pub fail_commit : BindingMachine st.State → W → Exn → ℕ → Outcome st W
  fail_commit m w e now = elim (is_exception e && is_committing m.core.state) [
    | true ↦ reraise e (send st m commit_failed (rejection describe e) now) w
    | false ↦ ((m, w), err e)
  ]

  abbrev pub succeed : BindingMachine st.State × Result BindingState → W → ℕ → Outcome st W
  succeed (m, ok s) w now = ((m, w), ok s)
  succeed (m, err e) w now = fail_commit m w e now

  -- The `try` block after the hooks.
  unfoldable pub conclude : BindingMachine st.State → W × Option Exn → ℕ → Outcome st W
  unfolding fail_commit
  conclude m (w, some e) now = fail_commit m w e now
  conclude m (w, none) now = succeed (send st m commit_succeeded no_fields now) w now

  abbrev pub after_proof :
      BindingMachine st.State × Result BindingState → List (Hook W) → W → ℕ → Outcome st W
  after_proof (m, err e) hooks w now = ((m, w), err e)
  after_proof (m, ok s) hooks w now = conclude m (run_hooks hooks m.core w) now

  -- The clock reads `now` at the proof and `later` after the hooks.
  unfoldable pub commit_proven :
      BindingMachine st.State → List (Hook W) → Fields → W → ℕ → ℕ → Outcome st W
  unfolding conclude
  commit_proven m hooks fields w now later =
      after_proof (send st m live_session_proven fields now) hooks w later

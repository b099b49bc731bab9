-- ===== src/Binding/Commit/Outcome.antt =====
-- How `commit_proven` can end.
use mathlib.Core.Path.{subst}
use dual_tmux.Prelude.{
  ℕ, String, ◌≡◌, refl, sym, ◌∙◌, ap, inl, inr, Option, none, some, List, Bool-cases, if◌then◌else◌,
}
use dual_tmux.Prelude.Result.{Exn, Result, ok, err, Result-cases}
use dual_tmux.Fsm.Store.{StateStore, IsLawful}
use dual_tmux.Binding.State.{
  BindingState, proving, committing, bound, failed, live_session_proven, commit_succeeded,
  commit_failed, state_eq, event_eq,
}
use dual_tmux.Binding.Node.{succeeded, commit_error, Fields, no_fields, validate_payload}
use dual_tmux.Binding.Chart.{apply_changes}
use dual_tmux.Binding.Steps.{target, send-Accepted}
use dual_tmux.Binding.Sound.{IsSound, Accepted-IsSound}
use dual_tmux.Binding.Atomic.{binding_send_error}
use dual_tmux.Binding.Run.{send-Sent}
use dual_tmux.Binding.Machine.{Snapshot, BindingMachine, with_payload, send}
use dual_tmux.Binding.Commit.Accepted.{IsSteady, legal_bound, legal_failed, send_ok, state-send}
use dual_tmux.Binding.Commit.{
  is_exception, reraise, succeed, after_proof, Hook, run_hooks, fail_commit, conclude,
  commit_proven, rejection,
}

reraise-ok :
    (st : StateStore Snapshot) (describe : Exn → String) {W : Type 0} (e : Exn)
    (q : BindingMachine st.State × Result BindingState) (t : BindingState) (w : W)
    → q.1 ≡ ok t
    → reraise st describe e q w ≡ ((q.0, w), err e)
reraise-ok st describe e (m, ok s) t w h = refl
reraise-ok st describe e (m, err x) t w h = cc

succeed-ok :
    (st : StateStore Snapshot) (describe : Exn → String) {W : Type 0} (now : ℕ)
    (q : BindingMachine st.State × Result BindingState) (t : BindingState) (w : W)
    → q.1 ≡ ok t
    → succeed st describe q w now ≡ ((q.0, w), ok t)
succeed-ok st describe now (m, ok s) t w h = cc
succeed-ok st describe now (m, err x) t w h = cc

-- How an outcome of the hooks ends the attempt.
abbrev pub Ends :
    {K W : Type 0} → Option Exn → W → (BindingMachine K × W) × Result BindingState → Type 0
Ends none w ((m, v), r) = (m.core.state ≡ bound) × (v ≡ w) × (r ≡ ok bound)
Ends (some e) w ((m, v), r) =
    (m.core.state ≡ (if is_exception e then failed else committing)) × (v ≡ w) × (r ≡ err e)

module _ (st : StateStore Snapshot) (steady : IsSteady st) (describe : Exn → String) {W : Type 0}
    (now : ℕ) (m : BindingMachine st.State) (h : IsSound m.core)
    (s : m.core.state ≡ committing) where
  fail_commit-Ends : (w : W) (e : Exn) → Ends (some e) w (fail_commit st describe m w e now)
  unfolding validate_payload apply_changes fail_commit
  fail_commit-Ends w e =
      let x =
        send_ok st steady m commit_failed (rejection describe e) now
          (commit_error (record { code = "commit_rejected"; message = describe e })) failed h refl
          (ap (λ t. target t commit_failed) s) refl (legal_failed m.core.context.node _ h.legal) in
      let q = send st m commit_failed (rejection describe e) now in
      elim (Bool-cases (is_exception e)) [
        | inl caught ↦
            rw (s, caught, fail_commit)
              (rw (reraise-ok st describe e q failed w x) (
                state-send st steady m commit_failed (rejection describe e) now failed h x,
                refl,
                refl,
              ))
        | inr passed ↦ rw (passed, fail_commit) (s, refl, refl)
      ]

  conclude-Ends : (p : W × Option Exn) → Ends p.1 p.0 (conclude st describe m p now)
  unfolding validate_payload apply_changes conclude
  conclude-Ends (w, some e) = fail_commit-Ends w e
  conclude-Ends (w, none) =
      let x =
        send_ok st steady m commit_succeeded no_fields now succeeded bound h refl
          (ap (λ t. target t commit_succeeded) s) refl
          (legal_bound m.core.context.node h.legal (h.state ∙ s)) in
      rw (succeed-ok st describe now (send st m commit_succeeded no_fields now) bound w x)
        (state-send st steady m commit_succeeded no_fields now bound h x, refl, refl)

-- What follows a refused and an accepted proof.
after_proof-err :
    (st : StateStore Snapshot) (describe : Exn → String) {W : Type 0}
    (q : BindingMachine st.State × Result BindingState) (hooks : List (Hook W)) (w : W) (now : ℕ)
    {e : Exn}
    → q.1 ≡ err e
    → after_proof st describe q hooks w now ≡ ((q.0, w), err e)
after_proof-err st describe (m, ok s) hooks w now h = cc
after_proof-err st describe (m, err x) hooks w now h = cc

after_proof-ok :
    (st : StateStore Snapshot) (describe : Exn → String) {W : Type 0}
    (q : BindingMachine st.State × Result BindingState) (hooks : List (Hook W)) (w : W) (now : ℕ)
    {t : BindingState}
    → q.1 ≡ ok t
    → after_proof st describe q hooks w now
      ≡ conclude st describe q.0 (run_hooks hooks q.0.core w) now
after_proof-ok st describe (m, ok s) hooks w now h = refl
after_proof-ok st describe (m, err x) hooks w now h = cc

-- The two ways in which `commit_proven` ends: the proof is refused, and neither the machine nor the
-- world has changed; or it is accepted, and the outcome of the hooks decides.
pub data Ending (st : StateStore Snapshot) (describe : Exn → String) {W : Type 0}
    (m : BindingMachine st.State) (hooks : List (Hook W)) (fields : Fields) (w : W) (now later : ℕ)
    : Type 0 where
  refused :
      (e : Exn)
      → (send st m live_session_proven fields now).1 ≡ err e
      → commit_proven st describe m hooks fields w now later ≡ ((m, w), err e)
      → Ending st describe m hooks fields w now later
  decided :
      (send st m live_session_proven fields now).1 ≡ ok committing
      → (let p = run_hooks hooks (send st m live_session_proven fields now).0.core w in
          Ends p.1 p.0 (commit_proven st describe m hooks fields w now later))
      → Ending st describe m hooks fields w now later

module _ (st : StateStore Snapshot) (lawful : IsLawful st) (steady : IsSteady st)
    (describe : Exn → String) where
  -- `commit_proven` on a sound machine in `proving`, over a lawful store that never raises: a refused
  -- proof runs no hook and changes nothing; after an accepted one the attempt is bound if no hook
  -- raises. If a hook raises, its exception is raised; the attempt has then failed, but stays
  -- `committing` if the hook raised `SystemExit`. The world is what the hooks left.
  pub commit_proven-Ending :
      {W : Type 0} (m : BindingMachine st.State) (hooks : List (Hook W)) (fields : Fields) (w : W)
      (now later : ℕ)
      → IsSound m.core
      → m.core.state ≡ proving
      → Ending st describe m hooks fields w now later
  unfolding commit_proven
  commit_proven-Ending m hooks fields w now later h s =
      elim (Result-cases (send st m live_session_proven fields now).1) [
        | inr (e, x) ↦
            let q = send st m live_session_proven fields now in
            refused e x (
              after_proof-err st describe q hooks w later x
              ∙ ap (λ n. ((n, w), err e))
                  (binding_send_error st lawful m live_session_proven fields now e x))
        | inl (t, x) ↦
            let q = send st m live_session_proven fields now in
            let sent = send-Sent st m live_session_proven fields now t x in
            let accepted = send-Accepted refl h.graph sent.sent in
            let now_committing : t ≡ committing = cc accepted.edge_taken in
            let before : IsSound (with_payload st m.core sent.payload) = record {
              graph = h.graph;
              state = h.state;
              legal = h.legal;
              path = h.path;
            } in
            let p = run_hooks hooks q.0.core w in
            decided (x ∙ ap ok now_committing) (
              subst (Ends p.1 p.0) (sym (after_proof-ok st describe q hooks w later x)) (
                conclude-Ends st steady describe later q.0 (Accepted-IsSound accepted before)
                  (accepted.state ∙ now_committing) p))
      ]

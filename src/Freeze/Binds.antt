-- ===== src/Freeze/Binds.antt =====
-- What is enough for a freeze to bind.
use mathlib.Core.Path.{}
use dual_tmux.Prelude.{
  ℕ, String, ◌≡◌, refl, ◌∙◌, ap, true, false, ◌&&◌, Option, none, some, nonempty, ◌==◌, string_eq,
  arith, inl, inr, Bool-cases, [], ◌∷◌,
}
use dual_tmux.Prelude.Result.{Exn, Result, ok, err}
use dual_tmux.Fsm.Machine
use dual_tmux.Fsm.Store.{memory_store}
use dual_tmux.Binding.State.{BindingState, proving, committing, bound, live_session_proven}
use dual_tmux.Binding.Node.{
  AgentRole, BindingAttemptNode, LiveSessionProven, proven, proven_fields, model_validate,
  legal_candidate, validate_payload,
}
use dual_tmux.Binding.Chart.{Context, can_prove, provable, apply_changes}
use dual_tmux.Binding.Steps.{target}
use dual_tmux.Binding.Sound.{IsSound}
use dual_tmux.Binding.Machine.{Snapshot, send}
use dual_tmux.Binding.Commit.Accepted.{send_passed}
use dual_tmux.Fsm.Store.{memory_store-IsLawful}
use dual_tmux.Binding.Commit.Outcome.{refused, decided, Ends, commit_proven-Ending}
use dual_tmux.Nodes.Json.{Dict, merge}
use dual_tmux.Freeze.Payload.{proven_payload}
use dual_tmux.Freeze.Hook.{projection, persist_entry, execute, updated}
use dual_tmux.Freeze.Ending.{IsQuiet, report-quiet, run_hooks-one, prove-Ending}
use dual_tmux.Freeze.Attempt.{Attempt, Host, Freezing, committed, commits, prove}
use dual_tmux.Freeze.Missing.{memory_store-IsSteady}

-- The payload names a session, another one than the previous one if it rebuilds.
pub record IsNamed (n : BindingAttemptNode) (p : LiveSessionProven) : Type 0 where
  pub named : nonempty p.session_id ≡ true
  pub fresh : (p.rebuild && n.previous_session_id == p.session_id) ≡ false

legal_committing :
    (n : BindingAttemptNode) (p : LiveSessionProven)
    → model_validate n ≡ ok n
    → IsNamed n p
    → model_validate (record (apply_changes n (proven p)) { state = committing })
      ≡ ok (record (apply_changes n (proven p)) { state = committing })
unfolding model_validate legal_candidate apply_changes
legal_committing n p h d = elim (Bool-cases p.rebuild) [
  | inl e ↦ rw e (ground (arith, d.named, d.fresh))
  | inr e ↦ rw e (ground (arith, d.named))
]

-- A proof that the guard lets pass is accepted.
pub proof_ok :
    (m : Attempt) (p : LiveSessionProven) (now : ℕ)
    → IsSound m.core
    → m.core.state ≡ proving
    → IsNamed m.core.context.node p
    → provable m.core.context p ≡ true
    → (send (memory_store Snapshot) m live_session_proven (proven_fields p) now).1 ≡ ok committing
unfolding Machine.passes can_prove provable validate_payload
proof_ok m p now sound s d passes =
    send_passed (memory_store Snapshot) memory_store-IsSteady m live_session_proven
      (proven_fields p) now (proven p) committing sound (rw d.named refl)
      (ap (λ t. target t live_session_proven) s) (ap ok passes)
      (legal_committing m.core.context.node p sound.legal d)

module _ {D J O : Type 0} (f : Freezing D J O) (quiet : IsQuiet f) (side : AgentRole)
    (holder previous : String) (h : Host J O) where
  committed-ok :
      (payload : LiveSessionProven) (g : Host J O)
      (q : (Attempt × (Dict × O)) × Result BindingState) {s : BindingState}
      → q.1 ≡ ok s
      → (committed f side payload g q).1 ≡ ok true
  committed-ok payload g ((m, (t, o)), ok s) e = rw (report-quiet f quiet side holder h) refl
  committed-ok payload g ((m, (t, o)), err x) e = cc

  updated-none :
      (target projected : Dict) (q : O × Option Exn)
      → q.1 ≡ none
      → (updated f.lib f.write_text f.rstrip target projected q).1 ≡ none
  updated-none target projected (o, none) e = refl
  updated-none target projected (o, some x) e = cc

  module _ (m : Attempt) (sound : IsSound m.core) (s : m.core.state ≡ proving) (working : Dict)
      (o : O) (payload : LiveSessionProven) (projected : Dict) where
    hook-none :
        (node : BindingAttemptNode) (context : Context)
        → projection f.lib working side holder h.target ≡ ok projected
        → (persist_entry f.lib f.write_text f.rstrip side projected o).1 ≡ none
        → (execute f.lib f.write_text f.rstrip working side holder node context (h.target, o)).1
          ≡ none
    unfolding execute
    hook-none node context e w = rw e (updated-none h.target projected _ w)

    Ends-none :
        (p : (Dict × O) × Option Exn) (q : (Attempt × (Dict × O)) × Result BindingState)
        → p.1 ≡ none
        → Ends p.1 p.0 q
        → q.1 ≡ ok bound
    Ends-none (v, none) ((n, w), r) e (a, b, c) = c
    Ends-none (v, some x) q e h_ = cc

    commits-ok :
        IsNamed m.core.context.node payload
        → provable m.core.context payload ≡ true
        → projection f.lib working side holder h.target ≡ ok projected
        → (persist_entry f.lib f.write_text f.rstrip side projected o).1 ≡ none
        → (commits f side m (record h { outside = o }) holder working (ok payload)).1 ≡ ok true
    commits-ok named passes e w =
        let hook = execute f.lib f.write_text f.rstrip working side holder in
        let accepted = proof_ok m payload f.clock.proof sound s named passes in
        committed-ok payload (record h { outside = o }) _ {s = bound}
          (elim (commit_proven-Ending (memory_store Snapshot) (memory_store-IsLawful Snapshot)
            memory_store-IsSteady f.describe m (hook ∷ []) (proven_fields payload) (h.target, o)
            f.clock.proof f.clock.commit sound s) [
              | refused x y z ↦ cc
              | decided x ends ↦
                  let core =
                    (send (memory_store Snapshot) m live_session_proven (proven_fields payload)
                      f.clock.proof).0.core in
                  Ends-none _ _
                    (ap (λ r. r.1) (run_hooks-one hook core (h.target, o))
                      ∙ hook-none core.context.node core.context e w)
                    ends
            ])

    -- A freeze whose attempt is proving, with an event log that raises nothing, binds and returns
    -- `True` as soon as the body proves a session on the working copy, the payload of that copy names
    -- a session that is not the previous one of a rebuild and passes the guard, the projection of the
    -- copy is valid, and the entry of the run point can be written.
    pub prove-binds :
        f.body h.target h.outside ≡ (o, ok (working, true))
        → proven_payload f.lib working side previous ≡ ok payload
        → IsNamed m.core.context.node payload
        → provable m.core.context payload ≡ true
        → projection f.lib working side holder h.target ≡ ok projected
        → (persist_entry f.lib f.write_text f.rstrip side projected o).1 ≡ none
        → let p = prove f side m h holder previous in
          (p.1 ≡ ok true) × (p.0.0.core.state ≡ bound) × (p.0.1.target ≡ merge h.target projected)
    unfolding prove
    prove-binds b known named passes e w =
        let done : (prove f side m h holder previous).1 ≡ ok true =
          rw (b, known) (commits-ok named passes e w) in
        elim (prove-Ending f quiet side holder h previous m sound s) [
          | inl k ↦ absurd (k.result done)
          | inr k ↦
              let same_copy : k.working ≡ working = cc in
              let same : k.projected ≡ projected = cc in
              (done, k.state, k.target ∙ ap (merge h.target) same)
        ]

-- ===== src/Resume/Steps.antt =====
-- What an accepted event of a resume attempt does, read off the graph.
use dual_tmux.Prelude.{
  ℕ, ◌≡◌, refl, sym, ◌∙◌, ap, inl, inr, Bool, true, false, Option, none, some, [], ◌∷◌, ◌++◌, arith,
  Option-cases,
}
use dual_tmux.Prelude.Result.{Result, ok, err}
use dual_tmux.Fsm.Graph.{Guard, TransitionDef, find_transition}
use dual_tmux.Fsm.Machine.{Entry, passes, follow, send}
use dual_tmux.Fsm.Machine.Steps.{send_missing, send_found}
use dual_tmux.Resume.State.{
  ResumeState, created, preflighting, acquiring, restoring, verifying, completed, rejected,
  rolling_back, failed, attention, ResumeEvent, processing_started, preflight_passed,
  preflight_rejected, ownership_acquired, ownership_failed, restore_completed, restore_failed,
  verification_passed, verification_failed, rollback_completed, rollback_uncertain, state_eq,
  event_eq,
}
use dual_tmux.Resume.Node.{ResumeAttemptNode, model_validate}
use dual_tmux.Resume.Event.{Payload}
use dual_tmux.Resume.Chart.{
  Context, preflight_stable, token_matches_claimant, verification_matches_occupancy,
  rollback_proved, apply_changes, enter, edge, resume_graph,
}
use dual_tmux.Resume.Machine.{Core}

-- The transition diagram as a table.
abbrev pub target : ResumeState → ResumeEvent → Option ResumeState
target created processing_started = some preflighting
target preflighting preflight_passed = some acquiring
target preflighting preflight_rejected = some rejected
target acquiring ownership_acquired = some restoring
target acquiring ownership_failed = some failed
target restoring restore_completed = some verifying
target restoring restore_failed = some rolling_back
target verifying verification_passed = some completed
target verifying verification_failed = some rolling_back
target rolling_back rollback_completed = some failed
target rolling_back rollback_uncertain = some attention
target _ _ = none

abbrev pub guard_of : ResumeEvent → Option (Guard Context)
guard_of preflight_passed = some preflight_stable
guard_of ownership_acquired = some token_matches_claimant
guard_of verification_passed = some verification_matches_occupancy
guard_of rollback_completed = some rollback_proved
guard_of _ = none

abbrev pub found :
    ResumeState
    → ResumeEvent
    → Option ResumeState
    → Option (ResumeState × ResumeState × TransitionDef ResumeEvent Context)
found s e none = none
found s e (some t) = some (s, t, (edge s t e (guard_of e)).1)

-- The indexed search of the graph answers what the table says.
pub find_transition-resume_graph :
    (s : ResumeState) (e : ResumeEvent) → find_transition resume_graph s e ≡ found s e (target s e)
unfolding find_transition resume_graph
find_transition-resume_graph created processing_started = refl
find_transition-resume_graph created _ = refl
find_transition-resume_graph preflighting processing_started = refl
find_transition-resume_graph preflighting _ = refl
find_transition-resume_graph acquiring processing_started = refl
find_transition-resume_graph acquiring _ = refl
find_transition-resume_graph restoring processing_started = refl
find_transition-resume_graph restoring _ = refl
find_transition-resume_graph verifying processing_started = refl
find_transition-resume_graph verifying _ = refl
find_transition-resume_graph completed processing_started = refl
find_transition-resume_graph completed _ = refl
find_transition-resume_graph rejected processing_started = refl
find_transition-resume_graph rejected _ = refl
find_transition-resume_graph rolling_back processing_started = refl
find_transition-resume_graph rolling_back _ = refl
find_transition-resume_graph failed processing_started = refl
find_transition-resume_graph failed _ = refl
find_transition-resume_graph attention processing_started = refl
find_transition-resume_graph attention _ = refl

abbrev pub entry : ResumeState → ResumeState → ResumeEvent → ℕ → Entry ResumeState ResumeEvent
entry from to event now = record { from = from; to = to; event = event; ts = now }

-- What a machine is after an accepted event.
pub record Accepted (c d : Core) (payload : Payload) (event : ResumeEvent) (now : ℕ)
    (s : ResumeState) : Type 0 where
  pub edge_taken : target c.state event ≡ some s
  pub guarded : passes (guard_of event) c.context ≡ ok true
  pub validated :
      model_validate (record (apply_changes c.context.node payload) { state = s; updated_at = now })
      ≡ ok d.context.node
  pub state : d.state ≡ s
  pub graph : d.graph ≡ c.graph
  pub log : d.log ≡ c.log ++ (entry c.state s event now ∷ [])

module _ {c d : Core} {payload : Payload} {event : ResumeEvent} {now : ℕ} {s : ResumeState}
    (known : c.context.payload ≡ some payload) where
  settled :
      (t : ResumeState) (r : Result ResumeAttemptNode)
      → target c.state event ≡ some t
      → passes (guard_of event) c.context ≡ ok true
      → model_validate
          (record (apply_changes c.context.node payload) { state = t; updated_at = now })
        ≡ r
      → follow c t (edge c.state t event (guard_of event)).1 event now (ok true) ≡ (d, ok s)
      → Accepted c d payload event now s
  unfolding follow enter
  settled t (ok node) e p v h = ground arith
  settled t (err x) e p v h = ground arith

  decided :
      (t : ResumeState) (r : Result Bool)
      → target c.state event ≡ some t
      → passes (guard_of event) c.context ≡ r
      → follow c t (edge c.state t event (guard_of event)).1 event now r ≡ (d, ok s)
      → Accepted c d payload event now s
  decided t (ok true) e p h = settled t _ e p refl h
  decided t (ok false) e p h = unfold follow in cc
  decided t (err x) e p h = unfold follow in cc

  -- An event that the core accepts follows an edge of the diagram, with its guard passed and the
  -- changed node valid.
  pub send-Accepted :
      c.graph ≡ resume_graph
      → send c event (λ x. x) now ≡ (d, ok s)
      → Accepted c d payload event now s
  send-Accepted g h = elim (Option-cases (target c.state event)) [
    | inl e ↦
        let missing =
          ap (λ x. find_transition x c.state event) g
          ∙ find_transition-resume_graph c.state event
          ∙ ap (found c.state event) e in
        cc (send_missing c event now missing)
    | inr (t, e) ↦
        let hit =
          ap (λ x. find_transition x c.state event) g
          ∙ find_transition-resume_graph c.state event
          ∙ ap (found c.state event) e in
        decided t _ e refl (sym (send_found c event now c.state t _ hit) ∙ h)
  ]

-- ===== src/Resume/Chart.antt =====
-- The guards, the actions and the graph of datanode/runtime_fsm/resume.py.
use dual_tmux.Prelude.{Bool, false, not, ◌&&◌, ◌||◌, Option, none, some}
use dual_tmux.Prelude.{[], ◌∷◌, ◌==◌, nat_eq, string_eq, leb, nonempty}
use dual_tmux.Prelude.Result.{Exn, Result, ok, err, key_error, ◌>>=◌}
use dual_tmux.Fsm.Graph.{Guard, Action, TransitionDef, Transitions, Graph, make_graph}
use dual_tmux.Resume.State.{ResumeState, ResumeEvent, event_eq}
use dual_tmux.Resume.Node.{OccupancyToken, ResumeAttemptNode, VerificationEvidence, model_validate}
use dual_tmux.Resume.Event.{Payload}

-- `self.core.context`; `payload` is absent until the first event.
pub record Context : Type 0 where
  pub node : ResumeAttemptNode
  pub payload : Option Payload

-- `_payload(context)`, which subscripts the dict.
abbrev pub read_payload : Context → Result Payload
read_payload c = elim c.payload [ none ↦ err (key_error "payload") | some p ↦ ok p ]

unfoldable pub is_stable : Payload → Bool
is_stable (Payload.preflight_passed revisions stable) = stable
is_stable _ = false

unfoldable pub preflight_stable : Guard Context
unfolding is_stable
preflight_stable c = do payload ← read_payload c; ok (is_stable payload)

unfoldable pub token_matches : ResumeAttemptNode → OccupancyToken → Bool
token_matches node t =
    t.tunnel_name == node.tunnel_name
    && t.holder_client_id == node.claimant_client_id
    && (not (nonempty t.holder_instance_id) || t.holder_instance_id == node.claimant_instance_id)

unfoldable pub carries_claim : ResumeAttemptNode → Payload → Bool
unfolding token_matches
carries_claim node (Payload.ownership_acquired token) = token_matches node token
carries_claim node _ = false

unfoldable pub token_matches_claimant : Guard Context
unfolding carries_claim
token_matches_claimant c = do payload ← read_payload c; ok (carries_claim c.node payload)

unfoldable pub evidence_matches :
    ResumeAttemptNode → VerificationEvidence → Option OccupancyToken → Bool
evidence_matches node v none = false
evidence_matches node v (some t) =
    v.generation == t.generation
    && not (not (leb v.trigger_writer_count 1) || not (leb v.bullet_writer_count 1))
    && (not (nonempty v.occupancy_holder) || v.occupancy_holder == node.claimant_client_id)

unfoldable pub carries_evidence : ResumeAttemptNode → Payload → Bool
unfolding evidence_matches
carries_evidence node (Payload.verification_passed v) = evidence_matches node v node.ownership_token
carries_evidence node _ = false

unfoldable pub verification_matches_occupancy : Guard Context
unfolding carries_evidence
verification_matches_occupancy c = do payload ← read_payload c; ok (carries_evidence c.node payload)

unfoldable pub keeps_occupancy : Payload → Bool
keeps_occupancy (Payload.rollback_completed evidence kept) = kept
keeps_occupancy _ = false

unfoldable pub rollback_proved : Guard Context
unfolding keeps_occupancy
rollback_proved c = do payload ← read_payload c; ok (keeps_occupancy payload)

-- `node.model_copy(update=changes)`, by the class of the payload.
unfoldable pub apply_changes : ResumeAttemptNode → Payload → ResumeAttemptNode
apply_changes n Payload.processing_started = n
apply_changes n (Payload.preflight_passed revisions stable) = record n {
  expected_binding_revisions = revisions;
  error = none;
}
apply_changes n (Payload.preflight_rejected e) = record n { error = some e }
apply_changes n (Payload.ownership_acquired token) = record n {
  ownership_token = some token;
  error = none;
}
apply_changes n (Payload.ownership_failed e) = record n { error = some e }
apply_changes n (Payload.restore_completed ids) = record n { transfer_ids = ids }
apply_changes n (Payload.restore_failed e) = record n { error = some e }
apply_changes n (Payload.verification_passed evidence) = record n {
  verification = some evidence;
  error = none;
}
apply_changes n (Payload.verification_failed e) = record n { error = some e }
apply_changes n (Payload.rollback_completed evidence kept) = record n {
  rollback_evidence = evidence;
}
apply_changes n (Payload.rollback_uncertain e) = record n { error = some e }

abbrev settle : Context → Result ResumeAttemptNode → Context × Option Exn
settle c (ok node) = (record c { node = node }, none)
settle c (err e) = (c, some e)

-- The closure `update` that `_enter(target)` returns.
unfoldable pub enter : ResumeState → Action Context
unfolding apply_changes model_validate
enter target now c = elim (read_payload c) [
  | err e ↦ (c, some e)
  | ok payload ↦
      let node = record (apply_changes c.node payload) { state = target; updated_at = now } in
      settle c (model_validate node)
]

abbrev pub edge :
    ResumeState
    → ResumeState
    → ResumeEvent
    → Option (Guard Context)
    → (ResumeState × ResumeState) × TransitionDef ResumeEvent Context
edge from to event guard = (
  (from, to),
  record { event = event; guard = guard; on_exit = none; on_enter = some (enter to) },
)

unfoldable pub resume_transitions : Transitions ResumeState ResumeEvent Context
resume_transitions =
    edge ResumeState.created ResumeState.preflighting ResumeEvent.processing_started none
    ∷ edge ResumeState.preflighting ResumeState.acquiring ResumeEvent.preflight_passed
        (some preflight_stable)
    ∷ edge ResumeState.preflighting ResumeState.rejected ResumeEvent.preflight_rejected none
    ∷ edge ResumeState.acquiring ResumeState.restoring ResumeEvent.ownership_acquired
        (some token_matches_claimant)
    ∷ edge ResumeState.acquiring ResumeState.failed ResumeEvent.ownership_failed none
    ∷ edge ResumeState.restoring ResumeState.verifying ResumeEvent.restore_completed none
    ∷ edge ResumeState.restoring ResumeState.rolling_back ResumeEvent.restore_failed none
    ∷ edge ResumeState.verifying ResumeState.completed ResumeEvent.verification_passed
        (some verification_matches_occupancy)
    ∷ edge ResumeState.verifying ResumeState.rolling_back ResumeEvent.verification_failed none
    ∷ edge ResumeState.rolling_back ResumeState.failed ResumeEvent.rollback_completed
        (some rollback_proved)
    ∷ edge ResumeState.rolling_back ResumeState.attention ResumeEvent.rollback_uncertain none
    ∷ []

unfoldable pub resume_graph : Graph ResumeState ResumeEvent Context
unfolding make_graph resume_transitions
resume_graph = make_graph resume_transitions ResumeState.created

-- ===== src/Service/Reports.antt =====
-- The reports of a `ResumeAttempt`, one by one.
use dual_tmux.Prelude.{
  ℕ, String, ◌≡◌, refl, sym, ◌∙◌, ap, ◌⊎◌, true, false, Option, [], ◌∷◌, ◌<>◌, arith, starts_with,
}
use dual_tmux.Prelude.{string_eq, beq_refl, nonempty}
use dual_tmux.Prelude.Result.{Exn, Result, ok}
use dual_tmux.Fsm.Machine.{passes}
use dual_tmux.Fsm.Store.{StateStore, IsLawful}
use dual_tmux.Occupancy.Resume.{Token, Verified}
use dual_tmux.Ownership.Takeover.{ResumePlan}
use dual_tmux.Resume.State.{
  ResumeState, ResumeEvent, preflighting, acquiring, restoring, verifying, completed, rejected,
  rolling_back, failed, preflight_passed, preflight_rejected, ownership_acquired, ownership_failed,
  restore_completed, restore_failed, verification_passed, verification_failed, rollback_completed,
}
use dual_tmux.Resume.Node.{
  ResumeAttemptNode, ResumeError, OccupancyToken, no_side, node_fields, error_fields, token_fields,
  needs_ownership,
}
use dual_tmux.Resume.Event.{
  Payload, Fields, error_field, revisions_field, token_field, transfer_ids_field, rollback_field,
  validate_payload,
}
use dual_tmux.Resume.Chart.{
  apply_changes, preflight_stable, is_stable, token_matches, carries_claim, token_matches_claimant,
  keeps_occupancy, rollback_proved,
}
use dual_tmux.Resume.Accepted.{IsSteady}
use dual_tmux.Resume.Legal.{
  legal_rejected, legal_acquiring, legal_restoring, legal_unclaimed, legal_verifying,
  legal_rolling_back, legal_failed, validated_fields,
}
use dual_tmux.Resume.Machine.{Snapshot}
use dual_tmux.Service.Attempt.{
  Tunnel, Running, Emission, Digested, side, send_event, preflight, preflight_failed, acquired,
  not_acquired, restored, not_restored, verified, not_verified, keep_occupancy_after_failure,
}
use dual_tmux.Service.Sends.{
  IsHeld, Reached, IsQuiet, Refused, send_event-Reached, send_event-cases,
}

module _ (st : StateStore Snapshot) (steady : IsSteady st) {J W : Type 0}
    (emit : Emission → J → J × Option Exn) (clock : W → ℕ) (describe : Exn → String)
    (digest : Digested → String) (calm : IsQuiet emit) (c : Running st.State J W) where
  abbrev error_payload : String → String → String → ResumeError
  error_payload code message stage = record {
    code = code;
    message = message;
    stage = stage;
    side = no_side;
  }

  abbrev node : ResumeAttemptNode
  node = c.attempt.machine.core.context.node

  abbrev sent : ResumeEvent → Fields → Running st.State J W × Result ResumeState
  sent event fields = send_event st emit clock describe digest event fields c

  rejected-Reached :
      (e : ResumeError)
      → error_fields e ≡ true
      → IsHeld c preflighting
      → Reached c rejected (sent preflight_rejected (error_field e))
  unfolding validate_payload apply_changes passes
  rejected-Reached e f h =
      send_event-Reached st emit clock describe digest calm steady preflight_rejected
        (error_field e) c (Payload.preflight_rejected e) preflighting rejected h (rw f refl) refl
        refl (legal_rejected node (clock c.world) h.sound.legal e f (h.sound.state ∙ h.state))
        (λ r. cc)

  -- A rejected preflight, and one that raised.
  pub preflight_failed-Reached :
      (e : Exn)
      → IsHeld c preflighting
      → Reached c rejected (preflight_failed st emit clock describe digest e c)
  unfolding preflight_failed error_fields
  preflight_failed-Reached e h = rejected-Reached _ refl h

  pub preflight-unsafe :
      (t : Tunnel) (plan : ResumePlan)
      → plan.safe ≡ false
      → IsHeld c preflighting
      → Reached c rejected (preflight st emit clock describe digest t plan c)
  unfolding preflight error_fields
  preflight-unsafe t plan s h = rw s (rejected-Reached _ refl h)

  pub preflight-safe :
      (t : Tunnel) (plan : ResumePlan)
      → plan.safe ≡ true
      → IsHeld c preflighting
      → Reached c acquiring (preflight st emit clock describe digest t plan c)
  unfolding preflight validate_payload apply_changes passes preflight_stable is_stable
  preflight-safe t plan s h =
      let revisions =
        ("trigger:" <> digest (side t.trigger)) ∷ ("bullet:" <> digest (side t.bullet)) ∷ [] in
      rw s (
        send_event-Reached st emit clock describe digest calm steady preflight_passed
          (revisions_field revisions true) c (Payload.preflight_passed revisions true) preflighting
          acquiring h refl refl refl
          (legal_acquiring node (clock c.world) h.sound.legal revisions (h.sound.state ∙ h.state))
          (λ r. cc))

  abbrev token_of : Token → OccupancyToken
  token_of token = record {
    tunnel_name = c.attempt.name;
    holder_client_id = c.attempt.claimant_client_id;
    generation = token.generation;
    newly_acquired = token.newly_acquired;
    holder_instance_id = c.attempt.claimant_instance_id;
  }

  valid_names :
      (n : ResumeAttemptNode)
      → node_fields n ≡ true
      → (starts_with n.tunnel_name "dt-" ≡ true) × (nonempty n.claimant_client_id ≡ true)
  unfolding node_fields
  valid_names n h = ground arith

  token_of-valid :
      {s : ResumeState} (token : Token) → IsHeld c s → token_fields (token_of token) ≡ true
  unfolding token_fields
  token_of-valid token h =
      let (fields, facts) = validated_fields node h.sound.legal in
      let (named, known) = valid_names node fields in
      let a = ap (λ x. starts_with x "dt-") (sym h.name) ∙ named in
      let b = ap nonempty (sym h.client) ∙ known in rw a (rw b refl)

  token_of-matches :
      {s : ResumeState} (token : Token) → IsHeld c s → token_matches node (token_of token) ≡ true
  unfolding token_matches
  token_of-matches token h =
      rw (h.name, h.client, h.installation)
        (rw (beq_refl c.attempt.name) (
          rw (beq_refl c.attempt.claimant_client_id)
            (rw (beq_refl c.attempt.claimant_instance_id) (ground arith))))

  -- The claimant's own token is always accepted.
  pub acquired-Reached :
      (token : Token)
      → IsHeld c acquiring
      → Reached c restoring (acquired st emit clock describe digest token c)
  unfolding acquired validate_payload apply_changes passes token_matches_claimant carries_claim
  acquired-Reached token h =
      let t = token_of token in
      let valid = token_of-valid token h in
      let same = token_of-matches token h in
      send_event-Reached st emit clock describe digest calm steady ownership_acquired
        (token_field t) c (Payload.ownership_acquired t) acquiring restoring h (rw valid refl) refl
        (ap ok same)
        (legal_restoring node (clock c.world) h.sound.legal t valid same (h.sound.state ∙ h.state))
        (λ r. cc)

  pub not_acquired-Reached :
      (e : Exn)
      → IsHeld c acquiring
      → Reached c failed (not_acquired st emit clock describe digest e c)
  unfolding not_acquired validate_payload apply_changes passes error_fields
  not_acquired-Reached e h =
      let x = error_payload "ownership_failed" (describe e) "ownership" in
      send_event-Reached st emit clock describe digest calm steady ownership_failed (error_field x)
        c (Payload.ownership_failed x) acquiring failed h refl refl refl
        (legal_unclaimed node (clock c.world) h.sound.legal x refl (h.sound.state ∙ h.state))
        (λ r. cc)

  pub restored-Reached :
      IsHeld c restoring → Reached c verifying (restored st emit clock describe digest c)
  unfolding restored validate_payload apply_changes passes
  restored-Reached h =
      send_event-Reached st emit clock describe digest calm steady restore_completed
        (transfer_ids_field []) c (Payload.restore_completed []) restoring verifying h refl refl
        refl (legal_verifying node (clock c.world) h.sound.legal (h.sound.state ∙ h.state))
        (λ r. cc)

  pub not_restored-Reached :
      (e : Exn)
      → IsHeld c restoring
      → Reached c rolling_back (not_restored st emit clock describe digest e c)
  unfolding not_restored validate_payload apply_changes passes error_fields
  not_restored-Reached e h =
      let x = error_payload "restore_failed" (describe e) "restore" in
      send_event-Reached st emit clock describe digest calm steady restore_failed (error_field x) c
        (Payload.restore_failed x) restoring rolling_back h refl refl refl
        (legal_rolling_back node (clock c.world) h.sound.legal x refl
          (ap needs_ownership (h.sound.state ∙ h.state)))
        (λ r. refl)

  pub not_verified-Reached :
      (e : Exn)
      → IsHeld c verifying
      → Reached c rolling_back (not_verified st emit clock describe digest e c)
  unfolding not_verified validate_payload apply_changes passes error_fields
  not_verified-Reached e h =
      let x = error_payload "verification_failed" (describe e) "verification" in
      send_event-Reached st emit clock describe digest calm steady verification_failed
        (error_field x) c (Payload.verification_failed x) verifying rolling_back h refl refl refl
        (legal_rolling_back node (clock c.world) h.sound.legal x refl
          (ap needs_ownership (h.sound.state ∙ h.state)))
        (λ r. refl)

  pub keep_occupancy-Reached :
      IsHeld c rolling_back
      → Reached c failed (keep_occupancy_after_failure st emit clock describe digest c)
  unfolding keep_occupancy_after_failure validate_payload apply_changes passes rollback_proved
      keeps_occupancy
  keep_occupancy-Reached h =
      let evidence = "occupancy_kept" ∷ [] in
      send_event-Reached st emit clock describe digest calm steady rollback_completed
        (rollback_field evidence true) c (Payload.rollback_completed evidence true) rolling_back
        failed h refl refl refl
        (legal_failed node (clock c.world) h.sound.legal evidence (h.explained refl)
          (h.sound.state ∙ h.state))
        (λ r. cc)

  pub verified-cases :
      (lawful : IsLawful st) (v : Verified)
      → IsHeld c verifying
      → Reached c completed (verified st emit clock describe digest v c)
        ⊎ Refused c verifying (verified st emit clock describe digest v c)
  unfolding verified
  verified-cases lawful v h =
      send_event-cases st emit clock describe digest calm lawful verification_passed _ c verifying
        completed h refl refl

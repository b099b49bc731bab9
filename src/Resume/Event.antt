-- ===== src/Resume/Event.antt =====
-- The event payloads of datanode/runtime_fsm/resume.py, and what `PAYLOAD_ADAPTER` makes of the
-- fields that a worker reports.
use dual_tmux.Prelude.{String, Bool, List, [], leb, length}
use dual_tmux.Prelude.Result.{Result, ok, err, validation_error, ◌>>◌, guard}
use dual_tmux.Resume.State.{ResumeEvent}
use dual_tmux.Resume.Node.{
  ResumeError, OccupancyToken, VerificationEvidence, error_fields, token_fields, evidence_fields,
}

-- One constructor for each payload class.
pub data Payload : Type 0 where
  processing_started : Payload
  preflight_passed : List String → Bool → Payload
  preflight_rejected : ResumeError → Payload
  ownership_acquired : OccupancyToken → Payload
  ownership_failed : ResumeError → Payload
  restore_completed : List String → Payload
  restore_failed : ResumeError → Payload
  verification_passed : VerificationEvidence → Payload
  verification_failed : ResumeError → Payload
  rollback_completed : List String → Bool → Payload
  rollback_uncertain : ResumeError → Payload

-- The fields beside `event`, by the names that they carry; `other_fields` is any other dict.
pub data Fields : Type 0 where
  no_fields other_fields : Fields
  revisions_field : List String → Bool → Fields
  error_field : ResumeError → Fields
  token_field : OccupancyToken → Fields
  transfer_ids_field : List String → Fields
  evidence_field : VerificationEvidence → Fields
  rollback_field : List String → Bool → Fields

abbrev invalid : Result Payload
invalid = err (validation_error "the fields do not fit the event")

with_error : ResumeError → (ResumeError → Payload) → Result Payload
unfolding error_fields
with_error e make = do guard (error_fields e) (validation_error "code is empty"); ok (make e)

-- `PAYLOAD_ADAPTER.validate_python({**raw, "event": event_name})`: the event selects the class,
-- and every model forbids extra fields.
unfoldable pub validate_payload : ResumeEvent → Fields → Result Payload
unfolding with_error token_fields evidence_fields
validate_payload ResumeEvent.processing_started no_fields = ok Payload.processing_started
validate_payload ResumeEvent.preflight_passed (revisions_field revisions stable) =
    ok (Payload.preflight_passed revisions stable)
validate_payload ResumeEvent.preflight_rejected (error_field e) =
    with_error e Payload.preflight_rejected
validate_payload ResumeEvent.ownership_acquired (token_field t) = do
  guard (token_fields t) (validation_error "the token is invalid")
  ok (Payload.ownership_acquired t)
validate_payload ResumeEvent.ownership_failed (error_field e) =
    with_error e Payload.ownership_failed
validate_payload ResumeEvent.restore_completed no_fields = ok (Payload.restore_completed [])
validate_payload ResumeEvent.restore_completed (transfer_ids_field ids) = do
  guard (leb (length ids) 2) (validation_error "more than two transfer IDs")
  ok (Payload.restore_completed ids)
validate_payload ResumeEvent.restore_failed (error_field e) = with_error e Payload.restore_failed
validate_payload ResumeEvent.verification_passed (evidence_field v) = do
  guard (evidence_fields v) (validation_error "the evidence is invalid")
  ok (Payload.verification_passed v)
validate_payload ResumeEvent.verification_failed (error_field e) =
    with_error e Payload.verification_failed
validate_payload ResumeEvent.rollback_completed (rollback_field evidence kept) = do
  guard (leb 1 (length evidence)) (validation_error "the evidence is empty")
  ok (Payload.rollback_completed evidence kept)
validate_payload ResumeEvent.rollback_uncertain (error_field e) =
    with_error e Payload.rollback_uncertain
validate_payload _ _ = invalid

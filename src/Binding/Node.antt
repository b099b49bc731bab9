-- ===== src/Binding/Node.antt =====
-- `BindingAttemptNode` of datanode/models.py with its validator, and the event payloads of
-- datanode/runtime_fsm/binding.py.
use dual_tmux.Prelude.{String, Bool, true, false, not, ◌&&◌, if◌then◌else◌}
use dual_tmux.Prelude.{◌==◌, string_eq, starts_with, nonempty}
use dual_tmux.Prelude.Result.{Result, ok, err, validation_error, ◌>>◌, guard}
use dual_tmux.Binding.State.{
  BindingState, committing, bound, BindingEvent, requested, live_session_proven,
  live_session_missing, commit_succeeded, commit_failed,
}

pub data AgentRole : Type 0 where
  trigger bullet : AgentRole

abbrev pub is_bullet : AgentRole → Bool
is_bullet bullet = true
is_bullet trigger = false

pub data BindingIntent : Type 0 where
  freeze rebuild : BindingIntent

abbrev pub is_rebuild : BindingIntent → Bool
is_rebuild rebuild = true
is_rebuild freeze = false

pub record BindingAttemptNode : Type 0 where
  pub attempt_id : String
  pub tunnel_name : String
  pub role : AgentRole
  pub intent : BindingIntent
  pub state : BindingState
  pub holder : String
  pub previous_session_id : String
  pub candidate_session_id : String
  pub candidate_directory : String
  pub error : String

abbrev pub node_fields : BindingAttemptNode → Bool
node_fields n = nonempty n.attempt_id && starts_with n.tunnel_name "dt-"

abbrev pub needs_candidate : BindingState → Bool
needs_candidate committing = true
needs_candidate bound = true
needs_candidate _ = false

unfoldable pub legal_candidate : BindingAttemptNode → Result (Unit {0})
legal_candidate n =
    if needs_candidate n.state
    then (do
      guard (nonempty n.candidate_session_id)
          (validation_error "committing/bound attempts require a proven session")
      guard
          (not (
            nonempty n.previous_session_id
            && (n.previous_session_id == n.candidate_session_id)
            && is_rebuild n.intent))
          (validation_error "rebuild must bind a different session than the previous one"))
    else ok tt

unfoldable pub model_validate : BindingAttemptNode → Result BindingAttemptNode
model_validate n = do
  guard (node_fields n) (validation_error "a field is invalid")
  legal_candidate n
  ok n

pub record BindingError : Type 0 where
  pub code : String
  pub message : String

pub record Requested : Type 0 where
  pub holder : String
  pub local_mode : Bool
  pub occupancy_holder : String

pub data EndpointKind : Type 0 where
  no_kind local ssh docker : EndpointKind

abbrev pub is_docker : EndpointKind → Bool
is_docker docker = true
is_docker _ = false

pub record LiveSessionProven : Type 0 where
  pub session_id : String
  pub tool : String
  pub directory : String
  pub other_session_id : String
  pub rebuild : Bool
  pub endpoint_kind : EndpointKind
  pub endpoint_server : String
  pub endpoint_container : String
  pub endpoint_directory : String

-- One constructor for each payload class.
pub data Payload : Type 0 where
  request : Requested → Payload
  proven : LiveSessionProven → Payload
  missing : BindingError → Payload
  succeeded : Payload
  commit_error : BindingError → Payload

-- The fields beside `event`; `other_fields` is a dict that fits no class.
pub data Fields : Type 0 where
  no_fields other_fields : Fields
  requested_fields : Requested → Fields
  proven_fields : LiveSessionProven → Fields
  error_field : BindingError → Fields

abbrev pub defaults : Requested
defaults = record { holder = ""; local_mode = true; occupancy_holder = "" }

-- `PAYLOAD_ADAPTER.validate_python({**raw, "event": event_name})`
unfoldable pub validate_payload : BindingEvent → Fields → Result Payload
validate_payload requested no_fields = ok (request defaults)
validate_payload requested (requested_fields r) = ok (request r)
validate_payload live_session_proven (proven_fields p) = do
  guard (nonempty p.session_id) (validation_error "session_id is empty")
  ok (proven p)
validate_payload live_session_missing (error_field e) = do
  guard (nonempty e.code) (validation_error "code is empty")
  ok (missing e)
validate_payload commit_succeeded no_fields = ok succeeded
validate_payload commit_failed (error_field e) = do
  guard (nonempty e.code) (validation_error "code is empty")
  ok (commit_error e)
validate_payload _ _ = err (validation_error "the fields do not fit the event")

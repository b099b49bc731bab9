-- ===== src/Resume/Node.antt =====
-- The models of datanode/runtime_fsm/resume.py and their validators. A field of a model is
-- checked as its `Field` declares; `datetime` values are readings of the clock.
use dual_tmux.Prelude.{ℕ, String, Bool, true, false, not, ◌&&◌, ◌||◌, Option, none, some}
use dual_tmux.Prelude.{List, ◌==◌, nat_eq, string_eq, starts_with, leb, length, if◌then◌else◌}
use dual_tmux.Prelude.{distinct, is_some, nonempty}
use dual_tmux.Prelude.Result.{Result, ok, err, validation_error, ◌>>◌, guard}
use dual_tmux.Resume.State.{
  ResumeState, restoring, verifying, completed, rejected, rolling_back, failed, attention, state_eq,
}

-- The values of `ResumeError.side`.
pub data ErrorSide : Type 0 where
  no_side trigger bullet : ErrorSide

pub record ResumeError : Type 0 where
  pub code : String
  pub message : String
  pub stage : String
  pub side : ErrorSide

pub record OccupancyToken : Type 0 where
  pub tunnel_name : String
  pub holder_client_id : String
  pub generation : ℕ
  pub newly_acquired : Bool
  pub holder_instance_id : String

pub record VerificationEvidence : Type 0 where
  pub generation : ℕ
  pub occupancy_holder : String
  pub trigger_writer_count : ℕ
  pub bullet_writer_count : ℕ
  pub trigger_observation_id : String
  pub bullet_observation_id : String

pub record ResumeAttemptNode : Type 0 where
  pub attempt_id : String
  pub idempotency_key : String
  pub tunnel_name : String
  pub claimant_client_id : String
  pub claimant_instance_id : String
  pub state : ResumeState
  pub expected_binding_revisions : List String
  pub ownership_token : Option OccupancyToken
  pub transfer_ids : List String
  pub verification : Option VerificationEvidence
  pub error : Option ResumeError
  pub rollback_evidence : List String
  pub created_at : ℕ
  pub updated_at : ℕ

-- The constraints of the fields, model by model.
unfoldable pub error_fields : ResumeError → Bool
error_fields e = nonempty e.code

unfoldable pub token_fields : OccupancyToken → Bool
token_fields t = starts_with t.tunnel_name "dt-" && nonempty t.holder_client_id

unfoldable pub evidence_fields : VerificationEvidence → Bool
evidence_fields v = nonempty v.trigger_observation_id && nonempty v.bullet_observation_id

abbrev pub each {ℓ} : {A : Type ℓ} → (A → Bool) → Option A → Bool
each p none = true
each p (some a) = p a

unfoldable pub node_fields : ResumeAttemptNode → Bool
unfolding error_fields token_fields evidence_fields
node_fields n =
    nonempty n.attempt_id
    && nonempty n.idempotency_key
    && starts_with n.tunnel_name "dt-"
    && nonempty n.claimant_client_id
    && nonempty n.claimant_instance_id
    && each token_fields n.ownership_token
    && leb (length n.transfer_ids) 2
    && each evidence_fields n.verification
    && each error_fields n.error

abbrev pub needs_ownership : ResumeState → Bool
needs_ownership restoring = true
needs_ownership verifying = true
needs_ownership completed = true
needs_ownership rolling_back = true
needs_ownership _ = false

abbrev pub needs_error : ResumeState → Bool
needs_error rejected = true
needs_error failed = true
needs_error attention = true
needs_error _ = false

-- `if self.ownership_token is not None:`
unfoldable pub token_facts : ResumeAttemptNode → Option OccupancyToken → Result (Unit {0})
token_facts n none = ok tt
token_facts n (some t) = do
  guard (t.tunnel_name == n.tunnel_name)
      (validation_error "ownership token belongs to a different tunnel")
  guard (t.holder_client_id == n.claimant_client_id)
      (validation_error "ownership token belongs to a different client")
  guard (not (nonempty t.holder_instance_id) || t.holder_instance_id == n.claimant_instance_id)
      (validation_error "ownership token belongs to a different installation")

-- `if self.state is ResumeState.COMPLETED:`
unfoldable pub completed_facts :
    ResumeAttemptNode → Option VerificationEvidence → Option OccupancyToken → Result (Unit {0})
completed_facts n none token =
    err (validation_error "completed resume requires verification evidence")
completed_facts n (some v) none =
    err (validation_error "completed resume requires an ownership token")
completed_facts n (some v) (some t) = do
  guard (v.generation == t.generation)
      (validation_error "verification generation differs from ownership token")
  guard (not (nonempty v.occupancy_holder) || v.occupancy_holder == n.claimant_client_id)
      (validation_error "verification occupancy holder differs from claimant")
  guard (leb v.trigger_writer_count 1 && leb v.bullet_writer_count 1)
      (validation_error "completed resume cannot have multiple writers per role")

unfoldable pub legal_state_facts : ResumeAttemptNode → Result (Unit {0})
legal_state_facts n = do
  guard (not (needs_ownership n.state) || is_some n.ownership_token)
      (validation_error "state requires an ownership token")
  token_facts n n.ownership_token
  if n.state == completed then completed_facts n n.verification n.ownership_token else ok tt
  guard (not (needs_error n.state) || is_some n.error) (validation_error "state requires an error")
  guard (length (distinct n.transfer_ids) == length n.transfer_ids)
      (validation_error "transfer IDs must be unique")

unfoldable pub model_validate : ResumeAttemptNode → Result ResumeAttemptNode
model_validate n = do
  guard (node_fields n) (validation_error "a field is invalid")
  legal_state_facts n
  ok n

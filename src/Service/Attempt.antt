-- ===== src/Service/Attempt.antt =====
-- `ResumeAttempt` of src/dual_tmux/resume_attempt.py: the worker that reports to a `ResumeMachine`.
use dual_tmux.Prelude.{ℕ, String, Bool, true, ◌<>◌, Option, none, some, [], ◌∷◌}
use dual_tmux.Prelude.{if◌then◌else◌, ◌==◌, string_eq, nonempty}
use dual_tmux.Prelude.Effect.{Act}
use dual_tmux.Prelude.Result.{Exn, Result, ok, err}
use dual_tmux.Fsm.Store.{StateStore}
use dual_tmux.Occupancy.Client.{AppConfig}
use dual_tmux.Occupancy.Resume.{Token, Verified}
use dual_tmux.Ownership.Takeover.{ResumePlan}
use dual_tmux.Resume.State.{
  ResumeState, created, ResumeEvent, preflight_passed, preflight_rejected, ownership_acquired,
  ownership_failed, restore_completed, restore_failed, verification_passed, verification_failed,
  rollback_completed, rollback_uncertain,
}
use dual_tmux.Resume.Node.{ResumeAttemptNode, no_side}
use dual_tmux.Resume.Event.{
  Fields, revisions_field, error_field, token_field, transfer_ids_field, evidence_field,
  rollback_field,
}
use dual_tmux.Resume.Machine.{Snapshot, ResumeMachine, send}
use dual_tmux.Service.Errors.{is_machine_error, is_os_error}

-- One side of a tunnel: its session, and the text of what else the record holds.
pub record Binding : Type 0 where
  pub session_id : String
  pub tool : String
  pub text : String

-- The fields of a tunnel's record that a resume reads.
pub record Tunnel : Type 0 where
  pub name : String
  pub run : String
  pub server : String
  pub cmd : String
  pub trigger : Binding
  pub bullet : Binding
  pub ownership_generation : ℕ

-- What `_digest` is taken of: a side, or the observation of a generation without writers.
pub data Digested : Type 0 where
  side : Binding → Digested
  observation : ℕ → Digested

-- The entries that go to the event log.
pub data Emission : Type 0 where
  violation : String → String → ResumeEvent → Exn → Emission
  transition : String → String → ResumeEvent → ResumeState → Emission
  resumed : String → ℕ → Emission

pub record ResumeAttempt (K : Type 0) : Type 0 where
  pub machine : ResumeMachine K
  pub name : String
  pub attempt_id : String
  pub claimant_client_id : String
  pub claimant_instance_id : String

-- A running resume: the attempt, the event log `J` and the outside world `W`.
pub record Running (K J W : Type 0) : Type 0 where
  pub attempt : ResumeAttempt K
  pub journal : J
  pub world : W

abbrev pub quiet {ℓ} :
    {K J W : Type 0} {A : Type ℓ}
    → Running K J W
    → J × Option Exn
    → Result A
    → Running K J W × Result A
quiet c (journal, none) r = (record c { journal = journal }, r)
quiet c (journal, some e) r = (record c { journal = journal }, if is_os_error e then r else err e)

-- `str(value or code)` of a text
abbrev text_or : String → String → String
text_or message code = if nonempty message then message else code

-- `_error`, of an exception, whose truth value is true.
abbrev pub error_of : String → String → String → Fields
error_of code message stage =
    error_field (record { code = code; message = message; stage = stage; side = no_side })

-- The log is appended to by `emit`; `clock` is the time that the world shows.
module _ (st : StateStore Snapshot) {J W : Type 0} (emit : Emission → J → J × Option Exn)
    (clock : W → ℕ) (describe : Exn → String) (digest : Digested → String) where
  abbrev pub report :
      ResumeEvent
      → Running st.State J W
      → ResumeMachine st.State × Result ResumeState
      → Running st.State J W × Result ResumeState
  report event c (m, ok s) =
      let d = record c { attempt = record c.attempt { machine = m } } in
      quiet d (emit (transition c.attempt.name c.attempt.attempt_id event s) c.journal) (ok s)
  report event c (m, err e) =
      let d = record c { attempt = record c.attempt { machine = m } } in
      if is_machine_error e
      then quiet d (emit (violation c.attempt.name c.attempt.attempt_id event e) c.journal) (err e)
      else (d, err e)

  -- `_send`
  unfoldable pub send_event : ResumeEvent → Fields → Act (Running st.State J W) ResumeState
  send_event event fields c =
      report event c (send st c.attempt.machine event fields (clock c.world))

  abbrev unsafe_message : Running st.State J W → Tunnel → String → String
  unsafe_message c t reason =
      if reason == "not_a_frozen_dst"
      then ((if nonempty t.name then t.name else c.attempt.name)
          <> (" 尚未固化为 DST 会话对（缺少 trigger 或 bullet 的 freeze 会话）。"
              <> "新隧道请先运行 dt enter / dt work 进行工作，随后运行 dt freeze 固化。"))
      else reason

  unfoldable pub preflight : Tunnel → ResumePlan → Act (Running st.State J W) ResumeState
  unfolding send_event
  preflight t plan c =
      if plan.safe
      then send_event preflight_passed
          (revisions_field
            (("trigger:" <> digest (side t.trigger)) ∷ ("bullet:" <> digest (side t.bullet)) ∷ [])
            true)
          c
      else send_event preflight_rejected
          (error_of "preflight_rejected"
            (text_or (unsafe_message c t (if nonempty plan.reason then plan.reason else "unsafe"))
              "preflight_rejected")
            "preflight")
          c

  unfoldable pub preflight_failed : Exn → Act (Running st.State J W) ResumeState
  unfolding send_event
  preflight_failed e =
      send_event preflight_rejected (error_of "preflight_failed" (describe e) "preflight")

  unfoldable pub acquired : Token → Act (Running st.State J W) ResumeState
  unfolding send_event
  acquired token c =
      send_event ownership_acquired
        (token_field (record {
          tunnel_name = c.attempt.name;
          holder_client_id = c.attempt.claimant_client_id;
          generation = token.generation;
          newly_acquired = token.newly_acquired;
          holder_instance_id = c.attempt.claimant_instance_id;
        }))
        c

  unfoldable pub not_acquired : Exn → Act (Running st.State J W) ResumeState
  unfolding send_event
  not_acquired e =
      send_event ownership_failed (error_of "ownership_failed" (describe e) "ownership")

  unfoldable pub restored : Act (Running st.State J W) ResumeState
  unfolding send_event
  restored = send_event restore_completed (transfer_ids_field [])

  unfoldable pub not_restored : Exn → Act (Running st.State J W) ResumeState
  unfolding send_event
  not_restored e = send_event restore_failed (error_of "restore_failed" (describe e) "restore")

  -- The token names no writers, so the counts are 0.
  unfoldable pub verified : Verified → Act (Running st.State J W) ResumeState
  unfolding send_event
  verified v c =
      send_event verification_passed
        (evidence_field (record {
          generation = v.generation;
          occupancy_holder = if nonempty v.holder then v.holder else c.attempt.claimant_client_id;
          trigger_writer_count = 0;
          bullet_writer_count = 0;
          trigger_observation_id = digest (observation v.generation);
          bullet_observation_id = digest (observation v.generation);
        }))
        c

  unfoldable pub not_verified : Exn → Act (Running st.State J W) ResumeState
  unfolding send_event
  not_verified e =
      send_event verification_failed (error_of "verification_failed" (describe e) "verification")

  unfoldable pub rolled_back : Bool → Act (Running st.State J W) ResumeState
  unfolding send_event
  rolled_back kept =
      send_event rollback_completed
        (rollback_field ((if kept then "occupancy_kept" else "aborted") ∷ []) kept)

  unfoldable pub uncertain : Exn → Act (Running st.State J W) ResumeState
  unfolding send_event
  uncertain e =
      send_event rollback_uncertain (error_of "rollback_uncertain" (describe e) "rollback")

  unfoldable pub keep_occupancy_after_failure : Act (Running st.State J W) ResumeState
  unfolding rolled_back
  keep_occupancy_after_failure = rolled_back true

-- The node of a new attempt.
abbrev pub new_node : AppConfig → String → String → String → ℕ → ResumeAttemptNode
new_node cfg installation name id now = record {
  attempt_id = id;
  idempotency_key = id;
  tunnel_name = name;
  claimant_client_id = cfg.client;
  claimant_instance_id = if nonempty installation then installation else "local:" <> cfg.client;
  state = created;
  expected_binding_revisions = [];
  ownership_token = none;
  transfer_ids = [];
  verification = none;
  error = none;
  rollback_evidence = [];
  created_at = now;
  updated_at = now;
}

abbrev pub attempt_of : {K : Type 0} → ResumeAttemptNode → ResumeMachine K → ResumeAttempt K
attempt_of n m = record {
  machine = m;
  name = n.tunnel_name;
  attempt_id = n.attempt_id;
  claimant_client_id = n.claimant_client_id;
  claimant_instance_id = n.claimant_instance_id;
}

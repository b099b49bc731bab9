-- ===== src/Ownership/Takeover.antt =====
-- `persistence_supported`, `_takeover`, the decision of `snapshot`, and `plan_from_facts` of
-- src/dual_tmux/ownership.py. The probes of panes, processes and snapshots are given as facts.
use dual_tmux.Prelude.{ℕ, String, ◌+◌, Bool, true, false, not, ◌&&◌, ◌||◌, List, [], ◌∷◌, ◌++◌}
use dual_tmux.Prelude.{if◌then◌else◌, ltb, nat_beq, ◌<>◌, string_eq, nonempty, contains}
use dual_tmux.Occupancy.Resume.{LeaseState, foreign, free, expired}

abbrev pub evidence_ttl : ℕ
evidence_ttl = 180

pub data WriterStatus : Type 0 where
  unknown single duplicate : WriterStatus

-- The facts of one side. `conflicts` is a native snapshot whose status is `conflict`.
pub record Side : Type 0 where
  pub session_id : String
  pub tool : String
  pub writer : WriterStatus
  pub conflicts : Bool

-- `sampled_at` is 0 without evidence.
pub record Facts : Type 0 where
  pub trigger : Side
  pub bullet : Side
  pub server : String
  pub lease : LeaseState
  pub sampled_at : ℕ
  pub now : ℕ

pub data Action : Type 0 where
  stop claim resume : Action

pub record Takeover : Type 0 where
  pub safe : Bool
  pub action : Action
  pub reason : String

-- `tool in AGENTS`, with the default for a missing tool.
unfoldable pub is_known : String → Bool
is_known tool =
    let named = if nonempty tool then tool else "opencode" in
    contains ("opencode" ∷ "codex" ∷ "claude" ∷ "abc" ∷ []) named

-- `persistence_supported(data, "trigger")` and `persistence_supported(data, "bullet")`
unfoldable pub trigger_supported : Facts → Bool
trigger_supported f = is_known f.trigger.tool

unfoldable pub bullet_supported : Facts → Bool
bullet_supported f = is_known f.bullet.tool || nonempty f.server

abbrev pub stopped : String → Takeover
stopped reason = record { safe = false; action = stop; reason = reason }

abbrev pub claimed : String → Takeover
claimed reason = record { safe = true; action = claim; reason = reason }

-- What `_takeover` says of a lease when both writers are known.
abbrev pub by_lease : LeaseState → Takeover
by_lease foreign = claimed "occupancy_steal"
by_lease free = claimed "free"
by_lease expired = claimed "expired"
by_lease _ = record { safe = true; action = resume; reason = "already_owned" }

abbrev by_writer : String → WriterStatus → Takeover → Takeover
by_writer role unknown later = stopped (role <> "_writer_probe_failed")
by_writer role duplicate later = stopped (role <> "_duplicate_writer")
by_writer role single later = later

unfoldable pub takeover : Facts → Takeover
takeover f =
    by_writer "trigger" f.trigger.writer (by_writer "bullet" f.bullet.writer (by_lease f.lease))

abbrev pub is_foreign : LeaseState → Bool
is_foreign foreign = true
is_foreign _ = false

-- `not sampled_at or int(time.time()) - sampled_at > EVIDENCE_TTL`
abbrev pub is_stale : Facts → Bool
is_stale f = nat_beq f.sampled_at 0 || ltb (f.sampled_at + evidence_ttl) f.now

abbrev after_conflicts : Facts → Takeover → Takeover
after_conflicts f t =
    if f.trigger.conflicts
    then stopped "trigger_native_snapshot_conflict"
    else if f.bullet.conflicts
    then stopped "bullet_native_snapshot_conflict"
    else t

abbrev after_staleness : Facts → Takeover → Takeover
after_staleness f t = if is_foreign f.lease && is_stale f then claimed "occupancy_steal" else t

abbrev after_support : Facts → Takeover → Takeover
after_support f t =
    if is_foreign f.lease && t.safe
    then (if not (trigger_supported f)
        then stopped "trigger_snapshot_persistence_unsupported"
        else if not (bullet_supported f)
        then stopped "bullet_snapshot_persistence_unsupported"
        else t)
    else t

-- The takeover that `snapshot` returns.
unfoldable pub snapshot : Facts → Takeover
unfolding takeover
snapshot f = after_support f (after_staleness f (after_conflicts f (takeover f)))

pub data Step : Type 0 where
  claim_step prepare restore verify : Step

pub record ResumePlan : Type 0 where
  pub safe : Bool
  pub action : Action
  pub reason : String
  pub steps : List Step

abbrev claim_steps : Action → List Step
claim_steps claim = claim_step ∷ []
claim_steps _ = []

abbrev frozen : Facts → Takeover → Takeover
frozen f t =
    if nonempty f.trigger.session_id && nonempty f.bullet.session_id
    then t
    else stopped "not_a_frozen_dst"

abbrev plan_of : Takeover → ResumePlan
plan_of t = record {
  safe = t.safe;
  action = t.action;
  reason = if nonempty t.reason then t.reason else "facts_unavailable";
  steps = claim_steps t.action ++ (if t.safe then prepare ∷ restore ∷ verify ∷ [] else []);
}

unfoldable pub plan_from_facts : Facts → Takeover → ResumePlan
plan_from_facts f t = plan_of (frozen f t)

-- `plan_resume`
unfoldable pub plan_resume : Facts → ResumePlan
unfolding snapshot plan_from_facts
plan_resume f = plan_from_facts f (snapshot f)

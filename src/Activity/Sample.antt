-- ===== src/Activity/Sample.antt =====
-- One round of the loop of `activity_evidence`, with `_emit_side_transition`. What tmux answers is
-- given, and the phase and the fingerprint of the pane's text with it.
use dual_tmux.Prelude.{
  ℕ, String, ◌+◌, ◌-◌, Bool, true, false, not, ◌&&◌, ◌||◌, Option, none, some, List, [], ◌∷◌,
}
use dual_tmux.Prelude.{if◌then◌else◌, nat_beq, leb, ◌==◌, string_eq, nonempty, contains}

abbrev pub stall_seconds : ℕ
stall_seconds = 600

-- `absent` is a state that the evidence does not have.
pub data State : Type 0 where
  absent unknown idle working stalled : State

pub data Phase : Type 0 where
  no_phase idle_phase working_phase : Phase

pub data Role : Type 0 where
  trigger bullet : Role

pub data Runtime : Type 0 where
  down shell transport agent : Runtime

pub data Event : Type 0 where
  started ended stalled_event : Role → String → Event

-- `sides[role]`; a missing number is 0, and so is a text empty.
pub record Evidence : Type 0 where
  pub state : State
  pub semantic_fingerprint : String
  pub last_semantic_change_at : ℕ
  pub sampled_at : ℕ
  pub first_sample_at : ℕ
  pub sample_count : ℕ
  pub window_seconds : ℕ
  pub probe_ok : Bool
  pub runtime : Runtime
  pub attached_clients : Option ℕ

abbrev pub no_evidence : Evidence
no_evidence = record {
  state = absent;
  semantic_fingerprint = "";
  last_semantic_change_at = 0;
  sampled_at = 0;
  first_sample_at = 0;
  sample_count = 0;
  window_seconds = 0;
  probe_ok = false;
  runtime = down;
  attached_clients = none;
}

-- The answers about one pane; `command` is empty without a pane.
pub record Probe : Type 0 where
  pub pane : String
  pub has_session : Bool
  pub phase : Phase
  pub fingerprint : String
  pub command : String
  pub attached_clients : Option ℕ

abbrev pub is_shell : String → Bool
is_shell command = contains ("zsh" ∷ "bash" ∷ "sh" ∷ "fish" ∷ []) command

abbrev is_transport : String → Bool
is_transport command = contains ("ssh" ∷ "docker" ∷ []) command

abbrev pub or_epoch : ℕ → ℕ → ℕ
or_epoch n epoch = if nat_beq n 0 then epoch else n

abbrev pub has_changed : Probe → Evidence → Bool
has_changed p prior = nonempty p.fingerprint && not (p.fingerprint == prior.semantic_fingerprint)

unfoldable pub last_change : Probe → Evidence → ℕ → ℕ
last_change p prior epoch =
    if has_changed p prior then epoch else or_epoch prior.last_semantic_change_at epoch

abbrev or_unknown : State → State
or_unknown absent = unknown
or_unknown s = s

-- The state of an agent that shows no phase.
abbrev by_change : Probe → Evidence → Bool → State
by_change p prior quiet =
    if has_changed p prior
    then working
    else if quiet && not (is_shell p.command)
    then stalled
    else if is_shell p.command
    then idle
    else or_unknown prior.state

-- `quiet`: no change for `stall_seconds`.
abbrev by_phase : Probe → Evidence → Bool → Phase → State
by_phase p prior quiet idle_phase = idle
by_phase p prior quiet working_phase = if quiet then stalled else working
by_phase p prior quiet no_phase = by_change p prior quiet

unfoldable pub state_of : Probe → Evidence → ℕ → State
unfolding last_change
state_of p prior epoch =
    if not (nonempty p.pane) || not (nonempty p.command)
    then (if nonempty p.pane && p.has_session then idle else unknown)
    else by_phase p prior (leb (last_change p prior epoch + stall_seconds) epoch) p.phase

abbrev runtime_of : Probe → Runtime
runtime_of p =
    if not (nonempty p.pane) || not p.has_session
    then down
    else if is_shell p.command
    then shell
    else if is_transport p.command
    then transport
    else agent

-- `_emit_side_transition`
unfoldable pub emit_side_transition : Role → State → State → String → List Event
emit_side_transition role absent state name = []
emit_side_transition role working idle name = ended role name ∷ []
emit_side_transition role working unknown name = ended role name ∷ []
emit_side_transition role working stalled name = stalled_event role name ∷ []
emit_side_transition role idle working name = started role name ∷ []
emit_side_transition role unknown working name = started role name ∷ []
emit_side_transition role stalled working name = started role name ∷ []
emit_side_transition role idle stalled name = stalled_event role name ∷ []
emit_side_transition role unknown stalled name = stalled_event role name ∷ []
emit_side_transition role _ _ name = []

-- `none` is a probe that raised.
unfoldable pub sample : Role → String → Evidence → ℕ → Option Probe → Evidence × List Event
unfolding state_of emit_side_transition
sample role name prior epoch none =
    (record prior { state = unknown; sampled_at = epoch; probe_ok = false }, [])
sample role name prior epoch (some p) =
    let state = state_of p prior epoch in
    let first = or_epoch prior.first_sample_at epoch in
    (
      record {
        state = state;
        semantic_fingerprint = p.fingerprint;
        last_semantic_change_at = last_change p prior epoch;
        sampled_at = epoch;
        first_sample_at = first;
        sample_count = prior.sample_count + 1;
        window_seconds = epoch - first;
        probe_ok = true;
        runtime = runtime_of p;
        attached_clients = p.attached_clients;
      },
      emit_side_transition role prior.state state name,
    )

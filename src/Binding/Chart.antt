-- ===== src/Binding/Chart.antt =====
-- The guard, the actions and the graph of datanode/runtime_fsm/binding.py.
use dual_tmux.Prelude.{String, Bool, true, false, not, ◌&&◌, ◌||◌, Option, none, some}
use dual_tmux.Prelude.{[], ◌∷◌, ◌==◌, string_eq, nonempty, if◌then◌else◌}
use dual_tmux.Prelude.Result.{Exn, Result, ok, err, key_error, ◌>>=◌}
use dual_tmux.Fsm.Graph.{Guard, Action, TransitionDef, Transitions, Graph, make_graph}
use dual_tmux.Binding.State.{BindingState, BindingEvent, event_eq}
use dual_tmux.Binding.Node.{
  BindingAttemptNode, BindingIntent, LiveSessionProven, Payload, request, proven, missing,
  succeeded, commit_error, is_bullet, is_docker, model_validate,
}

-- `self.core.context`; what is absent from the dict is `none`.
pub record Context : Type 0 where
  pub node : BindingAttemptNode
  pub payload : Option Payload
  pub local_mode : Option Bool
  pub occupancy_holder : Option String
  pub holder : Option String

abbrev pub read_payload : Context → Result Payload
read_payload c = elim c.payload [ none ↦ err (key_error "payload") | some p ↦ ok p ]

-- `bool(context.get("local_mode", True))`
abbrev pub local : Option Bool → Bool
local none = true
local (some b) = b

-- `str(context.get(key) or "")`
abbrev pub text : Option String → String
text none = ""
text (some s) = s

-- `x or y`, on texts.
abbrev pub either : String → String → String
either x y = if nonempty x then x else y

unfoldable pub provable : Context → LiveSessionProven → Bool
provable c p =
    let occupancy_holder = text c.occupancy_holder in
    let holder = either c.node.holder (text c.holder) in
    if not (local c.local_mode) && (nonempty occupancy_holder && not (occupancy_holder == holder))
    then false
    else if nonempty p.other_session_id && p.session_id == p.other_session_id
    then false
    else if p.rebuild && c.node.previous_session_id == p.session_id
    then false
    else if is_bullet c.node.role && is_docker p.endpoint_kind
    then nonempty p.endpoint_server
      && nonempty p.endpoint_container
      && (nonempty p.endpoint_directory || nonempty p.directory)
    else true

abbrev pub provable_payload : Context → Payload → Bool
provable_payload c (proven p) = provable c p
provable_payload c _ = false

unfoldable pub can_prove : Guard Context
unfolding provable
can_prove c = do payload ← read_payload c; ok (provable_payload c payload)

-- What `update` writes to the context beside the node.
unfoldable pub note_request : Context → Payload → Context
note_request c (request r) = record c {
  local_mode = some r.local_mode;
  occupancy_holder = some r.occupancy_holder;
  holder = some r.holder;
}
note_request c _ = c

unfoldable pub apply_changes : BindingAttemptNode → Payload → BindingAttemptNode
apply_changes n (request r) = record n { holder = either r.holder n.holder }
apply_changes n (proven p) = record n {
  candidate_session_id = p.session_id;
  candidate_directory = p.directory;
  intent = if p.rebuild then BindingIntent.rebuild else BindingIntent.freeze;
  error = "";
}
apply_changes n (missing e) = record n { error = either e.message e.code }
apply_changes n succeeded = record n { error = "" }
apply_changes n (commit_error e) = record n { error = either e.message e.code }

abbrev settle : Context → Result BindingAttemptNode → Context × Option Exn
settle c (ok node) = (record c { node = node }, none)
settle c (err e) = (c, some e)

-- The closure `update` that `_enter(target)` returns.
unfoldable pub enter : BindingState → Action Context
unfolding note_request
enter target now c = elim (read_payload c) [
  | err e ↦ (c, some e)
  | ok payload ↦
      settle (note_request c payload)
        (model_validate (record (apply_changes c.node payload) { state = target }))
]

abbrev pub edge :
    BindingState
    → BindingState
    → BindingEvent
    → Option (Guard Context)
    → (BindingState × BindingState) × TransitionDef BindingEvent Context
edge from to event guard = (
  (from, to),
  record { event = event; guard = guard; on_exit = none; on_enter = some (enter to) },
)

unfoldable pub binding_transitions : Transitions BindingState BindingEvent Context
binding_transitions =
    edge BindingState.created BindingState.proving BindingEvent.requested none
    ∷ edge BindingState.proving BindingState.committing BindingEvent.live_session_proven
        (some can_prove)
    ∷ edge BindingState.proving BindingState.rejected BindingEvent.live_session_missing none
    ∷ edge BindingState.committing BindingState.bound BindingEvent.commit_succeeded none
    ∷ edge BindingState.committing BindingState.failed BindingEvent.commit_failed none
    ∷ []

unfoldable pub binding_graph : Graph BindingState BindingEvent Context
unfolding make_graph binding_transitions
binding_graph = make_graph binding_transitions BindingState.created

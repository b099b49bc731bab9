-- ===== src/Binding/Machine.antt =====
-- `BindingMachine` of datanode/runtime_fsm/binding.py over any snapshot store.
use dual_tmux.Prelude.{ℕ, String, Bool, false, ◌&&◌, Option, none, some, List, [], ◌∷◌}
use dual_tmux.Prelude.{map}
use dual_tmux.Prelude.{◌==◌, ◌<>◌, nat_eq, string_eq, if◌then◌else◌}
use dual_tmux.Prelude.Result.{
  Exn, Result, ok, err, value_error, type_error, key_error, validation_error, ◌>>=◌, ◌>>◌, guard,
}
use dual_tmux.Fsm.Graph.{TransitionDef, find_transition}
use dual_tmux.Fsm.Machine
use dual_tmux.Fsm.Machine.{Machine, Entry}
use dual_tmux.Fsm.Store.{StateStore}
use dual_tmux.Binding.State.{BindingState, BindingEvent, state_eq, event_eq, created}
use dual_tmux.Binding.Node.{BindingAttemptNode, Payload, Fields, model_validate, validate_payload}
use dual_tmux.Binding.Chart.{Context, local, text, binding_graph}

abbrev pub schema_version : ℕ
schema_version = 1

-- An entry of a stored log. A word that names no member of the enum is `none`.
pub data LogItem : Type 0 where
  not_object : LogItem
  object : Option BindingState → Option BindingState → Option BindingEvent → ℕ → LogItem

-- The value under `transitions`: missing or falsy, a list, or something else.
pub data StoredLog : Type 0 where
  no_log not_list : StoredLog
  items : List LogItem → StoredLog

-- A stored snapshot. `none` is a value that is missing or of another form.
pub record Snapshot : Type 0 where
  pub schema_version : Option ℕ
  pub graph : String
  pub state : Option BindingState
  pub node : Option BindingAttemptNode
  pub transitions : StoredLog
  pub local_mode : Option Bool
  pub occupancy_holder : Option String

abbrev pub Core : Type 0
Core = Machine BindingState BindingEvent Context

abbrev pub Log : Type 0
Log = List (Entry BindingState BindingEvent)

abbrev pub item : Entry BindingState BindingEvent → LogItem
item e = object (some e.from) (some e.to) (some e.event) e.ts

pub record BindingMachine (K : Type 0) : Type 0 where
  pub core : Core
  pub store : K

abbrev pub key : String → String
key attempt_id = "binding:" <> attempt_id

-- The context `{"node": node}`.
abbrev pub start : BindingAttemptNode → Context
start node = record {
  node = node;
  payload = none;
  local_mode = none;
  occupancy_holder = none;
  holder = none;
}

-- `cls(node, store)`
unfoldable pub init : {K : Type 0} → BindingAttemptNode → K → BindingMachine K
init node store = record {
  core = record (Machine.new binding_graph (start node)) { state = node.state };
  store = store;
}

unfoldable pub snapshot_of : Core → Snapshot
snapshot_of core = record {
  schema_version = some schema_version;
  graph = "binding";
  state = some core.state;
  node = some core.context.node;
  transitions = items (map item core.log);
  local_mode = some (local core.context.local_mode);
  occupancy_holder = some (text core.context.occupancy_holder);
}

abbrev pub matches : Option BindingState → BindingState → Bool
matches none state = false
matches (some s) state = s == state

-- The target of the indexed transition, if the entry agrees with it.
abbrev pub agreed :
    Option BindingState
    → Option BindingState
    → BindingState
    → Option (BindingState × BindingState × TransitionDef BindingEvent Context)
    → Result BindingState
agreed from to current none = err (value_error "binding transition log is not a valid graph path")
agreed from to current (some (_, target, _)) =
    if matches from current && matches to target
    then ok target
    else err (value_error "binding transition log is not a valid graph path")

-- One round of the loop of `_validate_transition_log`.
unfoldable pub check_item : BindingState → LogItem → Result BindingState
check_item current not_object = err (type_error "binding transition entries must be objects")
check_item current (object from to none ts) = agreed from to current none
check_item current (object from to (some event) ts) =
    agreed from to current (find_transition binding_graph current event)

unfoldable pub walk_log : BindingState → List LogItem → Result BindingState
unfolding check_item
walk_log current [] = ok current
walk_log current (entry ∷ rest) = do target ← check_item current entry; walk_log target rest

unfoldable pub validate_transition_log : List LogItem → BindingState → Result (Unit {0})
unfolding walk_log
validate_transition_log transitions expected = do
  current ← walk_log created transitions
  guard (current == expected) (value_error "binding transition log and node state disagree")

-- `snapshot.get("transitions") or []`
abbrev pub read_items : StoredLog → Result (List LogItem)
read_items no_log = ok []
read_items (items l) = ok l
read_items not_list = err (type_error "binding transition log must be a list")

-- `list(transitions)`, of entries that the walk has accepted.
unfoldable pub entries : List LogItem → Log
entries [] = []
entries (object (some from) (some to) (some event) ts ∷ rest) =
    record { from = from; to = to; event = event; ts = ts } ∷ entries rest
entries (_ ∷ rest) = entries rest

abbrev read_node : Option BindingAttemptNode → Result BindingAttemptNode
read_node none = err (validation_error "the node is not an object")
read_node (some node) = model_validate node

abbrev has_version : Option ℕ → Bool
has_version none = false
has_version (some n) = n == schema_version

module _ (st : StateStore Snapshot) where
  -- `_persist`
  unfoldable pub persist : Core → st.State → st.State × Option Exn
  unfolding snapshot_of
  persist core store = st.save (key core.context.node.attempt_id) (snapshot_of core) store

  -- `except Exception:`, since no store of the program raises `SystemExit`, puts back the state, the node, the log and the four keys.
  unfoldable pub put_back : Core → Core → Core
  put_back before core = record core {
    state = before.state;
    context = record {
      node = before.context.node;
      payload = before.context.payload;
      local_mode = before.context.local_mode;
      occupancy_holder = before.context.occupancy_holder;
      holder = before.context.holder;
    };
    log = before.log;
  }

  unfoldable pub finish :
      Core
      → Core
      → BindingState
      → st.State × Option Exn
      → BindingMachine st.State × Result BindingState
  unfolding put_back
  finish before core state (store, none) = (record { core = core; store = store }, ok state)
  finish before core state (store, some e) =
      (record { core = put_back before core; store = store }, err e)

  unfoldable pub attempt :
      BindingMachine st.State
      → Core × Result BindingState
      → BindingMachine st.State × Result BindingState
  unfolding persist finish put_back
  attempt m (core, err e) = (record m { core = put_back m.core core }, err e)
  attempt m (core, ok state) = finish m.core core state (persist core m.store)

  abbrev pub with_payload : Core → Payload → Core
  with_payload core payload = record core {
    context = record core.context { payload = some payload };
  }

  unfoldable pub deliver :
      BindingMachine st.State
      → BindingEvent
      → ℕ
      → Result Payload
      → BindingMachine st.State × Result BindingState
  unfolding attempt Machine.send
  deliver m event now (err e) = (m, err e)
  deliver m event now (ok payload) =
      attempt m (Machine.send (with_payload m.core payload) event (λ c. c) now)

  unfoldable pub send :
      BindingMachine st.State
      → BindingEvent
      → Fields
      → ℕ
      → BindingMachine st.State × Result BindingState
  unfolding deliver validate_payload
  send m event fields now = deliver m event now (validate_payload event fields)

  unfoldable pub create : BindingAttemptNode → st.State → BindingMachine st.State × Option Exn
  unfolding init persist
  create node store =
      let m = init node store in
      let (saved, raised) = persist m.core store in (record m { store = saved }, raised)

  restore_from : st.State → Snapshot → Result (BindingMachine st.State)
  unfolding init validate_transition_log entries
  restore_from store snapshot = do
    guard (has_version snapshot.schema_version) (value_error "unsupported binding snapshot schema")
    guard (snapshot.graph == "binding") (value_error "binding snapshot graph is invalid")
    node ← read_node snapshot.node
    guard (matches snapshot.state node.state)
        (value_error "binding snapshot state and node state disagree")
    transitions ← read_items snapshot.transitions
    validate_transition_log transitions node.state
    let m = init node store
    let context = record (start node) {
      local_mode = some (local snapshot.local_mode);
      occupancy_holder = some (text snapshot.occupancy_holder);
    }
    ok (record m { core = record m.core { context = context; log = entries transitions } })

  unfoldable pub restore : String → st.State → Result (BindingMachine st.State)
  unfolding restore_from
  restore attempt_id store = elim (st.load (key attempt_id) store) [
    | none ↦ err (key_error (key attempt_id))
    | some snapshot ↦ restore_from store snapshot
  ]

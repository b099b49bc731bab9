-- ===== src/Resume/Machine.antt =====
-- `ResumeMachine` of datanode/runtime_fsm/resume.py over any snapshot store.
use dual_tmux.Prelude.{ℕ, String, Bool, false, ◌&&◌, Option, none, some, List, [], ◌∷◌}
use dual_tmux.Prelude.{map}
use dual_tmux.Prelude.{◌==◌, ◌<>◌, nat_eq, string_eq, if◌then◌else◌}
use dual_tmux.Prelude.Result.{
  Exn, Result, ok, err, value_error, type_error, key_error, validation_error, ◌>>=◌, ◌>>◌, guard,
}
use dual_tmux.Fsm.Graph.{TransitionDef, find_transition}
use dual_tmux.Fsm.Machine
use dual_tmux.Fsm.Machine.{Machine, Entry}
use dual_tmux.Fsm.Store.{StateStore}
use dual_tmux.Resume.State.{ResumeState, ResumeEvent, state_eq, event_eq, created}
use dual_tmux.Resume.Node.{ResumeAttemptNode, model_validate}
use dual_tmux.Resume.Event.{Payload, Fields, validate_payload}
use dual_tmux.Resume.Chart.{Context, resume_graph}

abbrev pub schema_version : ℕ
schema_version = 1

-- An entry of a stored log. A word that names no member of the enum is `none`.
pub data LogItem : Type 0 where
  not_object : LogItem
  object : Option ResumeState → Option ResumeState → Option ResumeEvent → ℕ → LogItem

-- The value under `transitions`: missing or falsy, a list, or something else.
pub data StoredLog : Type 0 where
  no_log not_list : StoredLog
  items : List LogItem → StoredLog

-- A stored snapshot. `none` is a value that is missing or of another form.
pub record Snapshot : Type 0 where
  pub schema_version : Option ℕ
  pub graph : String
  pub state : Option ResumeState
  pub node : Option ResumeAttemptNode
  pub transitions : StoredLog

abbrev pub Core : Type 0
Core = Machine ResumeState ResumeEvent Context

abbrev pub Log : Type 0
Log = List (Entry ResumeState ResumeEvent)

abbrev pub item : Entry ResumeState ResumeEvent → LogItem
item e = object (some e.from) (some e.to) (some e.event) e.ts

pub record ResumeMachine (K : Type 0) : Type 0 where
  pub core : Core
  pub store : K

abbrev pub key : String → String
key attempt_id = "resume:" <> attempt_id

-- `cls(node, store)`
unfoldable pub init : {K : Type 0} → ResumeAttemptNode → K → ResumeMachine K
init node store = record {
  core = record (Machine.new resume_graph (record { node = node; payload = none })) {
    state = node.state;
  };
  store = store;
}

unfoldable pub snapshot_of : Core → Snapshot
snapshot_of core = record {
  schema_version = some schema_version;
  graph = "resume";
  state = some core.state;
  node = some core.context.node;
  transitions = items (map item core.log);
}

abbrev pub matches : Option ResumeState → ResumeState → Bool
matches none state = false
matches (some s) state = s == state

-- The target of the indexed transition, if the entry agrees with it.
abbrev pub agreed :
    Option ResumeState
    → Option ResumeState
    → ResumeState
    → Option (ResumeState × ResumeState × TransitionDef ResumeEvent Context)
    → Result ResumeState
agreed from to current none = err (value_error "resume transition log is not a valid graph path")
agreed from to current (some (_, target, _)) =
    if matches from current && matches to target
    then ok target
    else err (value_error "resume transition log is not a valid graph path")

-- One round of the loop of `_validate_transition_log`.
unfoldable pub check_item : ResumeState → LogItem → Result ResumeState
check_item current not_object = err (type_error "resume transition entries must be objects")
check_item current (object from to none ts) = agreed from to current none
check_item current (object from to (some event) ts) =
    agreed from to current (find_transition resume_graph current event)

unfoldable pub walk_log : ResumeState → List LogItem → Result ResumeState
unfolding check_item
walk_log current [] = ok current
walk_log current (entry ∷ rest) = do target ← check_item current entry; walk_log target rest

unfoldable pub validate_transition_log : List LogItem → ResumeState → Result (Unit {0})
unfolding walk_log
validate_transition_log transitions expected = do
  current ← walk_log created transitions
  guard (current == expected) (value_error "resume transition log and node state disagree")

-- `snapshot.get("transitions") or []`
abbrev pub read_items : StoredLog → Result (List LogItem)
read_items no_log = ok []
read_items (items l) = ok l
read_items not_list = err (type_error "resume transition log must be a list")

-- `list(transitions)`, of entries that the walk has accepted.
unfoldable pub entries : List LogItem → Log
entries [] = []
entries (object (some from) (some to) (some event) ts ∷ rest) =
    record { from = from; to = to; event = event; ts = ts } ∷ entries rest
entries (_ ∷ rest) = entries rest

abbrev read_node : Option ResumeAttemptNode → Result ResumeAttemptNode
read_node none = err (validation_error "the node is not an object")
read_node (some node) = model_validate node

abbrev has_version : Option ℕ → Bool
has_version none = false
has_version (some n) = n == schema_version

module _ (st : StateStore Snapshot) where
  -- `_persist`
  unfoldable pub persist : Core → st.State → st.State × Option Exn
  unfolding snapshot_of
  persist core store = st.save (key core.context.node.attempt_id) (snapshot_of core) store

  -- `except Exception:`, since no store of the program raises `SystemExit`, puts back the state, the node, the log and the payload.
  unfoldable pub put_back : Core → Core → Core
  put_back before core = record core {
    state = before.state;
    context = record { node = before.context.node; payload = before.context.payload };
    log = before.log;
  }

  unfoldable pub finish :
      Core
      → Core
      → ResumeState
      → st.State × Option Exn
      → ResumeMachine st.State × Result ResumeState
  unfolding put_back
  finish before core state (store, none) = (record { core = core; store = store }, ok state)
  finish before core state (store, some e) =
      (record { core = put_back before core; store = store }, err e)

  unfoldable pub attempt :
      ResumeMachine st.State
      → Core × Result ResumeState
      → ResumeMachine st.State × Result ResumeState
  unfolding persist finish put_back
  attempt m (core, err e) = (record m { core = put_back m.core core }, err e)
  attempt m (core, ok state) = finish m.core core state (persist core m.store)

  abbrev pub with_payload : Core → Payload → Core
  with_payload core payload = record core {
    context = record core.context { payload = some payload };
  }

  unfoldable pub deliver :
      ResumeMachine st.State
      → ResumeEvent
      → ℕ
      → Result Payload
      → ResumeMachine st.State × Result ResumeState
  unfolding attempt Machine.send
  deliver m event now (err e) = (m, err e)
  deliver m event now (ok payload) =
      attempt m (Machine.send (with_payload m.core payload) event (λ c. c) now)

  unfoldable pub send :
      ResumeMachine st.State
      → ResumeEvent
      → Fields
      → ℕ
      → ResumeMachine st.State × Result ResumeState
  unfolding deliver validate_payload
  send m event fields now = deliver m event now (validate_payload event fields)

  unfoldable pub create : ResumeAttemptNode → st.State → ResumeMachine st.State × Option Exn
  unfolding init persist
  create node store =
      let m = init node store in
      let (saved, raised) = persist m.core store in (record m { store = saved }, raised)

  restore_from : st.State → Snapshot → Result (ResumeMachine st.State)
  unfolding init validate_transition_log entries
  restore_from store snapshot = do
    guard (has_version snapshot.schema_version) (value_error "unsupported resume snapshot schema")
    guard (snapshot.graph == "resume") (value_error "resume snapshot graph is invalid")
    node ← read_node snapshot.node
    guard (matches snapshot.state node.state)
        (value_error "resume snapshot state and node state disagree")
    transitions ← read_items snapshot.transitions
    validate_transition_log transitions node.state
    let m = init node store
    ok (record m { core = record m.core { log = entries transitions } })

  unfoldable pub restore : String → st.State → Result (ResumeMachine st.State)
  unfolding restore_from
  restore attempt_id store = elim (st.load (key attempt_id) store) [
    | none ↦ err (key_error (key attempt_id))
    | some snapshot ↦ restore_from store snapshot
  ]

-- ===== src/Freeze/Attempt.antt =====
-- `run_freeze_attempt` of src/dual_tmux/binding.py. The record, the event log `J` and the world
-- outside `O` are the state; `body` proves a session on a working copy and may act on the world.
use dual_tmux.Prelude.{
  ℕ, String, Bool, true, false, not, ◌&&◌, Option, none, some, [], ◌∷◌, ◌<>◌, nonempty, ◌==◌,
  string_eq, if◌then◌else◌,
}
use dual_tmux.Prelude.Effect.{Act}
use dual_tmux.Prelude.Result.{Exn, Result, ok, err}
use dual_tmux.Fsm.Store.{memory_store}
use dual_tmux.Service.Errors.{is_machine_error}
use dual_tmux.Occupancy.Client.{AppConfig}
use dual_tmux.Binding.State.{BindingState, created, proving, requested, live_session_missing}
use dual_tmux.Binding.Node.{
  AgentRole, freeze, rebuild, BindingAttemptNode, BindingError, LiveSessionProven, Fields,
  requested_fields, proven_fields, error_field, model_validate,
}
use dual_tmux.Binding.Machine.{Snapshot, BindingMachine, create, send}
use dual_tmux.Binding.Commit.{commit_proven}
use dual_tmux.Nodes.Json.{Dict, get}
use dual_tmux.Nodes.Library.{Library, str, str_or, or_empty}
use dual_tmux.Freeze.Payload.{OccupancyContext, occupancy_context, side_key, proven_payload}
use dual_tmux.Freeze.Hook.{execute}

-- The entries of the event log, with the tunnel and the side.
pub data Emission : Type 0 where
  freeze_rejected : String → AgentRole → String → Emission
  freeze_commit_rejected : String → AgentRole → String → Emission
  freeze_bound : String → AgentRole → String → Bool → String → Emission

-- The record `data` with the event log and the outside world.
pub record Host (J O : Type 0) : Type 0 where
  pub target : Dict
  pub journal : J
  pub outside : O

abbrev pub Attempt : Type 0
Attempt = BindingMachine (memory_store Snapshot).State

abbrev pub Outcome : Type 0 → Type 0 → Type 0
Outcome J O = (Attempt × Host J O) × Result Bool

-- When the events are sent.
pub record Clock : Type 0 where
  pub request : ℕ
  pub proof : ℕ
  pub commit : ℕ
  pub report : ℕ

abbrev pub is_proving : BindingState → Bool
is_proving proving = true
is_proving _ = false

abbrev pub sends : Attempt → BindingError → ℕ → Attempt × Result BindingState
sends m e now = send (memory_store Snapshot) m live_session_missing (error_field e) now

-- What a freeze works with besides its record.
pub record Freezing (D J O : Type 0) : Type 0 where
  pub lib : Library D
  pub emit : Emission → J → J × Option Exn
  pub write_text : String → String → O → O × Option Exn
  pub rstrip : String → String
  pub describe : Exn → String
  pub load_config : Act O AppConfig
  pub read_occupancy : String → AppConfig → Act O String
  pub is_test : Bool
  pub tmux_name : String
  pub body : Dict → Act O (Dict × Bool)
  -- the eight digits of a new attempt
  pub uuid : String
  pub clock : Clock

module _ {D J O : Type 0} (f : Freezing D J O) (side : AgentRole) where
  abbrev pub name : Host J O → String
  name h = str_or f.lib "" (get h.target "name")

  -- `ev.emit(...)`, then the value.
  abbrev pub emitted : Attempt → Host J O → J × Option Exn → Bool → Outcome J O
  emitted m h (j, none) value = ((m, record h { journal = j }), ok value)
  emitted m h (j, some e) value = ((m, record h { journal = j }), err e)

  abbrev pub report : Attempt → Host J O → Emission → Bool → Outcome J O
  report m h emission value = emitted m h (f.emit emission h.journal) value

  -- `machine.send(LIVE_SESSION_MISSING, ...)`, then more.
  abbrev pub after_missing :
      Attempt × Result BindingState → Host J O → (Attempt → Outcome J O) → Outcome J O
  after_missing (m, ok s) h next = next m
  after_missing (m, err e) h next = ((m, h), err e)

  -- `if machine.state is PROVING: machine.send(...)`, then more.
  unfoldable pub missing :
      Attempt → Host J O → BindingError → ℕ → (Attempt → Outcome J O) → Outcome J O
  missing m h e now next =
      if is_proving m.core.state then after_missing (sends m e now) h next else next m

  abbrev pub committed :
      LiveSessionProven → Host J O → (Attempt × (Dict × O)) × Result BindingState → Outcome J O
  committed payload h ((m, (target, o)), ok s) =
      let now = record h { target = target; outside = o } in
      report m now
        (freeze_bound (name now) side payload.session_id payload.rebuild
          m.core.context.node.attempt_id)
        true
  committed payload h ((m, (target, o)), err e) =
      let now = record h { target = target; outside = o } in
      if is_machine_error e
      then missing m now (record { code = "commit_rejected"; message = f.describe e })
          f.clock.report
          (λ m'. report m' now (freeze_commit_rejected (name now) side (f.describe e)) false)
      else ((m, now), err e)

  -- From the payload on.
  abbrev pub commits : Attempt → Host J O → String → Dict → Result LiveSessionProven → Outcome J O
  commits m h holder working (err e) = ((m, h), err e)
  commits m h holder working (ok payload) = committed payload h (
      commit_proven (memory_store Snapshot) f.describe m
        (execute f.lib f.write_text f.rstrip working side holder ∷ []) (proven_fields payload)
        (h.target, h.outside) f.clock.proof f.clock.commit)

  abbrev no_session : String
  no_session = "no proven " <> (side_key side <> (" session on " <> f.tmux_name))

  abbrev pub proved : Attempt → Host J O → String → String → O × Result (Dict × Bool) → Outcome J O
  proved m h holder previous (o, err e) = ((m, record h { outside = o }), err e)
  proved m h holder previous (o, ok (working, false)) =
      missing m (record h { outside = o })
        (record { code = "live_session_missing"; message = no_session }) f.clock.proof
        (λ m'. ((m', record h { outside = o }), ok false))
  proved m h holder previous (o, ok (working, true)) =
      commits m (record h { outside = o }) holder working
        (proven_payload f.lib working side previous)

  -- The working copy is proved and committed.
  unfoldable pub prove : Attempt → Host J O → String → String → Outcome J O
  unfolding missing
  prove m h holder previous = proved m h holder previous (f.body h.target h.outside)

  abbrev pub is_foreign : OccupancyContext → Bool
  is_foreign c =
      not c.local_mode && (nonempty c.occupancy_holder && not (c.occupancy_holder == c.holder))

  abbrev pub reject : Attempt → Host J O → String → Outcome J O
  reject m h occupant =
      after_missing
        (sends m
          (record { code = "occupancy_foreign"; message = "occupancy holder is " <> occupant })
          f.clock.proof)
        h (λ m'. report m' h (freeze_rejected (name h) side occupant) false)

  abbrev pub requests : OccupancyContext → Fields
  requests c = requested_fields (record {
    holder = c.holder;
    local_mode = c.local_mode;
    occupancy_holder = c.occupancy_holder;
  })

  abbrev pub requested_of :
      Attempt × Result BindingState → Host J O → OccupancyContext → String → Outcome J O
  requested_of (m, err e) h c previous = ((m, h), err e)
  requested_of (m, ok s) h c previous =
      if is_foreign c then reject m h c.occupancy_holder else prove m h c.holder previous

  -- From the new machine on.
  unfoldable pub drive : Attempt → Host J O → OccupancyContext → String → Outcome J O
  unfolding prove
  drive m h c previous =
      requested_of (send (memory_store Snapshot) m requested (requests c) f.clock.request) h c
        previous

  abbrev pub new_node : Host J O → OccupancyContext → String → BindingAttemptNode
  new_node h c previous = record {
    attempt_id =
        "bind-" <> (str f.lib (get h.target "name") <> ("-" <> (side_key side <> ("-" <> f.uuid))));
    tunnel_name = name h;
    role = side;
    intent = if nonempty previous then rebuild else freeze;
    state = created;
    holder = c.holder;
    previous_session_id = previous;
    candidate_session_id = "";
    candidate_directory = "";
    error = "";
  }

  abbrev pub forget : Outcome J O → Host J O × Result Bool
  forget ((m, h), r) = (h, r)

  abbrev pub created_of :
      Host J O → OccupancyContext → String → Attempt × Option Exn → Host J O × Result Bool
  created_of h c previous (m, none) = forget (drive m h c previous)
  created_of h c previous (m, some e) = (h, err e)

  abbrev pub started :
      Host J O → OccupancyContext → String → Result BindingAttemptNode → Host J O × Result Bool
  started h c previous (ok node) = created_of h c previous (create (memory_store Snapshot) node [])
  started h c previous (err e) = (h, err e)

  abbrev pub in_context : Host J O → String → O × Result OccupancyContext → Host J O × Result Bool
  in_context h previous (o, ok c) =
      started (record h { outside = o }) c previous (model_validate (new_node h c previous))
  in_context h previous (o, err e) = (record h { outside = o }, err e)

  abbrev pub begun : Host J O → Result Dict → Host J O × Result Bool
  begun h (err e) = (h, err e)
  begun h (ok info) =
      in_context h (str_or f.lib "" (get info "session_id"))
        (occupancy_context f.load_config f.read_occupancy f.is_test (name h) h.outside)

  unfoldable pub run_freeze_attempt : Act (Host J O) Bool
  unfolding drive
  run_freeze_attempt h = begun h (or_empty (get h.target (side_key side)))

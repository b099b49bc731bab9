-- ===== src/Freeze/Payload.antt =====
-- `occupancy_context` and `proven_payload` of src/dual_tmux/binding.py.
use dual_tmux.Prelude.{
  String, Bool, true, false, not, ◌&&◌, nonempty, ◌==◌, string_eq, if◌then◌else◌,
}
use dual_tmux.Prelude.Effect.{Act}
use dual_tmux.Prelude.Result.{
  Exn, Result, ok, err, value_error, validation_error, os_error, system_exit, ◌>>=◌,
}
use dual_tmux.Occupancy.Client.{AppConfig}
use dual_tmux.Binding.Node.{
  AgentRole, trigger, bullet, LiveSessionProven, EndpointKind, no_kind, local, ssh, docker,
}
use dual_tmux.Nodes.Json.{Dict, get, truthy}
use dual_tmux.Nodes.Library.{Library, str_or, or_empty}

-- Who runs the freeze, whether the hub counts, and who holds the tunnel there.
pub record OccupancyContext : Type 0 where
  pub holder : String
  pub local_mode : Bool
  pub occupancy_holder : String

-- `except (OSError, SystemExit, ValueError)`
abbrev is_unreadable : Exn → Bool
is_unreadable (os_error message) = true
is_unreadable (system_exit message) = true
is_unreadable (value_error message) = true
is_unreadable (validation_error message) = true
is_unreadable _ = false

abbrev local_context : String → OccupancyContext
local_context holder = record { holder = holder; local_mode = true; occupancy_holder = "" }

-- The holder that the hub answers; it is not asked in a test run or with the hub off.
module _ {O : Type 0} (load_config : Act O AppConfig)
    (read_occupancy : String → AppConfig → Act O String) (is_test : Bool) where
  abbrev answered : String → O × Result String → O × Result OccupancyContext
  answered holder (o, ok occupant) =
      (o, ok (record { holder = holder; local_mode = false; occupancy_holder = occupant }))
  answered holder (o, err e) = (o, if is_unreadable e then ok (local_context holder) else err e)

  abbrev configured : String → O × Result AppConfig → O × Result OccupancyContext
  configured tunnel_name (o, ok cfg) =
      if is_test
      then (o, ok (local_context cfg.client))
      else if not cfg.hub_enabled
      then (o, ok (local_context cfg.client))
      else answered cfg.client (read_occupancy tunnel_name cfg o)
  configured tunnel_name (o, err e) = (o, if is_unreadable e then ok (local_context "") else err e)

  unfoldable pub occupancy_context : String → Act O OccupancyContext
  occupancy_context tunnel_name o = configured tunnel_name (load_config o)

abbrev pub side_key : AgentRole → String
side_key trigger = "trigger"
side_key bullet = "bullet"

abbrev pub other_key : AgentRole → String
other_key trigger = "bullet"
other_key bullet = "trigger"

abbrev kind_of : AgentRole → Dict → EndpointKind
kind_of trigger runtime = no_kind
kind_of bullet runtime =
    if truthy (get runtime "container")
    then docker
    else if truthy (get runtime "server")
    then ssh
    else local

module _ {D : Type 0} (lib : Library D) where
  unfoldable pub proven_payload : Dict → AgentRole → String → Result LiveSessionProven
  proven_payload data_ side previous = do
    side_info ← or_empty (get data_ (side_key side))
    runtime ← or_empty (get data_ "runtime")
    other ← or_empty (get data_ (other_key side))
    let candidate = str_or lib "" (get side_info "session_id")
    ok (record {
      session_id = candidate;
      tool = str_or lib "opencode" (get side_info "tool");
      directory = str_or lib "" (get side_info "directory");
      other_session_id = str_or lib "" (get other "session_id");
      rebuild = nonempty previous && (nonempty candidate && not (previous == candidate));
      endpoint_kind = kind_of side runtime;
      endpoint_server = str_or lib "" (get runtime "server");
      endpoint_container = str_or lib "" (get runtime "container");
      endpoint_directory = str_or lib "" (get runtime "directory");
    })

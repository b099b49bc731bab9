-- ===== src/Nodes/Decode.antt =====
-- `from_legacy_tunnel` of datanode/adapters.py: a JSON record becomes a validated node.
use dual_tmux.Prelude.{
  ℕ, String, Bool, true, ◌&&◌, Option, none, some, nonempty, ◌==◌, string_eq, if◌then◌else◌,
}
use dual_tmux.Prelude.Result.{Result, ok, err, validation_error, value_error, ◌>>=◌}
use dual_tmux.Binding.Node.{AgentRole, trigger, bullet}
use dual_tmux.Nodes.Json.{Json, Dict, truthy, get, has, dict_or_empty, is_dict, any_value}
use dual_tmux.Nodes.Library.{Library, str, str_or, int_or}
use dual_tmux.Nodes.Model.{
  Location, unknown_location, local_location, ssh_location, docker_location, AgentClientMetadata,
  AgentSessionNode, RoleBindingNode, RuntimeEndpointNode, local_endpoint, ssh_endpoint,
  docker_endpoint, TunnelNode, validated, session_fields, endpoint_fields, binding_fields,
  validate_tunnel,
}

unfoldable pub read_location : String → Result Location
read_location s =
    if s == ""
    then ok unknown_location
    else if s == "local"
    then ok local_location
    else if s == "ssh"
    then ok ssh_location
    else if s == "docker"
    then ok docker_location
    else err (validation_error "location is none of the literals")

-- `bool(record.get("auto_recover", True))`
unfoldable pub recovers : Dict → Bool
recovers d = if has d "auto_recover" then truthy (get d "auto_recover") else true

module _ {D : Type 0} (lib : Library D) where
  abbrev dated : Option D → Result (Option D)
  dated (some t) = ok (some t)
  dated none = err (value_error "Invalid isoformat string")

  -- `_datetime`; a JSON value is never a `datetime`.
  unfoldable pub datetime : Json → Result (Option D)
  datetime value = if truthy value then dated (lib.fromisoformat (str lib value)) else ok none

  unfoldable pub read_client : Dict → Result (AgentClientMetadata D)
  read_client raw = do
    collected ← datetime (get raw "collected_at")
    location ← read_location (str_or lib "" (get raw "location"))
    ok (record {
      name = str_or lib "" (get raw "name");
      version = str_or lib "" (get raw "version");
      version_output = str_or lib "" (get raw "version_output");
      executable = str_or lib "" (get raw "executable");
      location = location;
      host = str_or lib "" (get raw "host");
      container = str_or lib "" (get raw "container");
      collected_at = collected;
      error = str_or lib "" (get raw "error");
    })

  abbrev some_client : Result (AgentClientMetadata D) → Result (Option (AgentClientMetadata D))
  some_client (ok c) = ok (some c)
  some_client (err e) = err e

  -- The agent client of a session, from the value under `agent_client`.
  unfoldable pub client_of : Json → Result (Option (AgentClientMetadata D))
  client_of raw =
      if is_dict raw && any_value (dict_or_empty raw)
      then some_client (read_client (dict_or_empty raw))
      else ok none

  -- The identity in a side's dict.
  unfoldable pub session_id_of : Dict → String
  session_id_of side = lib.strip (str_or lib "" (get side "session_id"))

  -- `_session`, once there is an identity.
  unfoldable pub make_session : Dict → Option (AgentClientMetadata D) → Result (AgentSessionNode D)
  make_session side client =
      let session_id = session_id_of side in
      let tool = str_or lib "opencode" (get side "tool") in
      validated (session_fields session_id tool) (record {
        session_id = session_id;
        tool = tool;
        model = str_or lib "" (get side "model");
        slug = str_or lib "" (get side "slug");
        agent = str_or lib "" (get side "agent");
        directory = str_or lib "" (get side "directory");
        client = client;
      })

  unfoldable pub make_binding :
      Dict → AgentRole → String → AgentSessionNode D → Result (Option (RoleBindingNode D))
  make_binding side role tunnel_name session = do
    frozen ← datetime (get side "frozen_at")
    validated (binding_fields tunnel_name) (
        some (record {
          tunnel_name = tunnel_name;
          role = role;
          session = session;
          parser = str_or lib "" (get side "parser");
          frozen_at = frozen;
          bound_by_client = str_or lib "" (get side "bound_by_client");
        }))

  unfoldable pub some_binding : Dict → AgentRole → String → Result (Option (RoleBindingNode D))
  some_binding side role tunnel_name = do
    client ← client_of (get side "agent_client")
    session ← make_session side client
    make_binding side role tunnel_name session

  -- `_binding` with its `_session`: no binding without a session's identity.
  unfoldable pub binding : Json → AgentRole → String → Result (Option (RoleBindingNode D))
  binding raw role tunnel_name =
      if nonempty (session_id_of (dict_or_empty raw))
      then some_binding (dict_or_empty raw) role tunnel_name
      else ok none

  unfoldable pub choose_endpoint : String → String → String → ℕ → RuntimeEndpointNode
  choose_endpoint server container directory port =
      if nonempty container
      then docker_endpoint server container directory port
      else if nonempty server
      then ssh_endpoint server directory port
      else local_endpoint directory

  -- `_endpoint`
  unfoldable pub endpoint : Json → Result RuntimeEndpointNode
  endpoint raw = do
    port ← int_or lib 22 (get (dict_or_empty raw) "ssh_port")
    let chosen =
        choose_endpoint (str_or lib "" (get (dict_or_empty raw) "server"))
          (str_or lib "" (get (dict_or_empty raw) "container"))
          (str_or lib "" (get (dict_or_empty raw) "directory")) port
    validated (endpoint_fields chosen) chosen

  -- `str(record["branched_from"]) if record.get("branched_from") else None`
  unfoldable pub branch_of : Json → Option String
  branch_of value = if truthy value then some (str lib value) else none

  unfoldable pub from_legacy_tunnel : Dict → Result (TunnelNode D)
  from_legacy_tunnel d = do
    let name = str_or lib "" (get d "name")
    runtime ← endpoint (get d "runtime")
    trigger_binding ← binding (get d "trigger") trigger name
    bullet_binding ← binding (get d "bullet") bullet name
    updated ← datetime (get d "updated_at")
    validate_tunnel lib (record {
      name = name;
      op = str_or lib "" (get d "op");
      run = str_or lib "" (get d "run");
      endpoint = runtime;
      trigger = trigger_binding;
      bullet = bullet_binding;
      client = str_or lib "" (get d "client");
      user = str_or lib "" (get d "user");
      description = str_or lib "" (get d "description");
      branched_from = branch_of (get d "branched_from");
      updated_at = updated;
      auto_recover = recovers d;
    })

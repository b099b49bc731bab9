-- ===== src/Nodes/Model.antt =====
-- The nodes of a tunnel in datanode/models.py, with their validators. `D` is the type of dates.
use dual_tmux.Prelude.{
  ℕ, String, Bool, true, false, not, ◌&&◌, Option, none, some, nonempty, ◌==◌, string_eq, leb,
  starts_with, is_some, if◌then◌else◌,
}
use dual_tmux.Prelude.Result.{Result, ok, err, validation_error, ◌>>◌, guard}
use dual_tmux.Binding.Node.{AgentRole, trigger, bullet, is_bullet}
use dual_tmux.Nodes.Library.{Library}
use dual_tmux.Nodes.Command.{build_cmd}

pub data Location : Type 0 where
  unknown_location local_location ssh_location docker_location : Location

pub record AgentClientMetadata (D : Type 0) : Type 0 where
  pub name : String
  pub version : String
  pub version_output : String
  pub executable : String
  pub location : Location
  pub host : String
  pub container : String
  pub collected_at : Option D
  pub error : String

pub record AgentSessionNode (D : Type 0) : Type 0 where
  pub session_id : String
  pub tool : String
  pub model : String
  pub slug : String
  pub agent : String
  pub directory : String
  pub client : Option (AgentClientMetadata D)

pub record RoleBindingNode (D : Type 0) : Type 0 where
  pub tunnel_name : String
  pub role : AgentRole
  pub session : AgentSessionNode D
  pub parser : String
  pub frozen_at : Option D
  pub bound_by_client : String

pub data RuntimeEndpointNode : Type 0 where
  local_endpoint : String → RuntimeEndpointNode
  ssh_endpoint : String → String → ℕ → RuntimeEndpointNode
  docker_endpoint : String → String → String → ℕ → RuntimeEndpointNode

-- The attributes of an endpoint; a local one has no server, container or port, which read as
-- `getattr(endpoint, ..., default)`.
abbrev pub server : RuntimeEndpointNode → String
server (local_endpoint d) = ""
server (ssh_endpoint s d p) = s
server (docker_endpoint s c d p) = s

abbrev pub container : RuntimeEndpointNode → String
container (docker_endpoint s c d p) = c
container _ = ""

abbrev pub directory : RuntimeEndpointNode → String
directory (local_endpoint d) = d
directory (ssh_endpoint s d p) = d
directory (docker_endpoint s c d p) = d

abbrev pub port : RuntimeEndpointNode → ℕ
port (local_endpoint d) = 22
port (ssh_endpoint s d p) = p
port (docker_endpoint s c d p) = p

unfoldable pub reconnect_command : {D : Type 0} → Library D → RuntimeEndpointNode → String
reconnect_command lib (local_endpoint d) = if nonempty d then build_cmd lib "" "" d 22 else ""
reconnect_command lib (ssh_endpoint s d p) = build_cmd lib s "" d p
reconnect_command lib (docker_endpoint s c d p) = build_cmd lib s c d p

pub record TunnelNode (D : Type 0) : Type 0 where
  pub name : String
  pub op : String
  pub run : String
  pub endpoint : RuntimeEndpointNode
  pub trigger : Option (RoleBindingNode D)
  pub bullet : Option (RoleBindingNode D)
  pub client : String
  pub user : String
  pub description : String
  pub branched_from : Option String
  pub updated_at : Option D
  pub auto_recover : Bool

-- What a pydantic class does with its arguments.
abbrev pub validated {ℓ} : {A : Type ℓ} → Bool → A → Result A
validated true a = ok a
validated false a = err (validation_error "a field is invalid")

abbrev pub session_fields : String → String → Bool
session_fields session_id tool = nonempty session_id && nonempty tool

abbrev valid_port : ℕ → Bool
valid_port p = leb 1 p && leb p 65535

abbrev pub endpoint_fields : RuntimeEndpointNode → Bool
endpoint_fields (local_endpoint d) = true
endpoint_fields (ssh_endpoint s d p) = nonempty s && valid_port p
endpoint_fields (docker_endpoint s c d p) =
    nonempty s && (nonempty c && (nonempty d && valid_port p))

-- `binding.role is expected`
abbrev pub is_role : AgentRole → AgentRole → Bool
is_role trigger r = not (is_bullet r)
is_role bullet r = is_bullet r

-- The `pattern` of `tunnel_name` is `^dt-`.
abbrev pub binding_fields : String → Bool
binding_fields tunnel_name = starts_with tunnel_name "dt-"

module _ {D : Type 0} where
  abbrev pub is_dst : TunnelNode D → Bool
  is_dst n = is_some n.trigger && is_some n.bullet

  -- One round of the loop of `legal_bindings`.
  unfoldable pub legal_binding : String → AgentRole → Option (RoleBindingNode D) → Result (Unit {0})
  legal_binding name expected none = ok tt
  legal_binding name expected (some b) = do
    guard (is_role expected b.role) (validation_error "a binding must have the role of its side")
    guard (b.tunnel_name == name)
        (validation_error "binding tunnel_name must match TunnelNode.name")

  unfoldable pub same_session : Option (RoleBindingNode D) → Option (RoleBindingNode D) → Bool
  same_session (some t) (some b) = t.session.session_id == b.session.session_id
  same_session _ _ = false

  unfoldable pub legal_bindings : TunnelNode D → Result (Unit {0})
  unfolding legal_binding same_session
  legal_bindings n = do
    guard (not (n.op == n.run)) (validation_error "op and run tmux identities must differ")
    legal_binding n.name trigger n.trigger
    legal_binding n.name bullet n.bullet
    guard (not (same_session n.trigger n.bullet))
        (validation_error "trigger and bullet cannot bind the same session")

  abbrev pub tunnel_fields : Library D → TunnelNode D → Bool
  tunnel_fields lib n =
      lib.matches "^dt-[A-Za-z0-9][A-Za-z0-9_.-]*$" n.name
      && (lib.matches "^op_[A-Za-z0-9][A-Za-z0-9_.-]*$" n.op
          && lib.matches "^run_[A-Za-z0-9][A-Za-z0-9_.-]*$" n.run)

  unfoldable pub validate_tunnel : Library D → TunnelNode D → Result (TunnelNode D)
  unfolding legal_bindings
  validate_tunnel lib n = do
    guard (tunnel_fields lib n) (validation_error "a field is invalid")
    legal_bindings n
    ok n

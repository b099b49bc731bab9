-- ===== src/Nodes/Encode.antt =====
-- `to_legacy_tunnel` of datanode/adapters.py: a node is projected back to a JSON record.
use dual_tmux.Prelude.{
  String, Bool, ◌||◌, Option, none, some, List, [], ◌∷◌, nonempty, is_some, if◌then◌else◌,
}
use dual_tmux.Prelude.Result.{Result, ok, err, attribute_error, ◌>>=◌}
use dual_tmux.Nodes.Json.{
  Json, null, flag, number, text, dict, Dict, empty, truthy, get, has, set, pop, set_if, update,
  is_dict, dict_or_empty,
}
use dual_tmux.Nodes.Library.{Library}
use dual_tmux.Nodes.Model.{
  Location, unknown_location, local_location, ssh_location, docker_location, AgentClientMetadata,
  RoleBindingNode, RuntimeEndpointNode, server, container, directory, port, reconnect_command,
  TunnelNode,
}

abbrev pub write_location : Location → String
write_location unknown_location = ""
write_location local_location = "local"
write_location ssh_location = "ssh"
write_location docker_location = "docker"

module _ {D : Type 0} (lib : Library D) where
  -- `date.isoformat() if date else ""`
  abbrev pub iso : Option D → Json
  iso (some t) = text (lib.isoformat t)
  iso none = text ""

  -- `client.get("collected_at") or ""` of a dumped client
  abbrev pub json_iso : Option D → Json
  json_iso (some t) = text (lib.json_date t)
  json_iso none = text ""

  abbrev client_fields : AgentClientMetadata D → List (String × Json)
  client_fields c =
      ("name", text c.name)
      ∷ ("version", text c.version)
      ∷ ("version_output", text c.version_output)
      ∷ ("executable", text c.executable)
      ∷ ("location", text (write_location c.location))
      ∷ ("host", text c.host)
      ∷ ("container", text c.container)
      ∷ ("error", text c.error)
      ∷ ("collected_at", json_iso c.collected_at)
      ∷ []

  -- `model_dump(mode="json", exclude_none=True)` with its `collected_at`.
  unfoldable pub write_client : AgentClientMetadata D → Dict
  write_client c = update (client_fields c) empty

  abbrev pub side_fields : RoleBindingNode D → List (String × Json)
  side_fields b =
      ("tool", text b.session.tool)
      ∷ ("parser", text b.parser)
      ∷ ("model", text b.session.model)
      ∷ ("session_id", text b.session.session_id)
      ∷ ("slug", text b.session.slug)
      ∷ ("agent", text b.session.agent)
      ∷ ("directory", text b.session.directory)
      ∷ ("frozen_at", iso b.frozen_at)
      ∷ []

  abbrev pub set_client : Option (AgentClientMetadata D) → Dict → Dict
  set_client none d = d
  set_client (some c) d = set "agent_client" (dict (write_client c)) d

  -- `_side` of a binding.
  unfoldable pub write_binding : RoleBindingNode D → Dict → Dict
  write_binding b value = set_client b.session.client (
      set_if (nonempty b.bound_by_client) "bound_by_client" (text b.bound_by_client)
        (update (side_fields b) value))

  -- `_side`
  unfoldable pub side : Option (RoleBindingNode D) → Json → Dict
  side none base = dict_or_empty base
  side (some b) base = write_binding b (dict_or_empty base)

  abbrev pub runtime_fields : RuntimeEndpointNode → List (String × Json)
  runtime_fields e =
      ("server", text (server e))
      ∷ ("ssh_port", number (port e))
      ∷ ("container", text (container e))
      ∷ ("directory", text (directory e))
      ∷ ("cmd", text (reconnect_command lib e))
      ∷ []

  -- `runtime.update(...)`, where only a dict has the method.
  unfoldable pub write_runtime : RuntimeEndpointNode → Json → Result Dict
  write_runtime e old =
      if truthy old
      then (if is_dict old
          then ok (update (runtime_fields e) (dict_or_empty old))
          else err (attribute_error "update"))
      else ok (update (runtime_fields e) empty)

  abbrev pub names : TunnelNode D → Dict → Dict
  names n d = set "run" (text n.run) (set "op" (text n.op) (set "name" (text n.name) d))

  -- The branch `base is None`.
  unfoldable pub write_new : TunnelNode D → Dict → Dict → Dict
  write_new n runtime d =
      update
        (("client", text n.client)
          ∷ ("user", text n.user)
          ∷ ("description", text n.description)
          ∷ ("runtime", dict runtime)
          ∷ ("trigger", dict (side n.trigger null))
          ∷ ("bullet", dict (side n.bullet null))
          ∷ ("updated_at", iso n.updated_at)
          ∷ ("auto_recover", flag n.auto_recover)
          ∷ [])
        d

  abbrev pub has_runtime : RuntimeEndpointNode → Bool
  has_runtime e = nonempty (server e) || (nonempty (container e) || nonempty (directory e))

  -- The branch with a base. The keys are distinct, so each test reads the base's own keys.
  unfoldable pub write_over : TunnelNode D → Dict → Dict → Dict
  write_over n runtime d =
      set_if (nonempty n.description || has d "description") "description" (text n.description) (
        set_if (n.auto_recover || has d "auto_recover") "auto_recover" (flag n.auto_recover) (
          set_if (is_some n.updated_at || has d "updated_at") "updated_at" (iso n.updated_at) (
            set_if (is_some n.bullet || has d "bullet") "bullet"
              (dict (side n.bullet (get d "bullet")))
              (set_if (is_some n.trigger || has d "trigger") "trigger"
                (dict (side n.trigger (get d "trigger")))
                (set_if (has d "runtime" || has_runtime n.endpoint) "runtime" (dict runtime) (
                  set_if (nonempty n.user || has d "user") "user" (text n.user)
                    (set_if (nonempty n.client || has d "client") "client" (text n.client) d)))))))

  unfoldable pub write_branch : Option String → Dict → Dict
  write_branch none d = pop "branched_from" d
  write_branch (some s) d =
      if nonempty s then set "branched_from" (text s) d else pop "branched_from" d

  abbrev pub written : TunnelNode D → Option Dict → Dict → Dict
  written n none runtime = write_branch n.branched_from (write_new n runtime (names n empty))
  written n (some base) runtime = write_branch n.branched_from (write_over n runtime (names n base))

  abbrev pub old_runtime : Option Dict → Json
  old_runtime none = dict empty
  old_runtime (some base) = get base "runtime"

  unfoldable pub to_legacy_tunnel : TunnelNode D → Option Dict → Result Dict
  to_legacy_tunnel n base = do
    runtime ← write_runtime n.endpoint (old_runtime base)
    ok (written n base runtime)

-- ===== src/Nodes/Examples.antt =====
-- Tests of the nodes and of the repository, on the record of a tunnel with two sides.
use mathlib.Core.Path.{subst}
use dual_tmux.Prelude.{
  String, ◌≡◌, refl, true, false, Option, none, some, [], ◌==◌, string_eq, if◌then◌else◌,
}
use dual_tmux.Prelude.Result.{ok, err, ◌>>=◌, validation_error, value_error}
use dual_tmux.Binding.Node.{AgentRole, trigger, bullet}
use dual_tmux.Nodes.Json.{flag, number, text, dict, Dict, empty, entry, get, has, set, pop}
use dual_tmux.Nodes.Library.{Library, IsLawful, Codec, str_or, int_or}
use dual_tmux.Nodes.Command.{build_cmd}
use dual_tmux.Nodes.Model.{
  TunnelNode, RoleBindingNode, AgentClientMetadata, unknown_location, ssh_endpoint, local_endpoint,
  validate_tunnel, session_fields, reconnect_command,
}
use dual_tmux.Nodes.Decode.{
  from_legacy_tunnel, read_client, read_location, endpoint, choose_endpoint, binding, datetime,
  recovers, branch_of, some_binding, make_binding, make_session, client_of, session_id_of,
}
use dual_tmux.Nodes.Encode.{
  to_legacy_tunnel, write_new, write_client, write_runtime, write_over, write_branch, side,
  write_binding,
}
use dual_tmux.Nodes.Repository.{save_raw, normalize_dt}
use dual_tmux.Nodes.Saved.{save_raw-read, IsKept}
use dual_tmux.Nodes.Resave.{IsDescribed, some_inj}
use dual_tmux.Nodes.Sides.{IsWritable}
use dual_tmux.Nodes.Over.{IsSavable, FitsOver}
use dual_tmux.Nodes.RoundTrip.{from_legacy-to_legacy, get-to_legacy_tunnel}

-- One date, and texts without blanks.
abbrev pub lib : Library (Unit {0})
lib = record {
  shown = λ j. "?";
  digits = λ n. "0";
  parse_int = λ s. none;
  strip = λ s. s;
  fromisoformat = λ s. if s == "2026-01-01" then some tt else none;
  isoformat = λ t. "2026-01-01";
  json_date = λ t. "2026-01-01";
  matches = λ p s. true;
  quote = λ s. s;
}

pub lib-IsLawful : IsLawful lib
lib-IsLawful = record {
  fromisoformat-isoformat = λ t. refl;
  nonempty-isoformat = λ t. refl;
  nonempty-json_date = λ t. refl;
  strip-strip = λ s. refl;
  nonempty-shown = λ j. refl;
  nonempty-digits = λ n. refl;
  strip-nil = refl;
}

abbrev codec : Codec Dict
codec = record { loads = λ d. ok (dict d); dumps = λ d. d }

abbrev pub side_dict : String → String → Dict
side_dict session date =
    entry "session_id" (text session)
      (entry "tool" (text "opencode") (entry "frozen_at" (text date) empty))

abbrev pub runtime : Dict
runtime =
    entry "server" (text "h1")
      (entry "ssh_port" (number 2222) (entry "directory" (text "/w") empty))

abbrev pub record_of : Dict → Dict
record_of trigger_side = entry "name" (text "dt-a") (
    entry "op" (text "op_a") (
      entry "run" (text "run_a") (
        entry "runtime" (dict runtime) (
          entry "trigger" (dict trigger_side)
            (entry "bullet" (dict (side_dict "s2" "")) (entry "note" (text "kept") empty))))))

abbrev pub example : Dict
example = record_of (side_dict "s1" "2026-01-01")

abbrev bound : AgentRole → String → Option (Unit {0}) → RoleBindingNode (Unit {0})
bound role session date = record {
  tunnel_name = "dt-a";
  role = role;
  session = record {
    session_id = session;
    tool = "opencode";
    model = "";
    slug = "";
    agent = "";
    directory = "";
    client = none;
  };
  parser = "";
  frozen_at = date;
  bound_by_client = "";
}

abbrev pub node : TunnelNode (Unit {0})
node = record {
  name = "dt-a";
  op = "op_a";
  run = "run_a";
  endpoint = ssh_endpoint "h1" "/w" 2222;
  trigger = some (bound trigger "s1" (some tt));
  bullet = some (bound bullet "s2" none);
  client = "";
  user = "";
  description = "";
  branched_from = none;
  updated_at = none;
  auto_recover = true;
}

reads : from_legacy_tunnel lib example ≡ ok node
unfolding from_legacy_tunnel endpoint int_or get choose_endpoint str_or binding session_id_of
    some_binding client_of make_session make_binding datetime validate_tunnel branch_of recovers has
reads = refl

-- A session cannot be bound on both sides.
same_session_refused :
    from_legacy_tunnel lib (record_of (side_dict "s2" ""))
    ≡ err (validation_error "trigger and bullet cannot bind the same session")
unfolding from_legacy_tunnel endpoint int_or get choose_endpoint str_or binding session_id_of
    some_binding client_of make_session make_binding datetime validate_tunnel branch_of recovers has
same_session_refused = refl

-- A container needs a server.
container_refused :
    endpoint lib (dict (entry "container" (text "c") (entry "directory" (text "/w") empty)))
    ≡ err (validation_error "a field is invalid")
unfolding endpoint int_or get choose_endpoint str_or
container_refused = refl

commands :
    (reconnect_command lib (ssh_endpoint "h1" "/w" 2222)
      ≡ "ssh -t -o StrictHostKeyChecking=accept-new -o ServerAliveInterval=15 -o ServerAliveCountMax=3 -p 0 h1 \"cd /w && exec bash\"")
    × (reconnect_command lib (local_endpoint "/w") ≡ "cd /w")
unfolding reconnect_command build_cmd
commands = (refl, refl)

-- A node that is not to recover loses this over a record without the key.
recovery_lost :
    to_legacy_tunnel lib (record node { auto_recover = false }) (some example)
      >>= from_legacy_tunnel lib
    ≡ ok node
unfolding from_legacy_tunnel endpoint int_or get choose_endpoint str_or binding session_id_of
    some_binding client_of make_session make_binding datetime validate_tunnel branch_of recovers has
    to_legacy_tunnel write_runtime write_branch pop write_over set side write_binding
recovery_lost = refl

-- A date of an agent client that is written with a `Z`, which Python 3.10 does not read.
abbrev zulu_lib : Library (Unit {0})
zulu_lib = record lib { json_date = λ t. "2026-01-01Z" }

abbrev dated_client : AgentClientMetadata (Unit {0})
dated_client = record {
  name = "codex";
  version = "";
  version_output = "";
  executable = "";
  location = unknown_location;
  host = "";
  container = "";
  collected_at = some tt;
  error = "";
}

abbrev dated_node : TunnelNode (Unit {0})
dated_node =
    let b = bound trigger "s1" none in
    record node {
      trigger = some (record b { session = record b.session { client = some dated_client } });
    }

zulu_lost :
    to_legacy_tunnel zulu_lib dated_node none >>= from_legacy_tunnel zulu_lib
    ≡ err (value_error "Invalid isoformat string")
unfolding from_legacy_tunnel endpoint int_or get choose_endpoint str_or binding session_id_of
    some_binding client_of make_session make_binding datetime validate_tunnel branch_of recovers has
    to_legacy_tunnel write_runtime write_branch pop write_new set side write_binding write_client
    read_client read_location
zulu_lost = refl

described :
    (role : AgentRole) (s : String) (t : Option (Unit {0}))
    → IsDescribed lib (some (bound role s t))
described role s t = record { described = λ b c e f. cc; dated = λ b c e f. cc }

writable :
    (role : AgentRole) (s : String) (t : Option (Unit {0}))
    → session_fields s "opencode" ≡ true
    → IsWritable lib (bound role s t)
writable role s t h = record {
  fields = h;
  named = refl;
  stripped = refl;
  described = λ c e. cc;
  dated = λ c e. cc;
}

normal : normalize_dt "dt-a" ≡ ok "dt-a"
unfolding normalize_dt
normal = refl

savable : IsSavable lib node
unfolding validate_tunnel
savable = record {
  valid = refl;
  endpoint = refl;
  trigger = λ b e. subst (IsWritable lib) (some_inj e) (writable trigger "s1" (some tt) refl);
  bullet = λ b e. subst (IsWritable lib) (some_inj e) (writable bullet "s2" none refl);
  branched_from = λ s e. cc;
}

save_raw-read_example :
    ((save_raw codec lib example []).1 ≡ ok node)
    × IsKept codec (λ d. refl) lib lib-IsLawful node [] (save_raw codec lib example []).0
save_raw-read_example =
    save_raw-read codec (λ d. refl) lib lib-IsLawful example node [] reads normal
      (unfold get in λ h. refl) (described trigger "s1" (some tt)) (described bullet "s2" none)

-- A record without the tunnel's fields, and with the setting of a node that does not recover.
abbrev bare : Dict
bare = entry "note" (text "kept") (entry "auto_recover" (flag false) empty)

fits_bare : FitsOver lib node bare
unfolding get has str_or client_of
fits_bare = record {
  runtime = λ h. cc;
  trigger = record { bound = λ e. refl; client = λ e. refl };
  bullet = record { bound = λ e. refl; client = λ e. refl };
  auto_recover = λ e. refl;
}

from_legacy-to_legacy_example :
    to_legacy_tunnel lib node (some bare) >>= from_legacy_tunnel lib ≡ ok node
from_legacy-to_legacy_example =
    from_legacy-to_legacy lib lib-IsLawful node (some bare) savable fits_bare

abbrev projected : Dict
projected = elim (to_legacy_tunnel lib node (some bare)) [ ok d ↦ d | err e ↦ empty ]

is_projected : to_legacy_tunnel lib node (some bare) ≡ ok projected
unfolding to_legacy_tunnel write_runtime get
is_projected = refl

get-to_legacy_tunnel_example : get projected "note" ≡ get bare "note"
get-to_legacy_tunnel_example = get-to_legacy_tunnel lib node bare projected "note" is_projected refl

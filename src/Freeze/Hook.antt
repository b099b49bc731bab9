-- ===== src/Freeze/Hook.antt =====
-- `TunnelProjectionHook` of datanode/runtime_fsm/hooks.py, with the entry of a run point that
-- `persist_run_entry` of src/dual_tmux/binding.py writes by `write_entry` of src/dual_tmux/store.py.
-- `O` is the world outside the record; its files are written by `write_text`.
use dual_tmux.Prelude.{String, ◌<>◌, Option, none, some, nonempty, if◌then◌else◌}
use dual_tmux.Prelude.Result.{Exn, Result, ok, err, type_error, ◌>>=◌}
use dual_tmux.Binding.Node.{AgentRole, trigger, bullet}
use dual_tmux.Binding.Commit.{Hook}
use dual_tmux.Nodes.Json.{
  Json, text, dict, Dict, empty, get, has, set, set_if, dict_or_empty, merge,
}
use dual_tmux.Nodes.Library.{Library, str_or}
use dual_tmux.Nodes.Decode.{from_legacy_tunnel}
use dual_tmux.Nodes.Encode.{to_legacy_tunnel}
use dual_tmux.Freeze.Payload.{side_key}

module _ {O : Type 0} (write_text : String → String → O → O × Option Exn)
    (rstrip : String → String) where
  unfoldable pub write_entry : String → String → O → O × Option Exn
  write_entry session cmd = write_text (session <> ".cmd") (rstrip cmd <> "\n")

  unfoldable pub persist_run_entry : String → String → O → O × Option Exn
  unfolding write_entry
  persist_run_entry session cmd o =
      if nonempty session then write_entry session cmd o else (o, none)

-- `side_info["bound_by_client"] = holder`, which only a dict supports.
abbrev bound_side : String → AgentRole → Dict → Json → Result Dict
bound_side holder side working (dict info) =
    ok (set (side_key side) (dict (set "bound_by_client" (text holder) info)) working)
bound_side holder side working _ = err (type_error "the side does not support item assignment")

-- `working_copy.setdefault(side, {})`
abbrev with_side : AgentRole → Dict → Dict
with_side side working =
    if has working (side_key side) then working else set (side_key side) (dict empty) working

unfoldable pub with_holder : Dict → AgentRole → String → Result Dict
with_holder working side holder =
    if nonempty holder
    then bound_side holder side (with_side side working)
        (get (with_side side working) (side_key side))
    else ok (with_side side working)

-- The workpoints that the working copy has.
abbrev keep_points : Dict → Dict → Dict
keep_points working projected =
    set_if (has working "run_point") "run_point" (get working "run_point")
      (set_if (has working "op_point") "op_point" (get working "op_point") projected)

module _ {D : Type 0} (lib : Library D) where
  -- The projection of the working copy over the target.
  unfoldable pub projection : Dict → AgentRole → String → Dict → Result Dict
  projection working side holder target = do
    working_copy ← with_holder working side holder
    tunnel_node ← from_legacy_tunnel lib working_copy
    projected ← to_legacy_tunnel lib tunnel_node (some target)
    ok (keep_points working_copy projected)

  module _ {O : Type 0} (write_text : String → String → O → O × Option Exn)
      (rstrip : String → String) where
    -- The entry of the run point, of a bullet only. The projection's runtime is a dict.
    unfoldable pub persist_entry : AgentRole → Dict → O → O × Option Exn
    persist_entry trigger projected o = (o, none)
    persist_entry bullet projected o =
        persist_run_entry write_text rstrip (str_or lib "" (get projected "run"))
          (str_or lib "" (get (dict_or_empty (get projected "runtime")) "cmd")) o

    -- `self.target.update(projected)`, unless writing the entry has raised.
    abbrev pub updated : Dict → Dict → O × Option Exn → (Dict × O) × Option Exn
    updated target projected (o, none) = ((merge target projected, o), none)
    updated target projected (o, some e) = ((target, o), some e)

    abbrev pub executed : AgentRole → Dict → O → Result Dict → (Dict × O) × Option Exn
    executed side target o (ok projected) =
        updated target projected (persist_entry side projected o)
    executed side target o (err e) = ((target, o), some e)

    -- `execute`, on the record and the world.
    unfoldable pub execute : Dict → AgentRole → String → Hook (Dict × O)
    execute working side holder node context (target, o) =
        executed side target o (projection working side holder target)

    -- `apply_proven_binding`, which executes the hook outside an attempt.
    unfoldable pub apply_proven_binding :
        Dict → AgentRole → String → Dict × O → (Dict × O) × Option Exn
    apply_proven_binding working side holder (target, o) =
        executed side target o (projection working side holder target)

-- ===== src/Nodes/Repository.antt =====
-- `TunnelRepository` of datanode/repository.py and the file functions of src/dual_tmux/store.py. The
-- disk is the directory of the tunnels: the names of its files with what reading each gives. A write
-- succeeds.
use dual_tmux.Prelude.{
  String, Bool, true, false, Option, none, some, List, [], ◌∷◌, ◌<>◌, starts_with, nonempty,
  string_eq, if◌then◌else◌, select,
}
use dual_tmux.Prelude.Result.{
  Exn, Result, ok, err, validation_error, value_error, key_error, os_error, system_exit,
  attribute_error, ◌>>=◌, ◌>>◌, guard,
}
use dual_tmux.Prelude.Effect.{Act}
use dual_tmux.Fsm.Store.{put, get as file, without, exists as is_file, list_keys}
use dual_tmux.Hub.Merge.{sorted, is_tunnel_name}
use dual_tmux.Nodes.Json.{Json, null, dict, Dict}
use dual_tmux.Nodes.Library.{Library, Codec}
use dual_tmux.Nodes.Model.{TunnelNode}
use dual_tmux.Nodes.Decode.{from_legacy_tunnel}
use dual_tmux.Nodes.Encode.{to_legacy_tunnel}

abbrev pub Disk : Type 0 → Type 0
Disk C = List (String × Result C)

unfoldable pub normalize_dt : String → Result String
normalize_dt name =
    if nonempty name
    then ok (if starts_with name "dt-" then name else "dt-" <> name)
    else err (system_exit "[err] missing tunnel name")

-- `_path_for`, below the directory.
unfoldable pub path_for : String → Result String
path_for name = do normal ← normalize_dt name; ok (normal <> ".json")

-- `path.read_text(encoding="utf-8")`
abbrev content_of : {C : Type 0} → Option (Result C) → Result C
content_of (some content) = content
content_of none = err (os_error "No such file or directory")

unfoldable pub read_text : {C : Type 0} → Disk C → String → Result C
read_text disk path = content_of (file path disk)

-- `except (OSError, ValueError)`
abbrev pub is_skipped : Exn → Bool
is_skipped (os_error message) = true
is_skipped (value_error message) = true
is_skipped (validation_error message) = true
is_skipped _ = false

-- `except (KeyError, OSError, ValueError)`
abbrev pub is_missing : Exn → Bool
is_missing (key_error message) = true
is_missing e = is_skipped e

-- `return node` after a `save`.
abbrev pub and_node :
    {C D : Type 0} → TunnelNode D → Disk C × Result String → Disk C × Result (TunnelNode D)
and_node n (disk, ok path) = (disk, ok n)
and_node n (disk, err e) = (disk, err e)

module _ {C D : Type 0} (codec : Codec C) (lib : Library D) where
  -- `json.loads(path.read_text(encoding="utf-8"))`
  unfoldable pub load : Disk C → String → Result Json
  load disk path = do content ← read_text disk path; codec.loads content

  -- `from_legacy_tunnel(raw)`, where only a dict has the method `get`.
  unfoldable pub decode : Json → Result (TunnelNode D)
  decode (dict d) = from_legacy_tunnel lib d
  decode _ = err (attribute_error "get")

  unfoldable pub get_raw : Disk C → String → Result Json
  unfolding load
  get_raw disk name = do
    path ← path_for name
    guard (is_file path disk) (key_error "Tunnel not found")
    load disk path

  unfoldable pub get_tunnel : Disk C → String → Result (TunnelNode D)
  get_tunnel disk name = do raw ← get_raw disk name; decode raw

  abbrev or_none : Result (TunnelNode D) → Result (Option (TunnelNode D))
  or_none (ok n) = ok (some n)
  or_none (err e) = if is_missing e then ok none else err e

  unfoldable pub get_or_none : Disk C → String → Result (Option (TunnelNode D))
  get_or_none disk name = or_none (get_tunnel disk name)

  -- One round of the loop of `list`, before the rest.
  abbrev listed :
      Result (TunnelNode D) → Result (List (TunnelNode D)) → Result (List (TunnelNode D))
  listed (ok n) rest = rest >>= λ nodes. ok (n ∷ nodes)
  listed (err e) rest = if is_skipped e then rest else err e

  unfoldable pub list_nodes : Disk C → List String → Result (List (TunnelNode D))
  list_nodes disk [] = ok []
  list_nodes disk (path ∷ paths) = listed (load disk path >>= decode) (list_nodes disk paths)

  -- What `record.get` meets in a base: `None`, a dict, or a value without the method.
  unfoldable pub project : TunnelNode D → Json → Result Dict
  project n null = to_legacy_tunnel lib n none
  project n (dict d) = to_legacy_tunnel lib n (some d)
  project n _ = err (attribute_error "get")

  abbrev or_null : Result Json → Result Json
  or_null (ok j) = ok j
  or_null (err e) = if is_skipped e then ok null else err e

  -- The base of `save`: the one given, or what the file holds.
  unfoldable pub base_of : Disk C → String → Option Dict → Result Json
  base_of disk path (some base) = ok (dict base)
  base_of disk path none = if is_file path disk then or_null (load disk path) else ok null

  abbrev written_to : Disk C → String → Result Dict → Disk C × Result String
  written_to disk path (ok record_) = (put path (ok (codec.dumps record_)) disk, ok path)
  written_to disk path (err e) = (disk, err e)

  abbrev saved_at : TunnelNode D → Option Dict → Disk C → Result String → Disk C × Result String
  saved_at n base disk (ok path) = written_to disk path (base_of disk path base >>= project n)
  saved_at n base disk (err e) = (disk, err e)

  unfoldable pub save : TunnelNode D → Option Dict → Act (Disk C) String
  save n base disk = saved_at n base disk (path_for n.name)

  abbrev saved_raw : Dict → Disk C → Result (TunnelNode D) → Disk C × Result (TunnelNode D)
  saved_raw d disk (ok n) = and_node n (save n (some d) disk)
  saved_raw d disk (err e) = (disk, err e)

  unfoldable pub save_raw : Dict → Act (Disk C) (TunnelNode D)
  save_raw d disk = saved_raw d disk (from_legacy_tunnel lib d)

-- The paths of `list`: `sorted(directory.glob("dt-*.json"))`.
unfoldable pub list_paths : {C : Type 0} → Disk C → List String
list_paths disk = sorted (select is_tunnel_name (list_keys disk))

-- `list`
unfoldable pub list_tunnels :
    {C D : Type 0} → Codec C → Library D → Disk C → Result (List (TunnelNode D))
list_tunnels codec lib disk = list_nodes codec lib disk (list_paths disk)

abbrev deleted_at : {C : Type 0} → Disk C → Result String → Disk C × Result Bool
deleted_at disk (ok path) =
    if is_file path disk then (without path disk, ok true) else (disk, ok false)
deleted_at disk (err e) = (disk, err e)

unfoldable pub delete : {C : Type 0} → String → Act (Disk C) Bool
delete name disk = deleted_at disk (path_for name)

unfoldable pub exists : {C : Type 0} → Disk C → String → Result Bool
exists disk name = do path ← path_for name; ok (is_file path disk)

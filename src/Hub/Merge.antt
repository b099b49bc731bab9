-- ===== src/Hub/Merge.antt =====
-- `merge_snapshot` of src/dual_tmux/hub.py.
mod Copy
unfoldable pub use Copy.*
use Prim.Native.Nat.Ordering.{gt}
use Prim.Native.String.{compare, slice, len}
use dual_tmux.Prelude.{
  ℕ, String, ◌+◌, ◌-◌, Bool, not, ◌&&◌, ◌||◌, ◌<>◌, max, Option, none, some, List, [], ◌∷◌, ◌++◌,
  starts_with,
}
use dual_tmux.Prelude.{
  if◌then◌else◌, ltb, leb, nat_beq, ◌==◌, string_eq, nonempty, contains, distinct, is_some, select,
}
use dual_tmux.Hub.Files.{File, Dir, get, set, names}

abbrev ends_with : String → String → Bool
ends_with name suffix = slice name (len name - len suffix) (len name) == suffix

-- `glob("dt-*.json")` and `glob("run_*.cmd")`
unfoldable pub is_tunnel_name : String → Bool
is_tunnel_name name = starts_with name "dt-" && ends_with name ".json"

unfoldable pub is_entry_name : String → Bool
is_entry_name name = starts_with name "run_" && ends_with name ".cmd"

unfoldable pub insert : String → List String → List String
insert x [] = x ∷ []
insert x (y ∷ ys) = let rest = insert x ys in elim (compare x y) [ gt ↦ y ∷ rest | _ ↦ x ∷ y ∷ ys ]

unfoldable pub sorted : List String → List String
unfolding insert
sorted [] = []
sorted (x ∷ xs) = insert x (sorted xs)

-- One side: the directories of bindings, of launch entries and of tombstones.
pub record Side : Type 0 where
  pub tunnels : Dir
  pub entries : Dir
  pub tombstones : Dir

-- The state of the loop: both sides, `hub_prune` and `owned_entries`.
pub record Merging : Type 0 where
  pub local : Side
  pub hub : Side
  pub hub_prune : List String
  pub owned_entries : List String

-- The four files of one name.
pub record Copies : Type 0 where
  pub local_live : Option File
  pub hub_live : Option File
  pub local_tomb : Option File
  pub hub_tomb : Option File

abbrev pub copies : String → Merging → Copies
copies name m = record {
  local_live = get name m.local.tunnels;
  hub_live = get name m.hub.tunnels;
  local_tomb = get name m.local.tombstones;
  hub_tomb = get name m.hub.tombstones;
}

abbrev pub newest : (File → ℕ) → Option File → Option File → ℕ
newest clock none none = 0
newest clock (some a) none = clock a
newest clock none (some b) = clock b
newest clock (some a) (some b) = max (clock a) (clock b)

-- `list(dict.fromkeys(words))`
unfoldable pub first_of_each : List String → List String
first_of_each [] = []
first_of_each (w ∷ words) = let rest = first_of_each words in w ∷ select (λ v. not (v == w)) rest

abbrev pub tunnel_names : Merging → List String
tunnel_names m = sorted (
    distinct (
      select is_tunnel_name (
        names m.local.tunnels
        ++ names m.hub.tunnels
        ++ names m.local.tombstones
        ++ names m.hub.tombstones)))

abbrev pub orphan_entries : Merging → List String
orphan_entries m = sorted (
    distinct (
      select (λ e. not (contains m.owned_entries e))
        (select is_entry_name (names m.local.entries ++ names m.hub.entries))))

abbrev pub merging : Side → Side → Merging
merging local hub = record { local = local; hub = hub; hub_prune = []; owned_entries = [] }

module _ (reader : Reader) where
  -- `not live_paths or tomb_clock >= live_clock`, when there is a tombstone
  unfoldable pub deletion_wins : Copies → Bool
  unfolding tunnel_time tombstone_time
  deletion_wins c =
      (is_some c.local_tomb || is_some c.hub_tomb)
      && (not (is_some c.local_live || is_some c.hub_live)
          || leb (newest (tunnel_time reader) c.local_live c.hub_live)
              (newest (tombstone_time reader) c.local_tomb c.hub_tomb))

  -- `max(tomb_paths, key=_tombstone_time)` takes the first of the newest.
  unfoldable pub newest_tomb : Option File → Option File → Option File
  unfolding tombstone_time
  newest_tomb none none = none
  newest_tomb (some a) none = some a
  newest_tomb none (some b) = some b
  newest_tomb (some a) (some b) =
      if ltb (tombstone_time reader a) (tombstone_time reader b) then some b else some a

  abbrev pub run_of : Option File → String
  run_of none = ""
  run_of (some f) = reader.run f.bytes

  abbrev entry_of : String → String
  entry_of run = run <> ".cmd"

  abbrev pub without_entry : String → Dir → Dir
  without_entry run entries = if nonempty run then set (entry_of run) none entries else entries

  abbrev pruned_live : String → Option File → List String
  pruned_live name none = []
  pruned_live name (some f) =
      ("tunnels/" <> name)
      ∷ (if nonempty (reader.run f.bytes)
          then ("entries/" <> entry_of (reader.run f.bytes)) ∷ []
          else [])

  -- Deletion wins: the live copies go on both sides, and the newest tombstone is copied.
  unfoldable pub delete_name : String → Merging → Merging
  unfolding newest_tomb
  delete_name name m =
      let c = copies name m in
      let tomb = newest_tomb c.local_tomb c.hub_tomb in
      record m {
        local = record {
          tunnels = set name none m.local.tunnels;
          entries = without_entry (run_of c.local_live) m.local.entries;
          tombstones = set name tomb m.local.tombstones;
        };
        hub = record {
          tunnels = set name none m.hub.tunnels;
          entries = without_entry (run_of c.hub_live) m.hub.entries;
          tombstones = set name tomb m.hub.tombstones;
        };
        hub_prune = m.hub_prune ++ pruned_live name c.hub_live;
      }

  abbrev pub winner_file : Copied → Option File
  winner_file c = elim c.winner [ left ↦ c.left_file | right ↦ c.right_file ]

  abbrev preferred_entries : Winner → Option File → Option File → Option File × Option File
  preferred_entries left l h = copy_preferred reader l h
  preferred_entries right l h = let (a, b) = copy_preferred reader h l in (b, a)

  abbrev pub keep_entry : Winner → String → Merging → Merging
  keep_entry w run m =
      if nonempty run
      then (let entry = entry_of run in
          let (l, h) = preferred_entries w (get entry m.local.entries) (get entry m.hub.entries) in
          record m {
            local = record m.local { entries = set entry l m.local.entries };
            hub = record m.hub { entries = set entry h m.hub.entries };
            owned_entries = m.owned_entries ++ (entry ∷ []);
          })
      else m

  abbrev pruned_tomb : String → Option File → List String
  pruned_tomb name none = []
  pruned_tomb name (some f) = ("tombstones/" <> name) ∷ []

  -- A live record that outranks the tombstones, or that has none.
  unfoldable pub keep_name : String → Merging → Merging
  unfolding copy_newer copy_preferred
  keep_name name m =
      let c = copies name m in
      let q = copy_newer reader (tunnel_time reader) c.local_live c.hub_live in
      keep_entry q.winner (run_of (winner_file q)) (record m {
        local = record m.local {
          tunnels = set name q.left_file m.local.tunnels;
          tombstones = set name none m.local.tombstones;
        };
        hub = record m.hub {
          tunnels = set name q.right_file m.hub.tunnels;
          tombstones = set name none m.hub.tombstones;
        };
        hub_prune = m.hub_prune ++ pruned_tomb name c.hub_tomb;
      })

  -- One round of the loop over the names.
  unfoldable pub merge_name : String → Merging → Merging
  unfolding deletion_wins delete_name keep_name
  merge_name name m = if deletion_wins (copies name m) then delete_name name m else keep_name name m

  unfoldable pub merge_names : List String → Merging → Merging
  unfolding merge_name
  merge_names [] m = m
  merge_names (name ∷ rest) m = merge_names rest (merge_name name m)

  -- The loop over the entries that no binding owns.
  unfoldable pub merge_entries : List String → Merging → Merging
  unfolding copy_newer
  merge_entries [] m = m
  merge_entries (entry ∷ rest) m =
      let q =
        copy_newer reader (λ f. f.mtime) (get entry m.local.entries) (get entry m.hub.entries) in
      merge_entries rest (record m {
        local = record m.local { entries = set entry q.left_file m.local.entries };
        hub = record m.hub { entries = set entry q.right_file m.hub.entries };
      })

  abbrev pub merge_orphans : Merging → Merging
  merge_orphans m = merge_entries (orphan_entries m) m

  -- The two sides after the merge, and the paths that the caller must remove from the hub. Without
  -- tombstone directories, those of the sides are empty.
  unfoldable pub merge_snapshot : Side → Side → Merging
  unfolding merge_names merge_entries sorted distinct is_tunnel_name is_entry_name first_of_each
  merge_snapshot local hub =
      let start = merging local hub in
      let m = merge_orphans (merge_names (tunnel_names start) start) in
      record m { hub_prune = first_of_each m.hub_prune }

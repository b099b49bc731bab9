-- ===== src/Hub/Local.antt =====
-- `apply_local_tombstones` of src/dual_tmux/hub.py: the same decision on one side, after a pull.
use Prim.Native.String.{slice, len}
use dual_tmux.Prelude.{
  String, ◌-◌, ◌≡◌, refl, sym, ◌∙◌, ap, inl, inr, Bool, true, false, Option, none, some, List, [],
  ◌∷◌, ◌++◌, ◌||◌, arith, Bool-cases, eq_iff,
}
use dual_tmux.Prelude.{if◌then◌else◌, ◌==◌, string_eq, leb, contains, distinct, select}
use dual_tmux.Hub.Files.{File, get, set, names, get-set}
use dual_tmux.Hub.Merge.{
  Reader, Side, Copies, copies, tunnel_time, tombstone_time, deletion_wins, newest_tomb, sorted,
  is_tunnel_name, merging, without_entry,
}
use dual_tmux.Hub.Step.{bytes_of, resolved}
use dual_tmux.Hub.Snapshot.{contains-sorted, contains-distinct, contains-select, get-unlisted}

-- The side, and the names whose records were dropped.
pub record Applied : Type 0 where
  pub side : Side
  pub applied : List String

abbrev pub stem : String → String
stem name = slice name 0 (len name - len ".json")

module _ (reader : Reader) where
  abbrev decided : String → File → File → Applied → Applied
  decided name tomb live a =
      if leb (tunnel_time reader live) (tombstone_time reader tomb)
      then record {
        side = record a.side {
          tunnels = set name none a.side.tunnels;
          entries = without_entry reader (reader.run live.bytes) a.side.entries;
        };
        applied = a.applied ++ (stem name ∷ []);
      }
      else record a { side = record a.side { tombstones = set name none a.side.tombstones } }

  abbrev pub by_files : String → Option File → Option File → Applied → Applied
  by_files name none live a = a
  by_files name (some tomb) none a = a
  by_files name (some tomb) (some live) a = decided name tomb live a

  -- One round of the loop.
  unfoldable pub apply_tombstone : String → Applied → Applied
  unfolding tunnel_time tombstone_time
  apply_tombstone name a = by_files name (get name a.side.tombstones) (get name a.side.tunnels) a

  unfoldable pub apply_tombstones : List String → Applied → Applied
  unfolding apply_tombstone
  apply_tombstones [] a = a
  apply_tombstones (name ∷ rest) a = apply_tombstones rest (apply_tombstone name a)

  abbrev pub tombstone_names : Side → List String
  tombstone_names side = sorted (distinct (select is_tunnel_name (names side.tombstones)))

  unfoldable pub apply_local_tombstones : Side → Applied
  unfolding apply_tombstones sorted distinct is_tunnel_name
  apply_local_tombstones side =
      apply_tombstones (tombstone_names side) (record { side = side; applied = [] })

  abbrev pub nothing : Side
  nothing = record { tunnels = []; entries = []; tombstones = [] }

  -- The record and the tombstone of a name.
  abbrev pub pair_of : String → Side → Option File × Option File
  pair_of k side = (get k side.tunnels, get k side.tombstones)

  abbrev pub alone : Option File × Option File → Copies
  alone (live, tomb) = record {
    local_live = live;
    hub_live = none;
    local_tomb = tomb;
    hub_tomb = none;
  }

  -- The decision on the two files of one name.
  abbrev pub settled : Option File × Option File → Option File × Option File
  settled (none, tomb) = (none, tomb)
  settled (some f, none) = (some f, none)
  settled (some f, some t) =
      if leb (tunnel_time reader f) (tombstone_time reader t)
      then (none, some t)
      else (some f, none)

  settled-resolved :
      (p : Option File × Option File)
      → (bytes_of (settled p).0, bytes_of (settled p).1) ≡ resolved reader (alone p)
  unfolding resolved deletion_wins newest_tomb
  settled-resolved (none, none) = refl
  settled-resolved (none, some t) = refl
  settled-resolved (some f, none) = refl
  settled-resolved (some f, some t) = ground arith

  settled-settled : (p : Option File × Option File) → settled (settled p) ≡ settled p
  settled-settled (none, tomb) = refl
  settled-settled (some f, none) = refl
  settled-settled (some f, some t) = ground arith

  pair_of-by_files :
      (name k : String) (tomb live : Option File) (a : Applied)
      → get name a.side.tombstones ≡ tomb
      → get name a.side.tunnels ≡ live
      → pair_of k (by_files name tomb live a).side
        ≡ (if name == k then settled (pair_of k a.side) else pair_of k a.side)
  pair_of-by_files name k none live a p q = ground (arith, eq_iff name k)
  pair_of-by_files name k (some tomb) none a p q = ground (arith, eq_iff name k)
  pair_of-by_files name k (some tomb) (some live) a p q = ground (
    arith,
    eq_iff name k,
    get-set name k none a.side.tunnels,
    get-set name k none a.side.tombstones,
  )

  pair_of-apply_tombstones :
      (ns : List String) (k : String) (a : Applied)
      → pair_of k (apply_tombstones ns a).side
        ≡ (if contains ns k then settled (pair_of k a.side) else pair_of k a.side)
  unfolding apply_tombstones apply_tombstone
  pair_of-apply_tombstones [] k a = refl
  pair_of-apply_tombstones (n ∷ ns) k a =
      let b = apply_tombstone n a in
      let step : pair_of k b.side
          ≡ (if n == k then settled (pair_of k a.side) else pair_of k a.side) =
        pair_of-by_files n k (get n a.side.tombstones) (get n a.side.tunnels) a refl refl in
      pair_of-apply_tombstones ns k b
      ∙ ap (λ p. if contains ns k then settled p else p) step
      ∙ by_tests (n == k) (contains ns k) (pair_of k a.side)
    where
      by_tests :
          (s t : Bool) (p : Option File × Option File)
          → (let q = if s then settled p else p in if t then settled q else q)
            ≡ (if s || t then settled p else p)
      by_tests true true p = settled-settled p
      by_tests true false p = refl
      by_tests false t p = refl

  untombed : (live tomb : Option File) → tomb ≡ none → settled (live, tomb) ≡ (live, tomb)
  untombed none tomb h = refl
  untombed (some f) none h = refl
  untombed (some f) (some t) h = cc

  -- After a pull, `apply_local_tombstones` makes of every name of the form `dt-*.json` what a merge
  -- with an empty hub would make of it: the record goes if the tombstone is at least as new, and
  -- otherwise the tombstone goes.
  pub apply_local_tombstones-resolved :
      (side : Side) (k : String)
      → is_tunnel_name k ≡ true
      → let s = (apply_local_tombstones side).side in
        (bytes_of (get k s.tunnels), bytes_of (get k s.tombstones))
        ≡ resolved reader (copies k (merging side nothing))
  unfolding apply_local_tombstones get
  apply_local_tombstones-resolved side k h =
      let p = pair_of k side in
      let listed = tombstone_names side in
      let same = pair_of-apply_tombstones listed k (record { side = side; applied = [] }) in
      let done : (if contains listed k then settled p else p) ≡ settled p =
        elim (Bool-cases (contains listed k)) [
          | inl e ↦ rw e refl
          | inr e ↦ rw e (
              sym (
                untombed (get k side.tunnels) (get k side.tombstones)
                  (get-unlisted k side.tombstones (sym (listed_as k side h) ∙ e))))
        ] in
      ap (λ q. (bytes_of q.0, bytes_of q.1)) (same ∙ done) ∙ settled-resolved p
    where
      listed_as :
          (j : String) (s : Side)
          → is_tunnel_name j ≡ true
          → contains (tombstone_names s) j ≡ contains (names s.tombstones) j
      listed_as j s g =
          contains-sorted j _ ∙ contains-distinct j _ ∙ contains-select is_tunnel_name j _ g

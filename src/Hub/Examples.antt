-- ===== src/Hub/Examples.antt =====
-- A merge of two sides: one name is updated, another is deleted.
use dual_tmux.Prelude.{sym, ap, ◌∙◌, Option, String, ℕ, arith, ◌≡◌, refl, none, some, [], ◌∷◌}
use dual_tmux.Prelude.{if◌then◌else◌, ◌==◌, string_eq}
use dual_tmux.Hub.Files.{File, get}
use dual_tmux.Hub.Merge.{
  Reader, Side, Copies, copies, is_tunnel_name, deletion_wins, newest_tomb, is_newer, merging,
  merge_snapshot,
}
use dual_tmux.Hub.Local.{apply_local_tombstones, nothing, apply_local_tombstones-resolved}
use dual_tmux.Hub.Step.{bytes_of, resolved, Agrees}
use dual_tmux.Hub.Ranks.{IsLatest}
use dual_tmux.Hub.Latest.{merge_snapshot-IsLatest}
use dual_tmux.Hub.Order.{merge_snapshot-swapped}

-- The bytes of a file are its own name in these examples.
abbrev reader : Reader
reader = record {
  updated_at = λ b. if b == "old" then some 10 else if b == "new" then some 20 else none;
  deleted_at = λ b. if b == "gone" then some 15 else none;
  run = λ b. if b == "new" then "run_x" else "";
  digest = λ b. if b == "old" then 1 else 2;
}

abbrev local_side : Side
local_side = record {
  tunnels =
      ("dt-x.json", record { bytes = "old"; mtime = 1 })
      ∷ ("dt-y.json", record { bytes = "old"; mtime = 2 })
      ∷ [];
  entries = [];
  tombstones = [];
}

abbrev hub_side : Side
hub_side = record {
  tunnels = ("dt-x.json", record { bytes = "new"; mtime = 3 }) ∷ [];
  entries = ("run_x.cmd", record { bytes = "dt enter"; mtime = 3 }) ∷ [];
  tombstones = ("dt-y.json", record { bytes = "gone"; mtime = 4 }) ∷ [];
}

merge_snapshot-IsLatest_example :
    (live : Option String) × (tomb : Option String) × Agrees
      (copies "dt-y.json" (merge_snapshot reader local_side hub_side))
      live
      tomb
    × IsLatest reader (copies "dt-y.json" (merging local_side hub_side)) live tomb
merge_snapshot-IsLatest_example =
    merge_snapshot-IsLatest reader local_side hub_side "dt-y.json" (unfold is_tunnel_name in refl)

resolved_deleted :
    resolved reader (copies "dt-y.json" (merging local_side hub_side)) ≡ (none, some "gone")
unfolding resolved get deletion_wins newest_tomb
resolved_deleted = refl

resolved_updated :
    resolved reader (copies "dt-x.json" (merging local_side hub_side)) ≡ (some "new", none)
unfolding resolved get deletion_wins is_newer
resolved_updated = refl

abbrev deletion : Copies
deletion = record {
  local_live = some (record { bytes = "old"; mtime = 2 });
  hub_live = none;
  local_tomb = none;
  hub_tomb = some (record { bytes = "gone"; mtime = 4 });
}

abbrev content : Option File → String
content none = ""
content (some f) = f.bytes

collision_free :
    (a b : File)
    → get "dt-x.json" local_side.tunnels ≡ some a
    → get "dt-x.json" hub_side.tunnels ≡ some b
    → reader.digest a.bytes ≡ reader.digest b.bytes
    → a.bytes ≡ b.bytes
unfolding get
collision_free a b p q r =
    let x : "old" ≡ a.bytes = ap content p in
    let y : "new" ≡ b.bytes = ap content q in
    absurd (one_ne_two (ap reader.digest x ∙ r ∙ sym (ap reader.digest y)))
  where
    one_ne_two : ¬ (◌≡◌ {A = ℕ} 1 2)
    one_ne_two h = omega arith

merge_snapshot-swapped_example :
    Agrees
      (copies "dt-x.json" (merge_snapshot reader hub_side local_side))
      (resolved reader (copies "dt-x.json" (merging local_side hub_side))).0
      (resolved reader (copies "dt-x.json" (merging local_side hub_side))).1
merge_snapshot-swapped_example =
    merge_snapshot-swapped reader local_side hub_side "dt-x.json" (unfold is_tunnel_name in refl)
      collision_free (λ a b p q r. unfold get in cc)

abbrev pulled : Side
pulled = record {
  tunnels =
      ("dt-x.json", record { bytes = "new"; mtime = 1 })
      ∷ ("dt-y.json", record { bytes = "old"; mtime = 2 })
      ∷ [];
  entries = [];
  tombstones =
      ("dt-y.json", record { bytes = "gone"; mtime = 4 })
      ∷ ("dt-x.json", record { bytes = "gone"; mtime = 4 })
      ∷ [];
}

apply_local_tombstones-resolved_example :
    let s = (apply_local_tombstones reader pulled).side in
    (bytes_of (get "dt-y.json" s.tunnels), bytes_of (get "dt-y.json" s.tombstones))
    ≡ resolved reader (copies "dt-y.json" (merging pulled (nothing reader)))
apply_local_tombstones-resolved_example =
    apply_local_tombstones-resolved reader pulled "dt-y.json" (unfold is_tunnel_name in refl)

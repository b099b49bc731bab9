-- ===== src/Hub/Latest.antt =====
-- What a merge keeps of each name, by the clocks of the files alone.
use dual_tmux.Prelude.{
  ℕ, ◌≤◌, ◌<◌, ◌≡◌, refl, inl, inr, Bool, true, false, ◌||◌, Bool-cases, Option, none, String,
  arith,
}
use dual_tmux.Prelude.{is_some}
use dual_tmux.Hub.Merge.{
  Reader, Side, Copies, copies, newest, newest_tomb, tunnel_time, tombstone_time, deletion_wins,
  is_tunnel_name, merging, merge_snapshot,
}
use dual_tmux.Hub.Step.{bytes_of, newest_live, resolved, Agrees}
use dual_tmux.Hub.Snapshot.{merge_snapshot-Agrees}
use dual_tmux.Hub.Ranks.{
  IsLatest, newest_live-Best, newest_tomb-BestTomb, newest-below, newest-before, newest-none,
}

module _ (reader : Reader) (c : Copies) where
  abbrev has_live : Bool
  has_live = is_some c.local_live || is_some c.hub_live

  abbrev has_tomb : Bool
  has_tomb = is_some c.local_tomb || is_some c.hub_tomb

  abbrev live_time : ℕ
  live_time = newest (tunnel_time reader) c.local_live c.hub_live

  abbrev tomb_time : ℕ
  tomb_time = newest (tombstone_time reader) c.local_tomb c.hub_tomb

  deleted-IsLatest :
      has_tomb ≡ true
      → live_time ≤ tomb_time
      → IsLatest reader c none (bytes_of (newest_tomb reader c.local_tomb c.hub_tomb))
  deleted-IsLatest some_tomb h =
      let t = newest_tomb-BestTomb reader c.local_tomb c.hub_tomb some_tomb in
      let (a, b) =
        newest-below (tunnel_time reader) c.local_live c.hub_live (tombstone_time reader t.file)
          (omega (arith, t.time)) in
      rw t.bytes (
        t.file,
        record {
          source = t.source;
          over_local = t.over_local;
          over_hub = t.over_hub;
          after_local = a;
          after_hub = b;
        },
        refl,
      )

  kept-IsLatest :
      has_live ≡ true
      → (has_tomb ≡ true → tomb_time < live_time)
      → IsLatest reader c (newest_live reader c.local_live c.hub_live) none
  kept-IsLatest some_live h =
      let f = newest_live-Best reader c.local_live c.hub_live some_live in
      let (a, b) =
        newest-before (tombstone_time reader) c.local_tomb c.hub_tomb (tunnel_time reader f.file)
          (λ e. let before = h e in omega (arith, f.time)) in
      rw f.bytes (
        f.file,
        record {
          source = f.source;
          over_local = f.over_local;
          over_hub = f.over_hub;
          after_local = a;
          after_hub = b;
        },
        refl,
      )

  absent-IsLatest :
      has_live ≡ false
      → has_tomb ≡ false
      → IsLatest reader c (newest_live reader c.local_live c.hub_live) none
  absent-IsLatest no_live no_tomb =
      let (x, l, r) = newest-none (tunnel_time reader) c.local_live c.hub_live no_live in
      let (y, a, b) = newest-none (tombstone_time reader) c.local_tomb c.hub_tomb no_tomb in
      rw (l, r) (refl, refl, a, b)

  resolved-IsLatest : IsLatest reader c (resolved reader c).0 (resolved reader c).1
  unfolding resolved deletion_wins
  resolved-IsLatest = elim (Bool-cases (deletion_wins reader c)) [
    | inl e ↦
        let wins : (has_tomb ≡ true) × (live_time ≤ tomb_time) = elim (Bool-cases has_live) [
          | inl l ↦ (ground arith, ground arith)
          | inr l ↦
              let none_there = newest-none (tunnel_time reader) c.local_live c.hub_live l in
              (ground arith, omega (arith, none_there.0))
        ] in
        rw e (deleted-IsLatest wins.0 wins.1)
    | inr e ↦ rw e (elim (Bool-cases has_live) [
      | inl l ↦ kept-IsLatest l (λ t. ground arith)
      | inr l ↦ absent-IsLatest l (ground arith)
    ])
  ]

-- For every name of the form `dt-*.json`, after a merge both sides have the same record and the same
-- tombstone, and not both. A record stays only if its time is after those of all tombstones and no
-- other record has a later time or, at the same time, a greater digest; a tombstone only if its time
-- is the latest of the tombstones and no record has a later one; and nothing only if there was no
-- file of the name.
pub merge_snapshot-IsLatest :
    (reader : Reader) (local hub : Side) (k : String)
    → is_tunnel_name k ≡ true
    → (live : Option String) × (tomb : Option String) × Agrees
        (copies k (merge_snapshot reader local hub))
        live
        tomb
      × IsLatest reader (copies k (merging local hub)) live tomb
merge_snapshot-IsLatest reader local hub k h =
    let c = copies k (merging local hub) in
    (
      (resolved reader c).0,
      (resolved reader c).1,
      merge_snapshot-Agrees reader local hub k h,
      resolved-IsLatest reader c,
    )

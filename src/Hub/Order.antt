-- ===== src/Hub/Order.antt =====
-- When a deletion wins, and that the sides of a merge can be exchanged.
use dual_tmux.Prelude.{
  ℕ, String, ◌≡◌, ◌≤◌, ◌↔◌, refl, ap, ◌⊎◌, inl, inr, true, false, Option, none, some, arith,
  Bool-cases,
}
use mathlib.Core.Path.{subst}
use dual_tmux.Prelude.{leb, is_some, ◌||◌}
use dual_tmux.Hub.Files.{File}
use dual_tmux.Hub.Merge.{
  Reader, Side, Copies, copies, tunnel_time, tombstone_time, is_newer, deletion_wins, newest,
  newest_tomb, is_tunnel_name, merging, merge_snapshot,
}
use dual_tmux.Hub.Step.{bytes_of, newest_live, resolved, Agrees}
use dual_tmux.Hub.Snapshot.{merge_snapshot-Agrees}

abbrev pub swapped : Copies → Copies
swapped c = record {
  local_live = c.hub_live;
  hub_live = c.local_live;
  local_tomb = c.hub_tomb;
  hub_tomb = c.local_tomb;
}

module _ (reader : Reader) where
  -- One of the files is a tombstone at least as new as every live record.
  abbrev pub IsOutranked : Copies → Type 0
  IsOutranked c =
      (t : File) × ((c.local_tomb ≡ some t) ⊎ (c.hub_tomb ≡ some t))
      × ((f : File)
          → (c.local_live ≡ some f) ⊎ (c.hub_live ≡ some f)
          → tunnel_time reader f ≤ tombstone_time reader t)

  newest-swap : (clock : File → ℕ) (a b : Option File) → newest clock a b ≡ newest clock b a
  newest-swap clock none none = refl
  newest-swap clock none (some b) = refl
  newest-swap clock (some a) none = refl
  newest-swap clock (some a) (some b) = ground arith

  deletion_wins-swapped : (c : Copies) → deletion_wins reader (swapped c) ≡ deletion_wins reader c
  unfolding deletion_wins
  deletion_wins-swapped c = ground (
    arith,
    newest-swap (tunnel_time reader) c.local_live c.hub_live,
    newest-swap (tombstone_time reader) c.local_tomb c.hub_tomb,
  )

  newest_live-swap :
      (l r : Option File)
      → ((a b : File)
          → l ≡ some a
          → r ≡ some b
          → reader.digest a.bytes ≡ reader.digest b.bytes
          → a.bytes ≡ b.bytes)
      → newest_live reader r l ≡ newest_live reader l r
  unfolding is_newer
  newest_live-swap none none h = refl
  newest_live-swap none (some r) h = refl
  newest_live-swap (some l) none h = refl
  newest_live-swap (some l) (some r) h = ground (arith, h l r refl refl)

  newest_tomb-swap :
      (l r : Option File)
      → ((a b : File)
          → l ≡ some a
          → r ≡ some b
          → tombstone_time reader a ≡ tombstone_time reader b
          → a.bytes ≡ b.bytes)
      → bytes_of (newest_tomb reader r l) ≡ bytes_of (newest_tomb reader l r)
  unfolding newest_tomb
  newest_tomb-swap none none h = refl
  newest_tomb-swap none (some r) h = refl
  newest_tomb-swap (some l) none h = refl
  newest_tomb-swap (some l) (some r) h = ground (arith, h l r refl refl)

  -- `max` over the paths, from either side.
  bounded :
      (clock : File → ℕ) (a b : Option File) (bound : ℕ)
      → newest clock a b ≤ bound
      → (f : File) → (a ≡ some f) ⊎ (b ≡ some f)
      → clock f ≤ bound
  bounded clock none none bound h f e = ground arith
  bounded clock none (some b) bound h f e = ground (arith, ap clock)
  bounded clock (some a) none bound h f e = ground (arith, ap clock)
  bounded clock (some a) (some b) bound h f e = ground (arith, ap clock)

  bounds :
      (clock : File → ℕ) (a b : Option File) (bound : ℕ)
      → ((f : File) → (a ≡ some f) ⊎ (b ≡ some f) → clock f ≤ bound)
      → newest clock a b ≤ bound
  bounds clock none none bound h = omega arith
  bounds clock none (some b) bound h = h b (inr refl)
  bounds clock (some a) none bound h = h a (inl refl)
  bounds clock (some a) (some b) bound h =
      let p = h a (inl refl) in let q = h b (inr refl) in ground arith

  newest-none :
      (clock : File → ℕ) (a b : Option File)
      → (is_some a || is_some b) ≡ false
      → newest clock a b ≡ 0
  newest-none clock none none h = refl
  newest-none clock (some a) b h = cc
  newest-none clock none (some b) h = cc

  newest_at :
      (clock : File → ℕ) (a b : Option File)
      → (is_some a || is_some b) ≡ true
      → (t : File) × ((a ≡ some t) ⊎ (b ≡ some t)) × (newest clock a b ≤ clock t)
  newest_at clock none none h = cc
  newest_at clock (some a) none h = (a, inl refl, omega arith)
  newest_at clock none (some b) h = (b, inr refl, omega arith)
  newest_at clock (some a) (some b) h = elim (Bool-cases (leb (clock a) (clock b))) [
    | inl e ↦ (b, inr refl, ground arith)
    | inr e ↦ (a, inl refl, ground arith)
  ]

  exists_of :
      (a b : Option File) (t : File) → (a ≡ some t) ⊎ (b ≡ some t) → (is_some a || is_some b) ≡ true
  exists_of a b t (inl e) = rw e refl
  exists_of none b t (inr e) = rw e refl
  exists_of (some a) b t (inr e) = refl

  deletion_wins-newest :
      (c : Copies)
      → (deletion_wins reader c ≡ true)
        ↔ ((is_some c.local_tomb || is_some c.hub_tomb) ≡ true)
          × (newest (tunnel_time reader) c.local_live c.hub_live
              ≤ newest (tombstone_time reader) c.local_tomb c.hub_tomb)
  unfolding deletion_wins
  deletion_wins-newest c = ground (arith, newest-none (tunnel_time reader) c.local_live c.hub_live)

  -- The merge deletes a name exactly if one of its tombstones is at least as new as each of its live
  -- records, which includes a tombstone without a live record.
  pub deletion_wins_iff : (c : Copies) → (deletion_wins reader c ≡ true) ↔ IsOutranked c
  deletion_wins_iff c =
      let iff = deletion_wins-newest c in
      let tombs = newest (tombstone_time reader) c.local_tomb c.hub_tomb in
      (
        (λ h.
            let (there, le) = iff.0 h in
            let (t, at, top) = newest_at (tombstone_time reader) c.local_tomb c.hub_tomb there in
            (
              t,
              at,
              λ f e.
                  let b = bounded (tunnel_time reader) c.local_live c.hub_live tombs le f e in
                  omega arith,
            )),
        (λ (t, at, all). iff.1 (
          exists_of c.local_tomb c.hub_tomb t at,
          (let b =
                bounds (tunnel_time reader) c.local_live c.hub_live (tombstone_time reader t) all in
              let d =
                bounded (tombstone_time reader) c.local_tomb c.hub_tomb tombs (omega arith) t at in
              omega arith),
        )),
      )

  resolved-swapped :
      (c : Copies)
      → ((a b : File)
          → c.local_live ≡ some a
          → c.hub_live ≡ some b
          → reader.digest a.bytes ≡ reader.digest b.bytes
          → a.bytes ≡ b.bytes)
      → ((a b : File)
          → c.local_tomb ≡ some a
          → c.hub_tomb ≡ some b
          → tombstone_time reader a ≡ tombstone_time reader b
          → a.bytes ≡ b.bytes)
      → resolved reader (swapped c) ≡ resolved reader c
  unfolding resolved
  resolved-swapped c h g = rw (deletion_wins-swapped c) (
      rw (newest_live-swap c.local_live c.hub_live h)
        (rw (newest_tomb-swap c.local_tomb c.hub_tomb g) refl))

  -- Which side calls itself local does not matter: for a name of the form `dt-*.json` whose two live
  -- records do not collide under the digest, and whose two tombstones differ in time or are equal,
  -- the merge of the exchanged sides leaves the same record and the same tombstone.
  pub merge_snapshot-swapped :
      (local hub : Side) (k : String)
      → is_tunnel_name k ≡ true
      → let c = copies k (merging local hub) in
        ((a b : File)
          → c.local_live ≡ some a
          → c.hub_live ≡ some b
          → reader.digest a.bytes ≡ reader.digest b.bytes
          → a.bytes ≡ b.bytes)
        → ((a b : File)
            → c.local_tomb ≡ some a
            → c.hub_tomb ≡ some b
            → tombstone_time reader a ≡ tombstone_time reader b
            → a.bytes ≡ b.bytes)
        → Agrees
            (copies k (merge_snapshot reader hub local))
            (resolved reader c).0
            (resolved reader c).1
  merge_snapshot-swapped local hub k h p q =
      let c = copies k (merging local hub) in
      subst (λ r. Agrees (copies k (merge_snapshot reader hub local)) r.0 r.1)
        (resolved-swapped c p q) (merge_snapshot-Agrees reader hub local k h)

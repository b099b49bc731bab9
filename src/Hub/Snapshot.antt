-- ===== src/Hub/Snapshot.antt =====
-- The whole merge: which names it visits, and what it leaves of each.
use dual_tmux.Prelude.{
  String, ◌≡◌, refl, sym, ◌∙◌, ap, inl, inr, Bool, true, false, none, List, [], ◌∷◌, ◌++◌, ◌||◌,
  arith, Bool-cases, eq_iff,
}
use dual_tmux.Prelude.{◌==◌, string_eq, contains, distinct, select}
use dual_tmux.Hub.Files.{Dir, get, names}
use dual_tmux.Hub.Merge.{
  Reader, Side, Merging, copies, sorted, insert, is_tunnel_name, merge_names, tunnel_names, merging,
  merge_snapshot, orphan_entries,
}
use dual_tmux.Hub.Step.{bytes_of, resolved, Agrees, resolved-Agrees}
use dual_tmux.Hub.Converge.{merge_names-Agrees, merge_names-Resolves, copies-merge_entries}

contains-insert :
    (x k : String) (ys : List String) → contains (insert x ys) k ≡ (x == k || contains ys k)
unfolding insert
contains-insert x k [] = refl
contains-insert x k (y ∷ ys) = ground (arith, contains-insert x k ys)

pub contains-sorted : (k : String) (xs : List String) → contains (sorted xs) k ≡ contains xs k
unfolding sorted
contains-sorted k [] = refl
contains-sorted k (x ∷ xs) = ground (arith, contains-insert x k (sorted xs), contains-sorted k xs)

pub contains-distinct : (k : String) (xs : List String) → contains (distinct xs) k ≡ contains xs k
unfolding distinct
contains-distinct k [] = refl
contains-distinct k (x ∷ xs) = ground (arith, contains-distinct k xs, eq_iff x k)

pub contains-select :
    (p : String → Bool) (k : String) (xs : List String)
    → p k ≡ true
    → contains (select p xs) k ≡ contains xs k
unfolding select
contains-select p k [] h = refl
contains-select p k (x ∷ xs) h = ground (arith, contains-select p k xs h, eq_iff x k)

contains-append :
    (k : String) (xs ys : List String) → contains (xs ++ ys) k ≡ (contains xs k || contains ys k)
contains-append k [] ys = refl
contains-append k (x ∷ xs) ys = ground (arith, contains-append k xs ys)

pub get-unlisted : (k : String) (d : Dir) → contains (names d) k ≡ false → get k d ≡ none
unfolding get
get-unlisted k [] h = refl
get-unlisted k ((j, f) ∷ d) h = ground (arith, get-unlisted k d)

contains-tunnel_names :
    (k : String) (m : Merging)
    → is_tunnel_name k ≡ true
    → contains (tunnel_names m) k ≡ (
        contains (names m.local.tunnels) k
        || contains (names m.hub.tunnels) k
        || contains (names m.local.tombstones) k
        || contains (names m.hub.tombstones) k)
contains-tunnel_names k m h = rw contains-sorted (
    rw contains-distinct (
      rw (contains-select is_tunnel_name k _ h)
        (rw contains-append (rw contains-append (rw contains-append refl)))))

first_of :
    (a b c d : Bool)
    → (a || b || c || d) ≡ false
    → (a ≡ false) × (b ≡ false) × (c ≡ false) × (d ≡ false)
first_of a b c d h = ground arith

-- A name that the loop does not visit has no file.
unlisted-Agrees :
    (k : String) (m : Merging)
    → is_tunnel_name k ≡ true
    → contains (tunnel_names m) k ≡ false
    → Agrees (copies k m) none none
unlisted-Agrees k m h e =
    let (a, b, c, d) = first_of _ _ _ _ (sym (contains-tunnel_names k m h) ∙ e) in
    record {
      local_live = ap bytes_of (get-unlisted k m.local.tunnels a);
      hub_live = ap bytes_of (get-unlisted k m.hub.tunnels b);
      local_tomb = ap bytes_of (get-unlisted k m.local.tombstones c);
      hub_tomb = ap bytes_of (get-unlisted k m.hub.tombstones d);
      one = inl refl;
    }

module _ (reader : Reader) where
  copies-merge_snapshot :
      (local hub : Side) (k : String)
      → copies k (merge_snapshot reader local hub)
        ≡ copies k (merge_names reader (tunnel_names (merging local hub)) (merging local hub))
  unfolding merge_snapshot
  copies-merge_snapshot local hub k =
      copies-merge_entries reader
        (orphan_entries (merge_names reader (tunnel_names (merging local hub)) (merging local hub)))
        k _

  -- For every name of the form `dt-*.json`, after a merge both sides have the same record and the
  -- same tombstone, and not both: the newest tombstone if there is one and no live record has a
  -- later time, and otherwise the live record with the later time and, at the same time, the
  -- greater digest.
  pub merge_snapshot-Agrees :
      (local hub : Side) (k : String)
      → is_tunnel_name k ≡ true
      → Agrees
          (copies k (merge_snapshot reader local hub))
          (resolved reader (copies k (merging local hub))).0
          (resolved reader (copies k (merging local hub))).1
  merge_snapshot-Agrees local hub k h =
      let m = merging local hub in
      rw (copies-merge_snapshot local hub k) (elim (Bool-cases (contains (tunnel_names m) k)) [
        | inl e ↦ merge_names-Resolves reader (tunnel_names m) k m e
        | inr e ↦
            let gone = unlisted-Agrees k m h e in
            rw (resolved-Agrees reader (copies k m) none none gone)
              (merge_names-Agrees reader (tunnel_names m) k m none none gone)
      ])

-- ===== src/Hub/Step.antt =====
-- What one round of the merge does to the four files of a name.
use mathlib.Core.Path.{ap₂}
use dual_tmux.Prelude.{
  ◌&&◌, ◌||◌, String, ◌≡◌, refl, sym, ◌∙◌, ◌⊎◌, inl, inr, Bool, true, false, Option, none, some,
  arith, Bool-cases, eq_iff,
}
use dual_tmux.Prelude.{if◌then◌else◌, ◌==◌, string_eq, nonempty, is_some}
use dual_tmux.Hub.Files.{File, get, get-set}
use dual_tmux.Hub.Merge.{
  Reader, tunnel_time, is_newer, copy_newer, Merging, Copies, copies, deletion_wins, newest_tomb,
  delete_name, keep_entry, keep_name, merge_name, Winner, winner_file, run_of,
}

abbrev pub bytes_of : Option File → Option String
bytes_of none = none
bytes_of (some f) = some f.bytes

module _ (reader : Reader) where
  -- The live record with the greater clock and digest.
  abbrev pub newest_live : Option File → Option File → Option String
  newest_live none r = bytes_of r
  newest_live (some l) none = some l.bytes
  newest_live (some l) (some r) =
      if is_newer reader (tunnel_time reader) l r then some r.bytes else some l.bytes

  -- What a merge should make of a name: the record that stays, and the tombstone that stays.
  unfoldable pub resolved : Copies → Option String × Option String
  resolved c =
      if deletion_wins reader c
      then (none, bytes_of (newest_tomb reader c.local_tomb c.hub_tomb))
      else (newest_live c.local_live c.hub_live, none)

  abbrev pub deleted : Copies → Copies
  deleted c =
      let tomb = newest_tomb reader c.local_tomb c.hub_tomb in
      record { local_live = none; hub_live = none; local_tomb = tomb; hub_tomb = tomb }

  abbrev pub kept : Copies → Copies
  kept c =
      let q = copy_newer reader (tunnel_time reader) c.local_live c.hub_live in
      record {
        local_live = q.left_file;
        hub_live = q.right_file;
        local_tomb = none;
        hub_tomb = none;
      }

  abbrev pub after : Copies → Copies
  after c = if deletion_wins reader c then deleted c else kept c

  abbrev pub at_name : String → String → Copies → Copies → Copies
  at_name name k new old = if name == k then new else old

  copies-keep_entry :
      (k : String) (w : Winner) (run : String) (m : Merging)
      → copies k (keep_entry reader w run m) ≡ copies k m
  copies-keep_entry k w run m = elim (Bool-cases (nonempty run)) [
    | inl e ↦ rw e refl
    | inr e ↦ rw e refl
  ]

  copies-delete_name :
      (name k : String) (m : Merging)
      → copies k (delete_name reader name m) ≡ at_name name k (deleted (copies name m)) (copies k m)
  unfolding delete_name
  copies-delete_name name k m = ground (
    arith,
    get-set name k none m.local.tunnels,
    get-set name k none m.hub.tunnels,
    get-set name k (newest_tomb reader (get name m.local.tombstones) (get name m.hub.tombstones))
        m.local.tombstones,
    get-set name k (newest_tomb reader (get name m.local.tombstones) (get name m.hub.tombstones))
        m.hub.tombstones,
  )

  copies-keep_name :
      (name k : String) (m : Merging)
      → copies k (keep_name reader name m) ≡ at_name name k (kept (copies name m)) (copies k m)
  unfolding keep_name
  copies-keep_name name k m =
      let c = copies name m in
      let q = copy_newer reader (tunnel_time reader) c.local_live c.hub_live in
      copies-keep_entry k q.winner (run_of reader (winner_file reader q)) _
      ∙ ground (
        arith,
        get-set name k q.left_file m.local.tunnels,
        get-set name k q.right_file m.hub.tunnels,
        get-set name k none m.local.tombstones,
        get-set name k none m.hub.tombstones,
      )

  -- A round changes the files of its name only.
  pub copies-merge_name :
      (name k : String) (m : Merging)
      → copies k (merge_name reader name m) ≡ at_name name k (after (copies k m)) (copies k m)
  unfolding merge_name
  copies-merge_name name k m =
      ground (arith, copies-delete_name name k m, copies-keep_name name k m, eq_iff name k)

-- The two sides have the same record and the same tombstone, and not both.
pub record Agrees (c : Copies) (live tomb : Option String) : Type 0 where
  pub local_live : bytes_of c.local_live ≡ live
  pub hub_live : bytes_of c.hub_live ≡ live
  pub local_tomb : bytes_of c.local_tomb ≡ tomb
  pub hub_tomb : bytes_of c.hub_tomb ≡ tomb
  pub one : (live ≡ none) ⊎ (tomb ≡ none)

-- `copy_newer` leaves one content on both sides.
copy_newer-left :
    (reader : Reader) (l r : Option File)
    → bytes_of (copy_newer reader (tunnel_time reader) l r).left_file ≡ newest_live reader l r
unfolding copy_newer
copy_newer-left reader none none = refl
copy_newer-left reader none (some r) = refl
copy_newer-left reader (some l) none = refl
copy_newer-left reader (some l) (some r) = ground (arith, eq_iff l.bytes r.bytes)

copy_newer-right :
    (reader : Reader) (l r : Option File)
    → bytes_of (copy_newer reader (tunnel_time reader) l r).right_file ≡ newest_live reader l r
unfolding copy_newer
copy_newer-right reader none none = refl
copy_newer-right reader none (some r) = refl
copy_newer-right reader (some l) none = refl
copy_newer-right reader (some l) (some r) = ground (arith, eq_iff l.bytes r.bytes)

module _ (reader : Reader) where
  pub after-Agrees :
      (c : Copies) → Agrees (after reader c) (resolved reader c).0 (resolved reader c).1
  unfolding resolved
  after-Agrees c = elim (Bool-cases (deletion_wins reader c)) [
    | inl e ↦ rw e (record {
      local_live = refl;
      hub_live = refl;
      local_tomb = refl;
      hub_tomb = refl;
      one = inl refl;
    })
    | inr e ↦ rw e (record {
      local_live = copy_newer-left reader c.local_live c.hub_live;
      hub_live = copy_newer-right reader c.local_live c.hub_live;
      local_tomb = refl;
      hub_tomb = refl;
      one = inr refl;
    })
  ]

  newest_live-same :
      (l r : Option File) (live : Option String)
      → bytes_of l ≡ live
      → bytes_of r ≡ live
      → newest_live reader l r ≡ live
  newest_live-same none r live p q = q
  newest_live-same (some l) none live p q = p
  newest_live-same (some l) (some r) live p q = ground arith

  newest_tomb-same :
      (l r : Option File) (tomb : Option String)
      → bytes_of l ≡ tomb
      → bytes_of r ≡ tomb
      → bytes_of (newest_tomb reader l r) ≡ tomb
  unfolding newest_tomb
  newest_tomb-same none none tomb p q = p
  newest_tomb-same none (some r) tomb p q = q
  newest_tomb-same (some l) none tomb p q = p
  newest_tomb-same (some l) (some r) tomb p q = ground arith

  bytes_of-none : (f : Option File) → bytes_of f ≡ none → f ≡ none
  bytes_of-none none h = refl
  bytes_of-none (some f) h = cc

  no_tomb : (c : Copies) → c.local_tomb ≡ none → c.hub_tomb ≡ none → deletion_wins reader c ≡ false
  unfolding deletion_wins
  no_tomb c p q = rw p (rw q refl)

  no_live :
      (c : Copies)
      → c.local_live ≡ none
      → c.hub_live ≡ none
      → deletion_wins reader c ≡ (is_some c.local_tomb || is_some c.hub_tomb)
  unfolding deletion_wins
  no_live c p q = rw p (rw q (and_true (is_some c.local_tomb || is_some c.hub_tomb)))
    where
      and_true : (b : Bool) → (b && true) ≡ b
      and_true true = refl
      and_true false = refl

  neither : (l r : Option File) → (is_some l || is_some r) ≡ false → bytes_of l ≡ none
  neither none r h = refl
  neither (some l) r h = cc

  -- Sides that agree are settled: another round keeps their contents.
  pub resolved-Agrees :
      (c : Copies) (live tomb : Option String)
      → Agrees c live tomb
      → resolved reader c ≡ (live, tomb)
  unfolding resolved
  resolved-Agrees c live tomb h =
      let a = newest_live-same c.local_live c.hub_live live h.local_live h.hub_live in
      let b = newest_tomb-same c.local_tomb c.hub_tomb tomb h.local_tomb h.hub_tomb in
      elim h.one [
        | inr gone ↦
            let e =
              no_tomb c (bytes_of-none c.local_tomb (h.local_tomb ∙ gone))
                (bytes_of-none c.hub_tomb (h.hub_tomb ∙ gone)) in
            rw e (rw a (rw gone refl))
        | inl gone ↦
            let e =
              no_live c (bytes_of-none c.local_live (h.local_live ∙ gone))
                (bytes_of-none c.hub_live (h.hub_live ∙ gone)) in
            elim (Bool-cases (is_some c.local_tomb || is_some c.hub_tomb)) [
              | inl some_tomb ↦ rw (e ∙ some_tomb) (rw b (rw gone refl))
              | inr no_tomb ↦ rw (e ∙ no_tomb) (
                  ap₂ (λ x y. (x, y)) a
                    (sym (neither c.local_tomb c.hub_tomb no_tomb) ∙ h.local_tomb))
            ]
      ]

-- ===== src/Hub/Ranks.antt =====
-- Which of the files of a name is the latest, by the clocks of the files alone.
use dual_tmux.Prelude.{
  ℕ, ◌≤◌, ◌<◌, ◌≡◌, refl, ◌⊎◌, inl, inr, true, false, ◌||◌, Bool-cases, Option, none, some, String,
  arith,
}
use dual_tmux.Prelude.{ltb, is_some}
use dual_tmux.Hub.Files.{File}
use dual_tmux.Hub.Merge.{Reader, Copies, newest, newest_tomb, tunnel_time, tombstone_time, is_newer}
use dual_tmux.Hub.Step.{bytes_of, newest_live}

-- The predicate holds of the file, if there is one.
abbrev pub IfAny : (File → Type 0) → Option File → Type 0
IfAny P none = Unit
IfAny P (some f) = P f

abbrev pub OneOf : File → Option File → Option File → Type 0
OneOf f l r = (l ≡ some f) ⊎ (r ≡ some f)

module _ (reader : Reader) where
  -- `f` has a later time than `g`, or the same time and a digest that is not less.
  abbrev pub Outranks : File → File → Type 0
  Outranks f g =
      (tunnel_time reader g < tunnel_time reader f)
      ⊎ ((tunnel_time reader g ≡ tunnel_time reader f)
          × (reader.digest g.bytes ≤ reader.digest f.bytes))

  -- A live record that is the latest of both, and later than each tombstone.
  pub record IsLive (c : Copies) (f : File) : Type 0 where
    pub source : OneOf f c.local_live c.hub_live
    pub over_local : IfAny (λ g. Outranks f g) c.local_live
    pub over_hub : IfAny (λ g. Outranks f g) c.hub_live
    pub after_local : IfAny (λ t. tombstone_time reader t < tunnel_time reader f) c.local_tomb
    pub after_hub : IfAny (λ t. tombstone_time reader t < tunnel_time reader f) c.hub_tomb

  -- A tombstone that is the latest of both, and no live record is later.
  pub record IsTomb (c : Copies) (t : File) : Type 0 where
    pub source : OneOf t c.local_tomb c.hub_tomb
    pub over_local : IfAny (λ u. tombstone_time reader u ≤ tombstone_time reader t) c.local_tomb
    pub over_hub : IfAny (λ u. tombstone_time reader u ≤ tombstone_time reader t) c.hub_tomb
    pub after_local : IfAny (λ g. tunnel_time reader g ≤ tombstone_time reader t) c.local_live
    pub after_hub : IfAny (λ g. tunnel_time reader g ≤ tombstone_time reader t) c.hub_live

  -- What a name with these files should become: nothing only if there is no file at all.
  abbrev pub IsLatest : Copies → Option String → Option String → Type 0
  IsLatest c none none =
      (c.local_live ≡ none) × (c.hub_live ≡ none) × (c.local_tomb ≡ none) × (c.hub_tomb ≡ none)
  IsLatest c (some b) none = (f : File) × IsLive c f × (f.bytes ≡ b)
  IsLatest c none (some b) = (t : File) × IsTomb c t × (t.bytes ≡ b)
  IsLatest c (some a) (some b) = ⊥

  -- The latest of two live records, with what its clock shows.
  pub record Best (l r : Option File) (best : Option String) (latest : ℕ) : Type 0 where
    pub file : File
    pub bytes : best ≡ some file.bytes
    pub source : OneOf file l r
    pub over_local : IfAny (λ g. Outranks file g) l
    pub over_hub : IfAny (λ g. Outranks file g) r
    pub time : latest ≡ tunnel_time reader file

  pub newest_live-Best :
      (l r : Option File)
      → (is_some l || is_some r) ≡ true
      → Best l r (newest_live reader l r) (newest (tunnel_time reader) l r)
  unfolding is_newer
  newest_live-Best none none h = cc
  newest_live-Best none (some r) h = record {
    file = r;
    bytes = refl;
    source = inr refl;
    over_local = tt;
    over_hub = inr (refl, omega arith);
    time = refl;
  }
  newest_live-Best (some l) none h = record {
    file = l;
    bytes = refl;
    source = inl refl;
    over_local = inr (refl, omega arith);
    over_hub = tt;
    time = refl;
  }
  newest_live-Best (some l) (some r) h =
      elim (Bool-cases (is_newer reader (tunnel_time reader) l r)) [
        | inl e ↦ record {
          file = r;
          bytes = rw e refl;
          source = inr refl;
          over_local = ground arith;
          over_hub = inr (refl, omega arith);
          time = ground arith;
        }
        | inr e ↦ record {
          file = l;
          bytes = rw e refl;
          source = inl refl;
          over_local = inr (refl, omega arith);
          over_hub = ground arith;
          time = ground arith;
        }
      ]

  -- The latest of two tombstones.
  pub record BestTomb (l r : Option File) (best : Option String) (latest : ℕ) : Type 0 where
    pub file : File
    pub bytes : best ≡ some file.bytes
    pub source : OneOf file l r
    pub over_local : IfAny (λ u. tombstone_time reader u ≤ tombstone_time reader file) l
    pub over_hub : IfAny (λ u. tombstone_time reader u ≤ tombstone_time reader file) r
    pub time : latest ≡ tombstone_time reader file

  pub newest_tomb-BestTomb :
      (l r : Option File)
      → (is_some l || is_some r) ≡ true
      → BestTomb l r (bytes_of (newest_tomb reader l r)) (newest (tombstone_time reader) l r)
  unfolding newest_tomb
  newest_tomb-BestTomb none none h = cc
  newest_tomb-BestTomb none (some r) h = record {
    file = r;
    bytes = refl;
    source = inr refl;
    over_local = tt;
    over_hub = omega arith;
    time = refl;
  }
  newest_tomb-BestTomb (some l) none h = record {
    file = l;
    bytes = refl;
    source = inl refl;
    over_local = omega arith;
    over_hub = tt;
    time = refl;
  }
  newest_tomb-BestTomb (some l) (some r) h =
      elim (Bool-cases (ltb (tombstone_time reader l) (tombstone_time reader r))) [
        | inl e ↦ record {
          file = r;
          bytes = rw e refl;
          source = inr refl;
          over_local = ground arith;
          over_hub = omega arith;
          time = ground arith;
        }
        | inr e ↦ record {
          file = l;
          bytes = rw e refl;
          source = inl refl;
          over_local = omega arith;
          over_hub = ground arith;
          time = ground arith;
        }
      ]

-- The newest time bounds both files.
pub newest-below :
    (clock : File → ℕ) (l r : Option File) (n : ℕ)
    → newest clock l r ≤ n
    → IfAny (λ g. clock g ≤ n) l × IfAny (λ g. clock g ≤ n) r
newest-below clock none none n h = (tt, tt)
newest-below clock none (some r) n h = (tt, h)
newest-below clock (some l) none n h = (h, tt)
newest-below clock (some l) (some r) n h = (ground arith, ground arith)

pub newest-before :
    (clock : File → ℕ) (l r : Option File) (n : ℕ)
    → ((is_some l || is_some r) ≡ true → newest clock l r < n)
    → IfAny (λ g. clock g < n) l × IfAny (λ g. clock g < n) r
newest-before clock none none n h = (tt, tt)
newest-before clock none (some r) n h = (tt, h refl)
newest-before clock (some l) none n h = (h refl, tt)
newest-before clock (some l) (some r) n h = let b = h refl in (ground arith, ground arith)

pub newest-none :
    (clock : File → ℕ) (l r : Option File)
    → (is_some l || is_some r) ≡ false
    → (newest clock l r ≡ 0) × (l ≡ none) × (r ≡ none)
newest-none clock none none h = (refl, refl, refl)
newest-none clock none (some r) h = cc
newest-none clock (some l) r h = cc

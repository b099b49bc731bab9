-- ===== src/Service/Pruned.antt =====
-- What `prune` of `AtomicResumeStateStore` leaves.
use dual_tmux.Prelude.{All}
use dual_tmux.Prelude.{
  zero, suc, ◌<◌, ℕ, String, ◌≡◌, refl, ◌∙◌, ap, inl, inr, some, none, [], ◌∷◌, arith, eq_iff,
  Bool-cases,
}
use dual_tmux.Prelude.{◌==◌, string_eq, ltb, beq_refl}
use dual_tmux.Fsm.Store
use dual_tmux.Service.Snapshots.{
  SnapshotFile, Files, Disk, System, file_of, load, save, place, newest_first, prune,
}
use dual_tmux.Service.Atomic.{IsReliable, save-written}

module _ {C : Type 0} where
  abbrev Older : ℕ → String × SnapshotFile C → Type 0
  Older t x = x.1.mtime < t

  All-place :
      (t : ℕ) (x : String × SnapshotFile C) (d : Files C)
      → Older t x
      → All (Older t) d
      → All (Older t) (place x d)
  unfolding place
  All-place t x [] h hs = (h, tt)
  All-place t x (y ∷ d) h (g, gs) = elim (Bool-cases (ltb x.1.mtime y.1.mtime)) [
    | inl e ↦ rw e (g, All-place t x d h gs)
    | inr e ↦ rw e (h, (g, gs))
  ]

  All-newest_first : (t : ℕ) (d : Files C) → All (Older t) d → All (Older t) (newest_first d)
  unfolding newest_first
  All-newest_first t [] h = tt
  All-newest_first t (x ∷ d) (h, hs) = All-place t x (newest_first d) h (All-newest_first t d hs)

  place_newest :
      (x : String × SnapshotFile C) (d : Files C) → All (Older x.1.mtime) d → place x d ≡ x ∷ d
  unfolding place
  place_newest x [] h = refl
  place_newest x (y ∷ d) (h, hs) = ground arith

  -- A file that is newer than all others comes first, wherever it was put.
  newest_first-put :
      (key : String) (f : SnapshotFile C) (d : Files C)
      → All (Older f.mtime) d
      → (rest : Files C) × (newest_first (Store.put key f d) ≡ (key, f) ∷ rest)
  unfolding newest_first Store.put
  newest_first-put key f [] h = ([], unfold place in refl)
  newest_first-put key f ((j, g) ∷ d) (h, hs) = elim (Bool-cases (j == key)) [
    | inl e ↦ (
      newest_first d,
      rw e (
          place_newest (j, f) _ (All-newest_first f.mtime d hs)
          ∙ ap (λ n. (n, f) ∷ newest_first d) ((eq_iff j key).0 e)),
    )
    | inr e ↦
        let (rest, same) = newest_first-put key f d hs in
        (place (j, g) rest, rw e (rw same (unfold place in ground arith)))
  ]

-- After a `save` that returned and whose file has a time later than those of all other snapshots, a
-- `prune` that keeps at least one file leaves the snapshot, and it is loaded as it was saved.
pub load-prune :
    {C V : Type 0} (sys : System C V) (h : IsReliable sys) (keep : ℕ) (key : String) (value : V)
    (d : Disk C)
    → 0 < keep
    → All (λ x. x.1.mtime < sys.stamp d.files) d.files
    → (save sys key value d).1 ≡ none
    → load sys key (prune keep (save sys key value d).0) ≡ some value
unfolding load prune Store.get
load-prune sys h zero key value d keeps older returned = absurd (omega arith)
load-prune sys h (suc keep) key value d keeps older returned =
    let (rest, same) =
      newest_first-put (sys.digest key) (file_of sys (sys.dumps value) d) d.files older in
    rw (save-written sys h key value d returned)
      (rw same (rw (beq_refl (sys.digest key)) (h.loads-dumps value)))

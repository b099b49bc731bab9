-- ===== src/Service/Atomic.antt =====
-- A `save` of `AtomicResumeStateStore` does all or nothing.
use mathlib.Core.Path.{subst}
use dual_tmux.Prelude.{
  ℕ, String, ◌≡◌, refl, sym, ◌∙◌, ap, ◌⊎◌, inl, inr, false, Option, none, some, [], ◌∷◌, eq_iff,
  Bool-cases, arith, All, select,
}
use dual_tmux.Prelude.{◌==◌, string_eq, if◌then◌else◌}
use dual_tmux.Prelude.Result.{Exn}
use dual_tmux.Fsm.Store.{IsLawful}
use dual_tmux.Fsm.Store
use dual_tmux.Service.Snapshots.{
  SnapshotFile, Temps, Disk, mkdir, mkstemp, dump, fsync, replace, unlink, System, Outcome, finally,
  moved, synced, called, next, has_name, drop_temp, find_temp, write_temp, file_of, filled, opened,
  save, load, atomic_store,
}

-- What the store relies on: no two keys have one digest, what is dumped is loaded again, `mkstemp`
-- chooses a name that no file has, and a temporary file can be removed.
pub record IsReliable {C V : Type 0} (sys : System C V) : Type 0 where
  pub collision_free : (k j : String) → sys.digest k ≡ sys.digest j → k ≡ j
  pub loads-dumps : (v : V) → sys.loads (sys.dumps v) ≡ some v
  pub new : (temps : Temps C) → All (λ x. has_name (sys.fresh temps) x ≡ false) temps
  pub removable : (d : Disk C) → sys.fault unlink d ≡ none

module _ {C : Type 0} where
  drop_temp-new :
      (t : ℕ) (temps : Temps C) → All (λ x. has_name t x ≡ false) temps → drop_temp t temps ≡ temps
  unfolding drop_temp select
  drop_temp-new t [] h = refl
  drop_temp-new t (x ∷ temps) (h, hs) = ground (arith, drop_temp-new t temps hs)

  find_temp-new :
      (t : ℕ) (temps : Temps C) → All (λ x. has_name t x ≡ false) temps → find_temp t temps ≡ none
  unfolding find_temp
  find_temp-new t [] h = refl
  find_temp-new t ((k, f) ∷ temps) (h, hs) = rw h (find_temp-new t temps hs)

  drop_temp-head :
      (t : ℕ) (f : SnapshotFile C) (temps : Temps C)
      → drop_temp t ((t, f) ∷ temps) ≡ drop_temp t temps
  unfolding drop_temp select
  drop_temp-head t f temps = ground arith

  find_temp-head :
      (t : ℕ) (f : SnapshotFile C) (temps : Temps C) → find_temp t ((t, f) ∷ temps) ≡ some f
  unfolding find_temp
  find_temp-head t f temps = ground arith

  call_ends :
      (P : Outcome C → Type 0) (o : Option Exn) (after failed : Disk C)
      → P (after, none)
      → ((x : Exn) → P (failed, some x))
      → P (called o after failed)
  call_ends P none after failed p q = p
  call_ends P (some x) after failed p q = q x

  call_goes_on :
      (P : Outcome C → Type 0) (o : Option Exn) (after failed : Disk C) (more : Disk C → Outcome C)
      → P (more after)
      → ((x : Exn) → P (failed, some x))
      → P (next (called o after failed) more)
  call_goes_on P none after failed more p q = p
  call_goes_on P (some x) after failed more p q = q x

module _ {C V : Type 0} (sys : System C V) where
  -- The disk after a `save` that returned.
  abbrev pub written : String → V → Disk C → Disk C
  written key value d = record d {
    files = Store.put (sys.digest key) (file_of sys (sys.dumps value) d) d.files;
  }

  module _ (h : IsReliable sys) (key : String) (value : V) (d : Disk C) where
    abbrev t : ℕ
    t = sys.fresh d.temps

    -- All or nothing.
    abbrev Whole : Disk C × Option Exn → Type 0
    Whole p = (p ≡ (written key value d, none)) ⊎ ((e : Exn) × (p ≡ (d, some e)))

    -- The disk with the temporary file.
    abbrev began : SnapshotFile C → Disk C
    began f = record d { temps = (t, f) ∷ d.temps }

    drop-began : (f : SnapshotFile C) → drop_temp t ((t, f) ∷ d.temps) ≡ d.temps
    drop-began f = drop_temp-head t f d.temps ∙ drop_temp-new t d.temps (h.new d.temps)

    write_temp-new : (f : SnapshotFile C) → write_temp t f d ≡ began f
    write_temp-new f =
        ap (λ (x : Temps C). record d { temps = (t, f) ∷ x })
          (drop_temp-new t d.temps (h.new d.temps))

    write_temp-began : (f g : SnapshotFile C) → write_temp t g (began f) ≡ began g
    write_temp-began f g = ap (λ (x : Temps C). record d { temps = (t, g) ∷ x }) (drop-began f)

    finally-raised : (f : SnapshotFile C) (e : Exn) → finally sys t (began f, some e) ≡ (d, some e)
    finally-raised f e =
        rw (find_temp-head t f d.temps, finally)
          (rw (h.removable (began f))
            (ap (λ (x : Temps C). (record d { temps = x }, some e)) (drop-began f)))

    finally-written : finally sys t (written key value d, none) ≡ (written key value d, none)
    finally-written = rw (find_temp-new t d.temps (h.new d.temps), finally) refl

    abbrev full : SnapshotFile C
    full = file_of sys (sys.dumps value) d

    raised : (f : SnapshotFile C) (x : Exn) → Whole (finally sys t (began f, some x))
    raised f x = inr (x, finally-raised f x)

    moved-Whole : Whole (finally sys t (moved sys t (sys.digest key) (began full)))
    moved-Whole =
        rw (find_temp-head t full d.temps, moved)
          (call_ends (λ (p : Outcome C). Whole (finally sys t p)) (sys.fault replace (began full)) _
            _ (inl (rw (drop-began full) finally-written)) (raised full))

    synced-Whole :
        Whole (finally sys t (next (synced sys (began full)) (moved sys t (sys.digest key))))
    synced-Whole =
        call_goes_on (λ (p : Outcome C). Whole (finally sys t p)) (sys.fault fsync (began full)) _ _
          (moved sys t (sys.digest key)) moved-Whole (raised full)

    filled-Whole : (f : SnapshotFile C) → Whole (filled sys key value t (began f))
    filled-Whole f =
        let torn = file_of sys (sys.torn (sys.dumps value)) d in
        call_goes_on
          (λ (p : Outcome C). Whole (finally sys t (next p (moved sys t (sys.digest key)))))
          (sys.fault dump (began f)) _ _ (synced sys)
          (subst
            (λ (x : Disk C).
              Whole (finally sys t (next (synced sys x) (moved sys t (sys.digest key)))))
            (sym (write_temp-began f full)) synced-Whole)
          (λ x.
            subst (λ (y : Disk C). Whole (finally sys t (y, some x)))
              (sym (write_temp-began f torn)) (raised torn x))

    opened-Whole : Whole (opened sys key value d)
    opened-Whole =
        let empty = file_of sys sys.blank d in
        call_goes_on Whole (sys.fault mkstemp d) _ _ (filled sys key value t)
          (subst (λ (x : Disk C). Whole (filled sys key value t x)) (sym (write_temp-new empty))
            (filled-Whole empty))
          (λ x. inr (x, refl))

    pub save-Whole : Whole (save sys key value d)
    unfolding save
    save-Whole =
        call_goes_on Whole (sys.fault mkdir d) d d (opened sys key value) opened-Whole
          (λ x. inr (x, refl))

  -- A `save` that returned has written its snapshot and nothing else.
  pub save-written :
      (h : IsReliable sys) (key : String) (value : V) (d : Disk C)
      → (save sys key value d).1 ≡ none
      → (save sys key value d).0 ≡ written key value d
  save-written h key value d returned = elim (save-Whole h key value d) [
    | inl e ↦ ap (λ p. p.0) e
    | inr (x, e) ↦ cc
  ]

  save-raised :
      (h : IsReliable sys) (key : String) (value : V) (d : Disk C) (x : Exn)
      → (save sys key value d).1 ≡ some x
      → (save sys key value d).0 ≡ d
  save-raised h key value d x raised = elim (save-Whole h key value d) [
    | inl e ↦ cc
    | inr (y, e) ↦ ap (λ p. p.0) e
  ]

  digest-eq : (h : IsReliable sys) (k j : String) → (sys.digest k == sys.digest j) ≡ (k == j)
  digest-eq h k j = elim (Bool-cases (k == j)) [
    | inl e ↦
        let same = (eq_iff k j).0 e in
        (eq_iff (sys.digest k) (sys.digest j)).1 (ap sys.digest same) ∙ sym e
    | inr e ↦ elim (Bool-cases (sys.digest k == sys.digest j)) [
      | inl f ↦
          absurd (
            cc ((eq_iff k j).1 (h.collision_free k j ((eq_iff (sys.digest k) (sys.digest j)).0 f))))
      | inr f ↦ f ∙ sym e
    ]
  ]

  load-written :
      (h : IsReliable sys) (key : String) (value : V) (d : Disk C) (k : String)
      → load sys k (written key value d) ≡ (if key == k then some value else load sys k d)
  unfolding load
  load-written h key value d k = rw (Store.get-put (sys.digest key) (sys.digest k) _ d.files) (
      rw (digest-eq h key k)
        (elim (Bool-cases (key == k)) [ inl e ↦ rw e (h.loads-dumps value) | inr e ↦ rw e refl ]))

  -- The store keeps the contract of a snapshot store, whatever calls raise and however much of a
  -- text is then written: what a `save` that returned has written is loaded again, other keys are
  -- left alone, and a `save` that raised has left the directory as it was, without its temporary
  -- file. (No two keys have one digest, what is dumped is loaded, `mkstemp` chooses a new name, and
  -- the temporary file can be removed.)
  pub atomic_store-IsLawful : IsReliable sys → IsLawful (atomic_store sys)
  atomic_store-IsLawful h = record {
    load-save = λ key value d returned k.
        ap (load sys k) (save-written h key value d returned) ∙ load-written h key value d k;
    save_failed = save-raised h;
  }

-- ===== src/Service/Snapshots.antt =====
-- `AtomicResumeStateStore` of src/dual_tmux/resume_attempt.py on its directory. The snapshots are the
-- files `*.json`, named by the digest of the key; the files `resume.*.tmp`, whose names never end so,
-- stand apart, named by the number that `mkstemp` has chosen.
use dual_tmux.Prelude.{
  zero, suc, ℕ, String, Bool, not, Option, none, some, List, [], ◌∷◌, ◌<>◌, select,
}
use dual_tmux.Prelude.{if◌then◌else◌, ltb, nat_beq, nonempty}
use dual_tmux.Prelude.Result.{Exn, os_error}
use dual_tmux.Fsm.Store.{StateStore}
use dual_tmux.Fsm.Store
use dual_tmux.Hub.Merge.{sorted}

-- A file with the text `C`.
pub record SnapshotFile (C : Type 0) : Type 0 where
  pub content : C
  pub mtime : ℕ

abbrev pub Files : Type 0 → Type 0
Files C = List (String × SnapshotFile C)

abbrev pub Temps : Type 0 → Type 0
Temps C = List (ℕ × SnapshotFile C)

pub record Disk (C : Type 0) : Type 0 where
  pub files : Files C
  pub temps : Temps C

-- The calls of `save` that may raise `OSError`.
pub data Call : Type 0 where
  mkdir mkstemp dump fsync replace unlink : Call

-- What the store uses of Python: the digest, `json.dump` and `json.loads` (`none` where it raises or
-- answers no object), the text of a file whose writing has failed, the name that `mkstemp` chooses,
-- the exception that a call raises, if any, and the time of a written file.
pub record System (C V : Type 0) : Type 0 where
  pub digest : String → String
  pub dumps : V → C
  pub loads : C → Option V
  pub blank : C
  pub torn : C → C
  pub fresh : Temps C → ℕ
  pub fault : Call → Disk C → Option Exn
  pub stamp : Files C → ℕ

abbrev pub Outcome : Type 0 → Type 0
Outcome C = Disk C × Option Exn

module _ {C : Type 0} where
  abbrev pub has_name : ℕ → ℕ × SnapshotFile C → Bool
  has_name t x = nat_beq x.0 t

  unfoldable pub drop_temp : ℕ → Temps C → Temps C
  drop_temp t temps = select (λ x. not (has_name t x)) temps

  unfoldable pub find_temp : ℕ → Temps C → Option (SnapshotFile C)
  find_temp t [] = none
  find_temp t ((k, f) ∷ temps) = if nat_beq k t then some f else find_temp t temps

  abbrev pub write_temp : ℕ → SnapshotFile C → Disk C → Disk C
  write_temp t f d = record d { temps = (t, f) ∷ drop_temp t d.temps }

  abbrev pub called : Option Exn → Disk C → Disk C → Outcome C
  called none after failed = (after, none)
  called (some e) after failed = (failed, some e)

  -- The next call, unless one has raised.
  abbrev pub next : Outcome C → (Disk C → Outcome C) → Outcome C
  next (d, none) more = more d
  next (d, some e) more = (d, some e)

module _ {C V : Type 0} (sys : System C V) where
  -- A call that leaves `after`, or `failed` and an exception.
  abbrev pub calls : Call → Disk C → Disk C → Disk C → Outcome C
  calls call before after failed = called (sys.fault call before) after failed

  abbrev pub file_of : C → Disk C → SnapshotFile C
  file_of text d = record { content = text; mtime = sys.stamp d.files }

  -- `json.dump` and `flush`
  abbrev dumped : ℕ → C → Disk C → Outcome C
  dumped t text d =
      calls dump d (write_temp t (file_of text d) d) (write_temp t (file_of (sys.torn text) d) d)

  abbrev pub synced : Disk C → Outcome C
  synced d = calls fsync d d d

  -- `os.replace`
  abbrev pub moved : ℕ → String → Disk C → Outcome C
  moved t name d = elim (find_temp t d.temps) [
    | none ↦ (d, some (os_error "No such file or directory"))
    | some f ↦
        calls replace d (record { files = Store.put name f d.files; temps = drop_temp t d.temps }) d
  ]

  -- `finally: temporary.unlink(missing_ok=True)`
  abbrev pub finally : ℕ → Outcome C → Outcome C
  finally t (d, r) = elim (find_temp t d.temps) [
    | none ↦ (d, r)
    | some f ↦ elim (sys.fault unlink d) [
      | none ↦ (record d { temps = drop_temp t d.temps }, r)
      | some e ↦ (d, some e)
    ]
  ]

  abbrev pub filled : String → V → ℕ → Disk C → Outcome C
  filled key value t d =
      finally t (next (next (dumped t (sys.dumps value) d) synced) (moved t (sys.digest key)))

  abbrev pub opened : String → V → Disk C → Outcome C
  opened key value d =
      let t = sys.fresh d.temps in
      next (calls mkstemp d (write_temp t (file_of sys.blank d) d) d) (filled key value t)

  unfoldable pub save : String → V → Disk C → Outcome C
  unfolding Store.put drop_temp find_temp
  save key value d = next (calls mkdir d d d) (opened key value)

  abbrev pub content_of : Option (SnapshotFile C) → Option V
  content_of none = none
  content_of (some f) = sys.loads f.content

  unfoldable pub load : String → Disk C → Option V
  unfolding Store.get
  load key d = content_of (Store.get (sys.digest key) d.files)

  unfoldable pub exists : String → Disk C → Bool
  unfolding Store.exists
  exists key d = Store.exists (sys.digest key) d.files

  unfoldable pub delete : String → Disk C → Disk C × Bool
  unfolding Store.delete
  delete key d =
      let (files, found) = Store.delete (sys.digest key) d.files in
      (record d { files = files }, found)

  abbrev pub atomic_store : StateStore V
  atomic_store = record { State = Disk C; save = save; load = load }

  -- `list_keys`, with the attempt that a snapshot names.
  abbrev named : (V → String) → Option V → String
  named attempt_id none = ""
  named attempt_id (some v) = attempt_id v

  abbrev key_of : String → List String → List String
  key_of id rest = if nonempty id then ("resume:" <> id) ∷ rest else rest

  abbrev keys_of : (V → String) → Files C → List String
  keys_of attempt_id [] = []
  keys_of attempt_id ((name, f) ∷ files) =
      let rest = keys_of attempt_id files in key_of (named attempt_id (sys.loads f.content)) rest

  unfoldable pub list_keys : (V → String) → Disk C → List String
  unfolding sorted
  list_keys attempt_id d = sorted (keys_of attempt_id d.files)

module _ {C : Type 0} where
  -- `sorted(..., key=mtime, reverse=True)`, which keeps the order of equal times.
  unfoldable pub place : String × SnapshotFile C → Files C → Files C
  place x [] = x ∷ []
  place x (y ∷ files) =
      let rest = place x files in if ltb x.1.mtime y.1.mtime then y ∷ rest else x ∷ y ∷ files

  unfoldable pub newest_first : Files C → Files C
  unfolding place
  newest_first [] = []
  newest_first (x ∷ files) = place x (newest_first files)

  -- The files that `prune` leaves; the order of a directory means nothing.
  abbrev pub first_files : ℕ → Files C → Files C
  first_files zero files = []
  first_files (suc n) [] = []
  first_files (suc n) (x ∷ files) = x ∷ first_files n files

  unfoldable pub prune : ℕ → Disk C → Disk C
  unfolding newest_first
  prune keep d = record d { files = first_files keep (newest_first d.files) }

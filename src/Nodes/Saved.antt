-- ===== src/Nodes/Saved.antt =====
-- What the repository saves is what it reads back.
use dual_tmux.Prelude.{
  String, ◌≡◌, refl, true, false, Option, none, some, ◌<>◌, [], ◌∷◌, ◌==◌, string_eq, beq_refl,
  if◌then◌else◌, arith, eq_iff,
}
use dual_tmux.Prelude.Result.{>>=-ok_inv, Result, ok, err, ◌>>=◌}
use dual_tmux.Fsm.Store.{put, get as file, exists as is_file, get-put}
use dual_tmux.Nodes.Json.{Json, null, flag, number, text, array, dict, Dict, get, truthy, is_dict}
use dual_tmux.Nodes.Library.{Library, IsLawful, Codec, IsFaithful}
use dual_tmux.Nodes.Model.{TunnelNode}
use dual_tmux.Nodes.Decode.{from_legacy_tunnel}
use dual_tmux.Nodes.Over.{IsSavable, FitsOver}
use dual_tmux.Nodes.RoundTrip.{from_legacy-to_legacy}
use dual_tmux.Nodes.Resave.{IsDescribed, from_legacy-resaved}
use dual_tmux.Nodes.Repository.{
  Disk, normalize_dt, path_for, read_text, load, decode, get_raw, get_tunnel, project, base_of,
  save, save_raw, and_node,
}

is_file-put :
    {C : Type 0} (key k : String) (c : Result C) (disk : Disk C)
    → is_file k (put key c disk) ≡ (if key == k then true else is_file k disk)
unfolding is_file put
is_file-put key k c [] = refl
is_file-put key k c ((j, v) ∷ disk) =
    ground (arith, is_file-put key k c disk, eq_iff j key, eq_iff j k, eq_iff key k)

and_node-ok :
    {C D : Type 0} (n : TunnelNode D) (p : Disk C × Result String) {path : String}
    → p.1 ≡ ok path
    → and_node n p ≡ (p.0, ok n)
and_node-ok n (disk, ok path) h = refl
and_node-ok n (disk, err e) h = cc

module _ {C D : Type 0} (codec : Codec C) (faithful : IsFaithful codec) (lib : Library D)
    (lawful : IsLawful lib) where
  path_for-normal :
      (name : String) → normalize_dt name ≡ ok name → path_for name ≡ ok (name <> ".json")
  unfolding path_for
  path_for-normal name h = rw h refl

  -- A record that is written under a node's name is read back.
  get-put_record :
      (n : TunnelNode D) (d : Dict) (disk : Disk C)
      → normalize_dt n.name ≡ ok n.name
      → from_legacy_tunnel lib d ≡ ok n
      → get_tunnel codec lib (put (n.name <> ".json") (ok (codec.dumps d)) disk) n.name ≡ ok n
  unfolding get_tunnel get_raw load read_text decode
  get-put_record n d disk named read =
      rw
        (path_for-normal n.name named, is_file-put, get-put, beq_refl (n.name <> ".json"), faithful)
        read

  -- What a successful save leaves: the node under its name, and all other files.
  pub record IsKept (n : TunnelNode D) (before after : Disk C) : Type 0 where
    pub read : get_tunnel codec lib after n.name ≡ ok n
    pub others :
        (path : String) → (n.name <> ".json" == path) ≡ false → file path after ≡ file path before

  save-IsKept :
      (n : TunnelNode D) (base : Option Dict) (disk : Disk C) (raw : Json)
      → normalize_dt n.name ≡ ok n.name
      → base_of codec lib disk (n.name <> ".json") base ≡ ok raw
      → project codec lib n raw >>= from_legacy_tunnel lib ≡ ok n
      → ((save codec lib n base disk).1 ≡ ok (n.name <> ".json"))
        × IsKept n disk (save codec lib n base disk).0
  unfolding save
  save-IsKept n base disk raw named found back =
      let (d, projected, read) = >>=-ok_inv (project codec lib n raw) _ back in
      rw (path_for-normal n.name named, found, projected)
        (
          refl,
          record {
            read = get-put_record n d disk named read;
            others = λ path h. rw get-put (rw h refl);
          },
        )

  -- What the base of a save must be, as it is loaded: none, or a record that does not contradict the
  -- node.
  abbrev pub FitsJson : TunnelNode D → Json → Type 0
  FitsJson n null = Unit
  FitsJson n (dict base) = FitsOver lib n base
  FitsJson n _ = ⊥

  project-back :
      (n : TunnelNode D) (raw : Json)
      → IsSavable lib n
      → FitsJson n raw
      → project codec lib n raw >>= from_legacy_tunnel lib ≡ ok n
  unfolding project
  project-back n null s f = from_legacy-to_legacy lib lawful n none s tt
  project-back n (dict base) s f = from_legacy-to_legacy lib lawful n (some base) s f
  project-back n (flag b) s f = absurd f
  project-back n (number k) s f = absurd f
  project-back n (text t) s f = absurd f
  project-back n (array js) s f = absurd f

  -- A `save` of a valid node with a normal name, over a base or an old file that does not contradict
  -- it, returns the path; the repository then reads the same node under its name, and every other
  -- file is as it was.
  pub save-read :
      (n : TunnelNode D) (base : Option Dict) (disk : Disk C) (raw : Json)
      → normalize_dt n.name ≡ ok n.name
      → base_of codec lib disk (n.name <> ".json") base ≡ ok raw
      → IsSavable lib n
      → FitsJson n raw
      → ((save codec lib n base disk).1 ≡ ok (n.name <> ".json"))
        × IsKept n disk (save codec lib n base disk).0
  save-read n base disk raw named found s f =
      save-IsKept n base disk raw named found (project-back n raw s f)

  -- A `save_raw` of a record that decodes to a node with a normal name, whose runtime is a dict if it
  -- is there at all and whose agent clients are not all empty and have dates that `fromisoformat`
  -- reads as pydantic writes them, returns the node; the repository then
  -- reads the same node under its name, and every other file is as it was.
  pub save_raw-read :
      (d : Dict) (n : TunnelNode D) (disk : Disk C)
      → from_legacy_tunnel lib d ≡ ok n
      → normalize_dt n.name ≡ ok n.name
      → (truthy (get d "runtime") ≡ true → is_dict (get d "runtime") ≡ true)
      → IsDescribed lib n.trigger
      → IsDescribed lib n.bullet
      → ((save_raw codec lib d disk).1 ≡ ok n) × IsKept n disk (save_raw codec lib d disk).0
  unfolding save_raw base_of project
  save_raw-read d n disk read named plain t b =
      let (saved, kept) =
        save-IsKept n (some d) disk (dict d) named refl
          (from_legacy-resaved lib lawful d n read plain t b) in
      rw (read, and_node-ok n (save codec lib n (some d) disk) saved) (refl, kept)

-- ===== src/Nodes/RoundTrip.antt =====
-- A projected node is read back, and a record that is read and projected over itself is read as the
-- same node.
use dual_tmux.Prelude.{
  String, ◌≡◌, refl, sym, ◌∙◌, ap, true, false, Option, none, some, ◌==◌, string_eq, inl, inr, List,
  [], ◌∷◌, contains, All, arith, Bool-cases,
}
use dual_tmux.Prelude.Result.{>>=-ok_inv, ok, ◌>>=◌}
use dual_tmux.Nodes.Json.{
  Json, dict, Dict, empty, get, truthy, is_dict, dict_or_empty, update, get-set, get-set_if,
}
use dual_tmux.Nodes.Library.{Library, IsLawful}
use dual_tmux.Nodes.Model.{TunnelNode, RuntimeEndpointNode, endpoint_fields}
use dual_tmux.Nodes.Decode.{endpoint, from_legacy_tunnel}
use dual_tmux.Nodes.Encode.{runtime_fields, write_runtime, write_over, written, to_legacy_tunnel}
use dual_tmux.Nodes.Endpoint.{endpoint-update}
use dual_tmux.Nodes.Reads.{from_legacy_tunnel_of_Reads}
use dual_tmux.Nodes.Over.{IsSavable, FitsOver, over-Reads, get-write_branch}
use dual_tmux.Nodes.Fresh.{fresh-Reads}

module _ {D : Type 0} (lib : Library D) where
  write_runtime-read :
      (e : RuntimeEndpointNode) (old : Json)
      → endpoint_fields e ≡ true
      → (truthy old ≡ true → is_dict old ≡ true)
      → (r : Dict) × (write_runtime lib e old ≡ ok r) × (endpoint lib (dict r) ≡ ok e)
  unfolding write_runtime
  write_runtime-read e old valid plain = elim (Bool-cases (truthy old)) [
    | inl h ↦ (
      update (runtime_fields lib e) (dict_or_empty old),
      rw (h, plain h) refl,
      endpoint-update lib e (dict_or_empty old) valid,
    )
    | inr h ↦ (update (runtime_fields lib e) empty, rw h refl, endpoint-update lib e empty valid)
  ]

-- What the record below a node must be: none, or one that does not contradict the node.
abbrev pub FitsBase : {D : Type 0} → Library D → TunnelNode D → Option Dict → Type 0
FitsBase lib n none = Unit
FitsBase lib n (some base) = FitsOver lib n base

module _ {D : Type 0} (lib : Library D) (lawful : IsLawful lib) where
  -- A valid node whose identities carry no surrounding blanks, whose agent clients are not all empty
  -- and have dates that `fromisoformat` reads as pydantic writes them, and whose `branched_from` is
  -- not empty is projected to a record, and read back from it as the
  -- same node: from a new record, and from one written over a base that does not contradict it. (A
  -- base contradicts a node if its runtime is a value that is no dict, if it binds a session or has
  -- a client or metadata on a side where the node has none, or if it has no `auto_recover` and the
  -- node's is false.)
  pub from_legacy-to_legacy :
      (n : TunnelNode D) (base : Option Dict)
      → IsSavable lib n
      → FitsBase lib n base
      → to_legacy_tunnel lib n base >>= from_legacy_tunnel lib ≡ ok n
  unfolding to_legacy_tunnel
  from_legacy-to_legacy n none s f =
      let (r, e, h) = write_runtime-read lib n.endpoint (dict empty) s.endpoint (λ g. refl) in
      rw e (from_legacy_tunnel_of_Reads lib _ n (fresh-Reads lib lawful n r s h))
  from_legacy-to_legacy n (some base) s f =
      let (r, e, h) = write_runtime-read lib n.endpoint (get base "runtime") s.endpoint f.runtime in
      rw e (from_legacy_tunnel_of_Reads lib _ n (over-Reads lib lawful n base r s f h))

-- The keys that a node has a field for.
abbrev pub fields_of_tunnel : List String
fields_of_tunnel =
    "name" ∷ "op" ∷ "run" ∷ "runtime" ∷ "trigger" ∷ "bullet" ∷ "client" ∷ "user" ∷ "description"
    ∷ "branched_from" ∷ "updated_at" ∷ "auto_recover" ∷ []

contains-All :
    (keys : List String) (key : String)
    → contains keys key ≡ false
    → All (λ k. (k == key) ≡ false) keys
contains-All [] key h = tt
contains-All (k ∷ keys) key h = (ground (arith), contains-All keys key (ground (arith)))

module _ {D : Type 0} (lib : Library D) (n : TunnelNode D) (base : Dict) where
  get-over_other :
      (r : Dict) (key : String)
      → contains fields_of_tunnel key ≡ false
      → get (written lib n (some base) r) key ≡ get base key
  unfolding write_over
  get-over_other r key h =
      let a = contains-All fields_of_tunnel key h in
      let b = a.1.1.1.1.1.1 in
      simp
        (
          get-write_branch, get-set, get-set_if, a.0, a.1.0, a.1.1.0, a.1.1.1.0, a.1.1.1.1.0,
          a.1.1.1.1.1.0, b.0, b.1.0, b.1.1.0, b.1.1.1.0, b.1.1.1.1.0, b.1.1.1.1.1.0,
        )
        refl

  -- A projection over a record keeps what the record has under every key that a node has no field
  -- for.
  pub get-to_legacy_tunnel :
      (d : Dict) (key : String)
      → to_legacy_tunnel lib n (some base) ≡ ok d
      → contains fields_of_tunnel key ≡ false
      → get d key ≡ get base key
  unfolding to_legacy_tunnel
  get-to_legacy_tunnel d key h other =
      let (r, e, same) = >>=-ok_inv (write_runtime lib n.endpoint (get base "runtime")) _ h in
      let path : written lib n (some base) r ≡ d = cc in
      sym (ap (λ x. get x key) path) ∙ get-over_other r key other

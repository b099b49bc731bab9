-- ===== src/Nodes/Over.antt =====
-- A node that is projected over a record is read back from it.
use dual_tmux.Prelude.{
  String, ◌≡◌, refl, sym, true, false, ◌∙◌, ap, inl, inr, Option, none, some, arith, if◌then◌else◌,
  ◌==◌, string_eq, eq_iff, ◌||◌, nonempty, Bool-cases, is_some,
}
use dual_tmux.Prelude.Result.{ok}
use dual_tmux.Binding.Node.{AgentRole, trigger, bullet}
use dual_tmux.Nodes.Json.{
  Json, null, text, flag, dict, Dict, get, has, dict_or_empty, truthy, is_dict, get-set, get-set_if,
  get-pop, has-set, has-set_if, has-pop, get_of_absent,
}
use dual_tmux.Nodes.Library.{Library, IsLawful, str_or, int_or}
use dual_tmux.Nodes.Model.{
  TunnelNode, RoleBindingNode, RuntimeEndpointNode, local_endpoint, ssh_endpoint, docker_endpoint,
  validate_tunnel, endpoint_fields,
}
use dual_tmux.Nodes.Decode.{
  datetime, binding, endpoint, choose_endpoint, session_id_of, branch_of, recovers,
}
use dual_tmux.Nodes.Encode.{iso, side, write_over, write_branch, names, has_runtime}
use dual_tmux.Nodes.Endpoint.{str_or-text}
use dual_tmux.Nodes.Sides.{IsWritable, Fits, read_binding, datetime-iso}
use dual_tmux.Nodes.Reads.{Reads}
use dual_tmux.Nodes.Belongs.{Belongs, validate_tunnel-Belongs}

module _ {D : Type 0} (lib : Library D) where
  abbrev branch_value : Option String → Json
  branch_value none = null
  branch_value (some s) = if nonempty s then text s else null

  pub get-write_branch :
      (o : Option String) (d : Dict) (key : String)
      → get (write_branch lib o d) key
        ≡ (if "branched_from" == key then branch_value o else get d key)
  unfolding write_branch
  get-write_branch none d key = get-pop "branched_from" key d
  get-write_branch (some s) d key = elim (Bool-cases (nonempty s)) [
    | inl h ↦ rw h (get-set "branched_from" key (text s) d)
    | inr h ↦ rw h (get-pop "branched_from" key d)
  ]

  pub has-write_branch :
      (o : Option String) (d : Dict) (key : String)
      → ("branched_from" == key) ≡ false
      → has (write_branch lib o d) key ≡ has d key
  unfolding write_branch
  has-write_branch none d key h = ground (arith, has-pop "branched_from" key d)
  has-write_branch (some s) d key h =
      ground (arith, has-pop "branched_from" key d, has-set "branched_from" key (text s) d)

  datetime-null : datetime lib null ≡ ok none
  unfolding datetime
  datetime-null = refl

  str_or-null : str_or lib "" null ≡ ""
  unfolding str_or
  str_or-null = refl

  -- A field that is written if the node or the record has it.
  read_optional :
      (s key : String) (base : Dict)
      → str_or lib "" (if nonempty s || has base key then text s else get base key) ≡ s
  read_optional s key base = elim (Bool-cases (nonempty s || has base key)) [
    | inl h ↦ rw h (str_or-text lib s)
    | inr h ↦
        let gone : has base key ≡ false = ground (arith) in
        let blank : s ≡ "" = ground (arith, eq_iff s "") in
        rw (h, get_of_absent key base gone) (str_or-null ∙ sym blank)
  ]

-- What a dict must be where the node has no binding to write: without a session.
abbrev pub SideFits : {D : Type 0} → Library D → Option (RoleBindingNode D) → Dict → Type 0
SideFits lib none old = session_id_of lib old ≡ ""
SideFits lib (some b) old = Fits lib b old

-- What must hold of a node: its own validators, and those of its parts.
pub record IsSavable {D : Type 0} (lib : Library D) (n : TunnelNode D) : Type 0 where
  pub valid : validate_tunnel lib n ≡ ok n
  pub endpoint : endpoint_fields n.endpoint ≡ true
  pub trigger : (b : RoleBindingNode D) → n.trigger ≡ some b → IsWritable lib b
  pub bullet : (b : RoleBindingNode D) → n.bullet ≡ some b → IsWritable lib b
  pub branched_from : (s : String) → n.branched_from ≡ some s → nonempty s ≡ true

-- What must hold of the record below it: what the projection keeps does not contradict the node.
pub record FitsOver {D : Type 0} (lib : Library D) (n : TunnelNode D) (base : Dict) : Type 0 where
  pub runtime : truthy (get base "runtime") ≡ true → is_dict (get base "runtime") ≡ true
  pub trigger : SideFits lib n.trigger (dict_or_empty (get base "trigger"))
  pub bullet : SideFits lib n.bullet (dict_or_empty (get base "bullet"))
  pub auto_recover : n.auto_recover ≡ false → has base "auto_recover" ≡ true

module _ {D : Type 0} (lib : Library D) (lawful : IsLawful lib) where
  pub binding-none :
      (raw : Json) (role : AgentRole) (name : String)
      → session_id_of lib (dict_or_empty raw) ≡ ""
      → binding lib raw role name ≡ ok none
  unfolding binding
  binding-none raw role name h = rw h refl

  -- A side that is written if the node or the record has it.
  pub read_side :
      (o : Option (RoleBindingNode D)) (role : AgentRole) (name key : String) (base : Dict)
      → ((b : RoleBindingNode D) → o ≡ some b → IsWritable lib b)
      → Belongs o role name
      → SideFits lib o (dict_or_empty (get base key))
      → binding lib
          (if is_some o || has base key then dict (side lib o (get base key)) else get base key)
          role
          name
        ≡ ok o
  unfolding side
  read_side none role name key base w h f = elim (Bool-cases (has base key)) [
    | inl e ↦ rw e (binding-none (dict (dict_or_empty (get base key))) role name f)
    | inr e ↦ rw e (binding-none (get base key) role name f)
  ]
  read_side (some b) role name key base w (r, e) f =
      rw (sym r, sym e) (read_binding lib lawful b (dict_or_empty (get base key)) (w b refl) f)

  read_date :
      (o : Option D) (key : String) (base : Dict)
      → datetime lib (if is_some o || has base key then iso lib o else get base key) ≡ ok o
  read_date (some t) key base = datetime-iso lib lawful (some t)
  read_date none key base = elim (Bool-cases (has base key)) [
    | inl e ↦ rw e (datetime-iso lib lawful none)
    | inr e ↦ rw (e, get_of_absent key base e) (datetime-null lib)
  ]

  pub read_branch :
      (o : Option String)
      → ((s : String) → o ≡ some s → nonempty s ≡ true)
      → branch_of lib (branch_value lib o) ≡ o
  unfolding branch_of
  read_branch none h = refl
  read_branch (some s) h = rw (h s refl) (rw (h s refl) refl)

  -- An endpoint that needs no runtime dict.
  endpoint-null :
      (e : RuntimeEndpointNode)
      → endpoint_fields e ≡ true
      → has_runtime lib e ≡ false
      → endpoint lib null ≡ ok e
  unfolding endpoint choose_endpoint str_or int_or get
  endpoint-null (local_endpoint d) valid h =
      let blank : d ≡ "" = ground (arith, eq_iff d "") in
      ap (λ x. ok (local_endpoint x)) (sym blank)
  endpoint-null (ssh_endpoint s d p) valid h = ground (arith)
  endpoint-null (docker_endpoint s c d p) valid h = ground (arith)

  module _ (n : TunnelNode D) (base runtime : Dict) (s : IsSavable lib n) (f : FitsOver lib n base)
      (r : endpoint lib (dict runtime) ≡ ok n.endpoint) where
    abbrev over : Dict
    over = write_branch lib n.branched_from (write_over lib n runtime (names lib n base))

    read_runtime : endpoint lib (get over "runtime") ≡ ok n.endpoint
    unfolding write_over
    read_runtime =
        simp (get-write_branch, get-set, get-set_if, has-set)
          (elim (Bool-cases (has base "runtime" || has_runtime lib n.endpoint)) [
            | inl h ↦ rw h r
            | inr h ↦
                let gone : has base "runtime" ≡ false = ground (arith) in
                let bare : has_runtime lib n.endpoint ≡ false = ground (arith) in
                rw (h, get_of_absent "runtime" base gone) (endpoint-null n.endpoint s.endpoint bare)
          ])

    has-over :
        has over "auto_recover"
        ≡ ((n.auto_recover || has base "auto_recover") || has base "auto_recover")
    unfolding write_over
    has-over =
        has-write_branch lib n.branched_from (write_over lib n runtime (names lib n base))
          "auto_recover" refl
        ∙ simp (has-set_if, has-set) refl

    get-over : get over "auto_recover" ≡ (
        if n.auto_recover || has base "auto_recover"
        then flag n.auto_recover
        else get base "auto_recover")
    unfolding write_over
    get-over = simp (get-write_branch, get-set, get-set_if, has-set) refl

    read_recovers : recovers over ≡ n.auto_recover
    unfolding recovers
    read_recovers = rw (has-over, get-over) (ground (arith, f.auto_recover))

    pub over-Reads : Reads lib over n
    unfolding write_over
    over-Reads = record {
      name = simp (get-write_branch, get-set, get-set_if) (str_or-text lib n.name);
      op = simp (get-write_branch, get-set, get-set_if) (str_or-text lib n.op);
      run = simp (get-write_branch, get-set, get-set_if) (str_or-text lib n.run);
      endpoint = read_runtime;
      trigger =
          simp (get-write_branch, get-set, get-set_if, has-set)
            (read_side n.trigger trigger n.name "trigger" base s.trigger
              (validate_tunnel-Belongs lib n n s.valid).0 f.trigger);
      bullet =
          simp (get-write_branch, get-set, get-set_if, has-set)
            (read_side n.bullet bullet n.name "bullet" base s.bullet
              (validate_tunnel-Belongs lib n n s.valid).1 f.bullet);
      client =
          simp (get-write_branch, get-set, get-set_if, has-set)
            (read_optional lib n.client "client" base);
      user =
          simp (get-write_branch, get-set, get-set_if, has-set)
            (read_optional lib n.user "user" base);
      description =
          simp (get-write_branch, get-set, get-set_if, has-set)
            (read_optional lib n.description "description" base);
      branched_from = simp (get-write_branch) (read_branch n.branched_from s.branched_from);
      updated_at =
          simp (get-write_branch, get-set, get-set_if, has-set)
            (read_date n.updated_at "updated_at" base);
      auto_recover = read_recovers;
      valid = s.valid;
    }

-- ===== src/Nodes/Resave.antt =====
-- A record that is read and projected over itself is read as the same node.
use mathlib.Core.Path.{subst}
use dual_tmux.Prelude.{
  String, ◌≡◌, refl, sym, ◌∙◌, ap, Bool, true, false, Option, none, some, nonempty, string_eq,
  arith, Bool-cases, eq_iff, inl, inr,
}
use dual_tmux.Prelude.Result.{>>=-ok_inv, ok, ◌>>=◌}
use dual_tmux.Binding.Node.{AgentRole, trigger, bullet}
use dual_tmux.Nodes.Json.{
  Json, null, flag, number, text, array, dict, Dict, get, has, truthy, is_dict, dict_or_empty,
  any_value,
}
use dual_tmux.Nodes.Library.{Library, IsLawful, str, str_or, int_or}
use dual_tmux.Nodes.Model.{
  TunnelNode, RoleBindingNode, AgentSessionNode, AgentClientMetadata, RuntimeEndpointNode,
  endpoint_fields, session_fields, binding_fields, validated,
}
use dual_tmux.Nodes.Decode.{
  endpoint, binding, some_binding, make_binding, make_session, client_of, session_id_of, datetime,
  branch_of, recovers, from_legacy_tunnel,
}
use dual_tmux.Nodes.Encode.{write_client, to_legacy_tunnel}
use dual_tmux.Nodes.Sides.{IsDated, IsWritable, Fits}
use dual_tmux.Nodes.Reads.{from_legacy_tunnel-Reads}
use dual_tmux.Nodes.Over.{SideFits}
use dual_tmux.Nodes.RoundTrip.{from_legacy-to_legacy}

validated-ok_inv {ℓ} :
    {A : Type ℓ} (test : Bool) (a : A) {b : A} → validated test a ≡ ok b → (test ≡ true) × (a ≡ b)
validated-ok_inv true a h = (refl, cc)
validated-ok_inv false a h = cc

pub some_inj {ℓ} : {A : Type ℓ} {a b : A} → some a ≡ some b → a ≡ b
some_inj h = cc

-- The metadata of an agent client are not all empty, and their date is read back as pydantic writes it.
pub record IsDescribed {D : Type 0} (lib : Library D) (o : Option (RoleBindingNode D))
    : Type 0 where
  pub described :
      (b : RoleBindingNode D) (c : AgentClientMetadata D)
      → o ≡ some b
      → b.session.client ≡ some c
      → any_value (write_client lib c) ≡ true
  pub dated :
      (b : RoleBindingNode D) (c : AgentClientMetadata D)
      → o ≡ some b
      → b.session.client ≡ some c
      → IsDated lib c

module _ {D : Type 0} (lib : Library D) (lawful : IsLawful lib) where
  nonempty-str : (j : Json) → truthy j ≡ true → nonempty (str lib j) ≡ true
  nonempty-str null h = lawful.nonempty-shown null
  nonempty-str (flag b) h = lawful.nonempty-shown (flag b)
  nonempty-str (number n) h = lawful.nonempty-digits n
  nonempty-str (text s) h = h
  nonempty-str (array js) h = lawful.nonempty-shown (array js)
  nonempty-str (dict d) h = lawful.nonempty-shown (dict d)

  nonempty-branch_of : (j : Json) (s : String) → branch_of lib j ≡ some s → nonempty s ≡ true
  unfolding branch_of
  nonempty-branch_of j s h = elim (Bool-cases (truthy j)) [
    | inl t ↦
        let printed : str lib j ≡ s = ground (arith) in ap nonempty (sym printed) ∙ nonempty-str j t
    | inr f ↦ ground (arith)
  ]

  endpoint_fields-endpoint :
      (j : Json) (e : RuntimeEndpointNode) → endpoint lib j ≡ ok e → endpoint_fields e ≡ true
  unfolding endpoint
  endpoint_fields-endpoint j e h =
      let (p, read, rest) = >>=-ok_inv (int_or lib 22 (get (dict_or_empty j) "ssh_port")) _ h in
      let (valid, same) = validated-ok_inv _ _ rest in
      subst (λ x. endpoint_fields x ≡ true) same valid

  -- What is read of a side with a binding.
  binding-some_binding :
      (j : Json) (role : AgentRole) (name : String) (b : RoleBindingNode D)
      → binding lib j role name ≡ ok (some b)
      → some_binding lib (dict_or_empty j) role name ≡ ok (some b)
  unfolding binding
  binding-some_binding j role name b h =
      elim (Bool-cases (nonempty (session_id_of lib (dict_or_empty j)))) [
        | inl t ↦ ground (arith)
        | inr f ↦ ground (arith)
      ]

  make_session-ok_inv :
      (d : Dict) (c : Option (AgentClientMetadata D)) (s : AgentSessionNode D)
      → make_session lib d c ≡ ok s
      → (session_fields s.session_id s.tool ≡ true)
        × (s.session_id ≡ session_id_of lib d)
        × (s.client ≡ c)
  unfolding make_session
  make_session-ok_inv d c s h =
      let (valid, made) = validated-ok_inv _ _ h in
      subst
        (λ x.
          (session_fields x.session_id x.tool ≡ true)
          × (x.session_id ≡ session_id_of lib d)
          × (x.client ≡ c))
        made (valid, refl, refl)

  make_binding-ok_inv :
      (d : Dict) (role : AgentRole) (name : String) (s : AgentSessionNode D) (b : RoleBindingNode D)
      → make_binding lib d role name s ≡ ok (some b)
      → (binding_fields b.tunnel_name ≡ true)
        × (b.session ≡ s)
        × (b.bound_by_client ≡ str_or lib "" (get d "bound_by_client"))
  unfolding make_binding
  make_binding-ok_inv d role name s b h =
      let (t, frozen, rest) = >>=-ok_inv (datetime lib (get d "frozen_at")) _ h in
      let (named, made) = validated-ok_inv _ _ rest in
      subst
        (λ x.
          (binding_fields x.tunnel_name ≡ true)
          × (x.session ≡ s)
          × (x.bound_by_client ≡ str_or lib "" (get d "bound_by_client")))
        (some_inj made) (named, refl, refl)

  session_id_of-strip : (d : Dict) → lib.strip (session_id_of lib d) ≡ session_id_of lib d
  unfolding session_id_of
  session_id_of-strip d = lawful.strip-strip (str_or lib "" (get d "session_id"))

  some_binding-read :
      (d : Dict) (role : AgentRole) (name : String) (b : RoleBindingNode D)
      → IsDescribed lib (some b)
      → some_binding lib d role name ≡ ok (some b)
      → IsWritable lib b × Fits lib b d
  unfolding some_binding
  some_binding-read d role name b g h =
      let (c, client, h1) = >>=-ok_inv (client_of lib (get d "agent_client")) _ h in
      let (s, session, h2) = >>=-ok_inv (make_session lib d c) _ h1 in
      let (valid, identity, kept) = make_session-ok_inv d c s session in
      let (named, same, bound) = make_binding-ok_inv d role name s b h2 in
      (
        record {
          fields = subst (λ x. session_fields x.session_id x.tool ≡ true) (sym same) valid;
          named = named;
          stripped =
              subst (λ x. lib.strip x ≡ x) (sym (ap (λ x. x.session_id) same ∙ identity))
                (session_id_of-strip d);
          described = λ e f. g.described b e refl f;
          dated = λ e f. g.dated b e refl f;
        },
        record {
          bound = λ e. sym bound ∙ e;
          client = λ e. client ∙ ap ok (sym kept ∙ sym (ap (λ x. x.client) same) ∙ e);
        },
      )

  binding-session :
      (j : Json) (role : AgentRole) (name : String)
      → binding lib j role name ≡ ok none
      → session_id_of lib (dict_or_empty j) ≡ ""
  unfolding binding some_binding make_binding
  binding-session j role name h =
      elim (Bool-cases (nonempty (session_id_of lib (dict_or_empty j)))) [
        | inl t ↦
            let read = rw t at h in
            let (c, client, h1) =
              >>=-ok_inv (client_of lib (get (dict_or_empty j) "agent_client")) _ read in
            let (s, session, h2) = >>=-ok_inv (make_session lib (dict_or_empty j) c) _ h1 in
            let (t, frozen, h3) =
              >>=-ok_inv (datetime lib (get (dict_or_empty j) "frozen_at")) _ h2 in
            let (named, made) = validated-ok_inv _ _ h3 in cc
        | inr f ↦ ground (arith, eq_iff (session_id_of lib (dict_or_empty j)) "")
      ]

  -- What is read of a side is written over it again.
  read_side-IsWritable :
      (j : Json) (role : AgentRole) (name : String) (o : Option (RoleBindingNode D))
      → IsDescribed lib o
      → binding lib j role name ≡ ok o
      → ((b : RoleBindingNode D) → o ≡ some b → IsWritable lib b) × SideFits lib o (dict_or_empty j)
  read_side-IsWritable j role name none g h = (λ b e. cc, binding-session j role name h)
  read_side-IsWritable j role name (some b) g h =
      let (w, f) =
        some_binding-read (dict_or_empty j) role name b g (binding-some_binding j role name b h) in
      (λ c e. subst (IsWritable lib) (some_inj e) w, f)

  kept_recovery : (d : Dict) (b : Bool) → recovers d ≡ b → b ≡ false → has d "auto_recover" ≡ true
  unfolding recovers
  kept_recovery d b h e = ground (arith)

  module _ (d : Dict) (n : TunnelNode D) (h : from_legacy_tunnel lib d ≡ ok n)
      (plain : truthy (get d "runtime") ≡ true → is_dict (get d "runtime") ≡ true)
      (t : IsDescribed lib n.trigger) (b : IsDescribed lib n.bullet) where
    -- A record that decodes to a node, whose runtime is a dict if it is there at all, and whose agent
    -- clients are not all empty, decodes to the same node after the node has been projected over it.
    pub from_legacy-resaved : to_legacy_tunnel lib n (some d) >>= from_legacy_tunnel lib ≡ ok n
    from_legacy-resaved =
        let r = from_legacy_tunnel-Reads lib d n h in
        let (trigger_written, trigger_fits) =
          read_side-IsWritable (get d "trigger") trigger n.name n.trigger t r.trigger in
        let (bullet_written, bullet_fits) =
          read_side-IsWritable (get d "bullet") bullet n.name n.bullet b r.bullet in
        from_legacy-to_legacy lib lawful n (some d)
          (record {
            valid = r.valid;
            endpoint = endpoint_fields-endpoint (get d "runtime") n.endpoint r.endpoint;
            trigger = trigger_written;
            bullet = bullet_written;
            branched_from =
                λ s e. nonempty-branch_of (get d "branched_from") s (r.branched_from ∙ e);
          })
          (record {
            runtime = plain;
            trigger = trigger_fits;
            bullet = bullet_fits;
            auto_recover = kept_recovery d n.auto_recover r.auto_recover;
          })

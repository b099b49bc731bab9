-- ===== src/Nodes/Reads.antt =====
-- A record decodes to a node just when each of its fields is read as the node's, and the node is
-- valid.
use mathlib.Core.Path.{subst}
use dual_tmux.Prelude.{◌≡◌, refl, sym, ◌∙◌, ap, string_eq}
use dual_tmux.Prelude.Result.{>>=-ok_inv, ok, guard, validation_error}
use dual_tmux.Binding.Node.{trigger, bullet}
use dual_tmux.Nodes.Json.{Dict, get}
use dual_tmux.Nodes.Library.{Library, str_or}
use dual_tmux.Nodes.Model.{TunnelNode, validate_tunnel, legal_bindings, tunnel_fields}
use dual_tmux.Nodes.Decode.{datetime, binding, endpoint, branch_of, recovers, from_legacy_tunnel}

pub record Reads {D : Type 0} (lib : Library D) (d : Dict) (n : TunnelNode D) : Type 0 where
  pub name : str_or lib "" (get d "name") ≡ n.name
  pub op : str_or lib "" (get d "op") ≡ n.op
  pub run : str_or lib "" (get d "run") ≡ n.run
  pub endpoint : endpoint lib (get d "runtime") ≡ ok n.endpoint
  pub trigger : binding lib (get d "trigger") trigger n.name ≡ ok n.trigger
  pub bullet : binding lib (get d "bullet") bullet n.name ≡ ok n.bullet
  pub client : str_or lib "" (get d "client") ≡ n.client
  pub user : str_or lib "" (get d "user") ≡ n.user
  pub description : str_or lib "" (get d "description") ≡ n.description
  pub branched_from : branch_of lib (get d "branched_from") ≡ n.branched_from
  pub updated_at : datetime lib (get d "updated_at") ≡ ok n.updated_at
  pub auto_recover : recovers d ≡ n.auto_recover
  pub valid : validate_tunnel lib n ≡ ok n

validate_tunnel-ok_inv :
    {D : Type 0} (lib : Library D) (n m : TunnelNode D) → validate_tunnel lib n ≡ ok m → n ≡ m
unfolding validate_tunnel
validate_tunnel-ok_inv lib n m h =
    let (u, tested, rest) =
      >>=-ok_inv (guard (tunnel_fields lib n) (validation_error "a field is invalid")) _ h in
    let (v, legal, same) = >>=-ok_inv (legal_bindings n) _ rest in cc

module _ {D : Type 0} (lib : Library D) (d : Dict) (n : TunnelNode D) where
  pub from_legacy_tunnel_of_Reads : Reads lib d n → from_legacy_tunnel lib d ≡ ok n
  unfolding from_legacy_tunnel
  from_legacy_tunnel_of_Reads r =
      rw
        (
          r.name, r.op, r.run, r.endpoint, r.trigger, r.bullet, r.client, r.user, r.description,
          r.branched_from, r.updated_at, r.auto_recover,
        )
        r.valid

  pub from_legacy_tunnel-Reads : from_legacy_tunnel lib d ≡ ok n → Reads lib d n
  unfolding from_legacy_tunnel
  from_legacy_tunnel-Reads h =
      let (runtime, e1, h1) = >>=-ok_inv (endpoint lib (get d "runtime")) _ h in
      let (t, e2, h2) =
        >>=-ok_inv (binding lib (get d "trigger") trigger (str_or lib "" (get d "name"))) _ h1 in
      let (b, e3, h3) =
        >>=-ok_inv (binding lib (get d "bullet") bullet (str_or lib "" (get d "name"))) _ h2 in
      let (u, e4, h4) = >>=-ok_inv (datetime lib (get d "updated_at")) _ h3 in
      let same = validate_tunnel-ok_inv lib _ n h4 in
      subst (Reads lib d) same (record {
        name = refl;
        op = refl;
        run = refl;
        endpoint = e1;
        trigger = e2;
        bullet = e3;
        client = refl;
        user = refl;
        description = refl;
        branched_from = refl;
        updated_at = e4;
        auto_recover = refl;
        valid = h4 ∙ ap ok (sym same);
      })

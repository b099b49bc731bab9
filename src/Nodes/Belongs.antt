-- ===== src/Nodes/Belongs.antt =====
-- What the validators of a tunnel say of its bindings.
use dual_tmux.Prelude.{String, ◌≡◌, arith, eq_iff, Option, none, some, not, ◌==◌, string_eq}
use dual_tmux.Prelude.Result.{>>=-ok_inv, ok, guard, validation_error}
use dual_tmux.Binding.Node.{AgentRole, trigger, bullet}
use dual_tmux.Nodes.Library.{Library}
use dual_tmux.Nodes.Model.{
  TunnelNode, RoleBindingNode, validate_tunnel, legal_bindings, legal_binding, tunnel_fields,
}

-- A binding that a node has on a side is of the side and of the node.
legal_binding-ok_inv :
    {D : Type 0} (name : String) (role : AgentRole) (b : RoleBindingNode D) {u : Unit {0}}
    → legal_binding name role (some b) ≡ ok u
    → (b.role ≡ role) × (b.tunnel_name ≡ name)
unfolding legal_binding
legal_binding-ok_inv name trigger b h = ground (arith, eq_iff b.tunnel_name name)
legal_binding-ok_inv name bullet b h = ground (arith, eq_iff b.tunnel_name name)

abbrev pub Belongs : {D : Type 0} → Option (RoleBindingNode D) → AgentRole → String → Type 0
Belongs none role name = Unit
Belongs (some b) role name = (b.role ≡ role) × (b.tunnel_name ≡ name)

legal_binding-Belongs :
    {D : Type 0} (o : Option (RoleBindingNode D)) (role : AgentRole) (name : String) {u : Unit {0}}
    → legal_binding name role o ≡ ok u
    → Belongs o role name
legal_binding-Belongs none role name h = tt
legal_binding-Belongs (some b) role name h = legal_binding-ok_inv name role b h

pub validate_tunnel-Belongs :
    {D : Type 0} (lib : Library D) (n m : TunnelNode D)
    → validate_tunnel lib n ≡ ok m
    → Belongs n.trigger trigger n.name × Belongs n.bullet bullet n.name
unfolding validate_tunnel legal_bindings
validate_tunnel-Belongs lib n m h =
    let (u, tested, rest) =
      >>=-ok_inv (guard (tunnel_fields lib n) (validation_error "a field is invalid")) _ h in
    let (v, legal, same) = >>=-ok_inv (legal_bindings n) _ rest in
    let (w, differ, sides) =
      >>=-ok_inv
        (guard (not (n.op == n.run)) (validation_error "op and run tmux identities must differ")) _
        legal in
    let (x, on_trigger, others) = >>=-ok_inv (legal_binding n.name trigger n.trigger) _ sides in
    let (y, on_bullet, last) = >>=-ok_inv (legal_binding n.name bullet n.bullet) _ others in
    (
      legal_binding-Belongs n.trigger trigger n.name on_trigger,
      legal_binding-Belongs n.bullet bullet n.name on_bullet,
    )

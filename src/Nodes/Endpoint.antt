-- ===== src/Nodes/Endpoint.antt =====
-- An endpoint is read back from the runtime dict that it is written to.
use dual_tmux.Prelude.{ℕ, String, ◌≡◌, refl, true, false, arith, string_eq, nat_beq, eq_iff}
use dual_tmux.Prelude.Result.{ok}
use dual_tmux.Nodes.Json.{number, text, dict, Dict, get-set, update}
use dual_tmux.Nodes.Library.{Library, str_or, int_or}
use dual_tmux.Nodes.Model.{
  RuntimeEndpointNode, endpoint_fields, local_endpoint, ssh_endpoint, docker_endpoint,
}
use dual_tmux.Nodes.Decode.{endpoint, choose_endpoint}
use dual_tmux.Nodes.Encode.{runtime_fields}

pub str_or-text : {D : Type 0} (lib : Library D) (s : String) → str_or lib "" (text s) ≡ s
unfolding str_or
str_or-text lib s = ground (arith, eq_iff s "")

module _ {D : Type 0} (lib : Library D) where
  int_or-number : (p : ℕ) → nat_beq p 0 ≡ false → int_or lib 22 (number p) ≡ ok p
  unfolding int_or
  int_or-number p h = rw h refl

  pub endpoint-update :
      (e : RuntimeEndpointNode) (old : Dict)
      → endpoint_fields e ≡ true
      → endpoint lib (dict (update (runtime_fields lib e) old)) ≡ ok e
  unfolding endpoint choose_endpoint
  endpoint-update (local_endpoint d) old h =
      simp (get-set, str_or-text lib, int_or-number 22 refl) refl
  endpoint-update (ssh_endpoint s d p) old h =
      simp (get-set, str_or-text lib) (ground (arith, int_or-number p))
  endpoint-update (docker_endpoint s c d p) old h =
      simp (get-set, str_or-text lib) (ground (arith, int_or-number p))

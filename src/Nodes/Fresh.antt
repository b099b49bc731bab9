-- ===== src/Nodes/Fresh.antt =====
-- A node that is projected with no base is read back.
use dual_tmux.Prelude.{String, ◌≡◌, refl, sym, ◌∙◌, true, Option, none, some, string_eq}
use dual_tmux.Prelude.Result.{ok}
use dual_tmux.Binding.Node.{AgentRole, trigger, bullet}
use dual_tmux.Nodes.Json.{null, dict, Dict, empty, get, has, get-set, has-set}
use dual_tmux.Nodes.Library.{Library, IsLawful, str_or}
use dual_tmux.Nodes.Model.{TunnelNode, RoleBindingNode}
use dual_tmux.Nodes.Decode.{session_id_of, client_of, binding, endpoint, recovers}
use dual_tmux.Nodes.Encode.{names, side, write_new, write_branch}
use dual_tmux.Nodes.Endpoint.{str_or-text}
use dual_tmux.Nodes.Sides.{IsWritable, Fits, datetime-iso, read_binding}
use dual_tmux.Nodes.Reads.{Reads}
use dual_tmux.Nodes.Belongs.{Belongs, validate_tunnel-Belongs}
use dual_tmux.Nodes.Over.{IsSavable, get-write_branch, has-write_branch, binding-none, read_branch}

module _ {D : Type 0} (lib : Library D) (lawful : IsLawful lib) where
  Fits-empty : (b : RoleBindingNode D) → Fits lib b empty
  unfolding get str_or client_of
  Fits-empty b = record { bound = λ h. refl; client = λ h. refl }

  session_id_of-empty : session_id_of lib empty ≡ ""
  unfolding get str_or session_id_of
  session_id_of-empty = lawful.strip-nil

  read_new_side :
      (o : Option (RoleBindingNode D)) (role : AgentRole) (name : String)
      → ((b : RoleBindingNode D) → o ≡ some b → IsWritable lib b)
      → Belongs o role name
      → binding lib (dict (side lib o null)) role name ≡ ok o
  unfolding side
  read_new_side none role name w h =
      binding-none lib lawful (dict empty) role name session_id_of-empty
  read_new_side (some b) role name w (r, e) =
      rw (sym r, sym e) (read_binding lib lawful b empty (w b refl) (Fits-empty b))

  module _ (n : TunnelNode D) (runtime : Dict) (s : IsSavable lib n)
      (r : endpoint lib (dict runtime) ≡ ok n.endpoint) where
    abbrev fresh : Dict
    fresh = write_branch lib n.branched_from (write_new lib n runtime (names lib n empty))

    has-fresh : has fresh "auto_recover" ≡ true
    unfolding write_new
    has-fresh =
        has-write_branch lib n.branched_from (write_new lib n runtime (names lib n empty))
          "auto_recover" refl
        ∙ simp (has-set) refl

    pub fresh-Reads : Reads lib fresh n
    unfolding write_new recovers
    fresh-Reads = record {
      name = simp (get-write_branch, get-set) (str_or-text lib n.name);
      op = simp (get-write_branch, get-set) (str_or-text lib n.op);
      run = simp (get-write_branch, get-set) (str_or-text lib n.run);
      endpoint = simp (get-write_branch, get-set) r;
      trigger =
          simp (get-write_branch, get-set)
            (read_new_side n.trigger trigger n.name s.trigger
              (validate_tunnel-Belongs lib n n s.valid).0);
      bullet =
          simp (get-write_branch, get-set)
            (read_new_side n.bullet bullet n.name s.bullet
              (validate_tunnel-Belongs lib n n s.valid).1);
      client = simp (get-write_branch, get-set) (str_or-text lib n.client);
      user = simp (get-write_branch, get-set) (str_or-text lib n.user);
      description = simp (get-write_branch, get-set) (str_or-text lib n.description);
      branched_from =
          simp (get-write_branch) (read_branch lib lawful n.branched_from s.branched_from);
      updated_at = simp (get-write_branch, get-set) (datetime-iso lib lawful n.updated_at);
      auto_recover = rw has-fresh (simp (get-write_branch, get-set) refl);
      valid = s.valid;
    }

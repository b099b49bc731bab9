-- ===== src/Nodes/Sides.antt =====
-- A side's binding is read back from the dict that it is written to.
use dual_tmux.Prelude.{
  String, ◌≡◌, refl, true, nonempty, if◌then◌else◌, arith, ◌∙◌, ap, ◌==◌, string_eq, eq_iff, Option,
  none, some, inl, inr, Bool-cases, Option-cases, sym,
}
use dual_tmux.Prelude.Result.{ok}
use dual_tmux.Nodes.Json.{Json, text, dict, Dict, get, get-set, get-set_if, any_value}
use dual_tmux.Nodes.Library.{Library, IsLawful, str_or}
use dual_tmux.Nodes.Model.{
  Location, unknown_location, local_location, ssh_location, docker_location, AgentClientMetadata,
  RoleBindingNode, session_fields, binding_fields,
}
use dual_tmux.Nodes.Decode.{
  read_location, datetime, read_client, client_of, session_id_of, make_session, make_binding,
  some_binding, binding,
}
use dual_tmux.Nodes.Encode.{write_location, iso, json_iso, write_client, set_client, write_binding}
use dual_tmux.Nodes.Endpoint.{str_or-text}

read_location-write_location : (l : Location) → read_location (write_location l) ≡ ok l
unfolding read_location
read_location-write_location unknown_location = refl
read_location-write_location local_location = refl
read_location-write_location ssh_location = refl
read_location-write_location docker_location = refl

-- The date of the metadata is read back from what pydantic writes of it.
abbrev pub IsDated : {D : Type 0} → Library D → AgentClientMetadata D → Type 0
IsDated {D} lib c = (t : D) → c.collected_at ≡ some t → lib.fromisoformat (lib.json_date t) ≡ some t

-- What must hold of a binding for a side's dict to hold it: pydantic's conditions, an identity
-- without surrounding blanks, and metadata of the agent client that are not all empty.
pub record IsWritable {D : Type 0} (lib : Library D) (b : RoleBindingNode D) : Type 0 where
  pub fields : session_fields b.session.session_id b.session.tool ≡ true
  pub named : binding_fields b.tunnel_name ≡ true
  pub stripped : lib.strip b.session.session_id ≡ b.session.session_id
  pub described :
      (c : AgentClientMetadata D)
      → b.session.client ≡ some c
      → any_value (write_client lib c) ≡ true
  pub dated : (c : AgentClientMetadata D) → b.session.client ≡ some c → IsDated lib c

-- What must hold of the dict below it, whose client and metadata stay where the binding has none.
pub record Fits {D : Type 0} (lib : Library D) (b : RoleBindingNode D) (old : Dict) : Type 0 where
  pub bound : b.bound_by_client ≡ "" → str_or lib "" (get old "bound_by_client") ≡ ""
  pub client : b.session.client ≡ none → client_of lib (get old "agent_client") ≡ ok none

module _ {D : Type 0} (lib : Library D) (lawful : IsLawful lib) where
  pub datetime-iso : (o : Option D) → datetime lib (iso lib o) ≡ ok o
  unfolding datetime
  datetime-iso none = refl
  datetime-iso (some t) = rw (lawful.nonempty-isoformat t, lawful.fromisoformat-isoformat t) refl

  datetime-json_iso :
      (o : Option D)
      → ((t : D) → o ≡ some t → lib.fromisoformat (lib.json_date t) ≡ some t)
      → datetime lib (json_iso lib o) ≡ ok o
  unfolding datetime
  datetime-json_iso none h = refl
  datetime-json_iso (some t) h = rw (lawful.nonempty-json_date t, h t refl) refl

  read_client-write_client :
      (c : AgentClientMetadata D) → IsDated lib c → read_client lib (write_client lib c) ≡ ok c
  unfolding read_client write_client
  read_client-write_client c h =
      let dated = datetime-json_iso c.collected_at h in
      simp (get-set, str_or-text lib, dated, read_location-write_location) refl

  client_of-write_client :
      (c : AgentClientMetadata D)
      → any_value (write_client lib c) ≡ true
      → IsDated lib c
      → client_of lib (dict (write_client lib c)) ≡ ok (some c)
  unfolding client_of
  client_of-write_client c h dated = rw (h, read_client-write_client c dated) refl

  abbrev client_value : Option (AgentClientMetadata D) → Json → Json
  client_value none old = old
  client_value (some c) old = dict (write_client lib c)

  get-set_client :
      (c : Option (AgentClientMetadata D)) (key : String) (d : Dict)
      → get (set_client lib c d) key
        ≡ (if "agent_client" == key then client_value c (get d key) else get d key)
  get-set_client none key d = ground (arith)
  get-set_client (some c) key d = get-set "agent_client" key (dict (write_client lib c)) d

  str_or-nonempty : (default s : String) → nonempty s ≡ true → str_or lib default (text s) ≡ s
  unfolding str_or
  str_or-nonempty default s h = rw h refl

  module _ (b : RoleBindingNode D) (old : Dict) (w : IsWritable lib b) (f : Fits lib b old) where
    abbrev written : Dict
    written = write_binding lib b old

    read_bound : str_or lib "" (get written "bound_by_client") ≡ b.bound_by_client
    unfolding write_binding
    read_bound =
        simp (get-set, get-set_if, get-set_client)
          (elim (Bool-cases (nonempty b.bound_by_client)) [
            | inl h ↦ rw h (str_or-text lib b.bound_by_client)
            | inr h ↦
                let blank : b.bound_by_client ≡ "" = ground (arith, eq_iff b.bound_by_client "") in
                rw h (f.bound blank ∙ sym blank)
          ])

    read_client_of : client_of lib (get written "agent_client") ≡ ok b.session.client
    unfolding write_binding
    read_client_of =
        simp (get-set, get-set_if, get-set_client)
          (elim (Option-cases b.session.client) [
            | inl h ↦ rw h (f.client h)
            | inr (c, h) ↦ rw h (client_of-write_client c (w.described c h) (w.dated c h))
          ])

    get-session_id : get written "session_id" ≡ text b.session.session_id
    unfolding write_binding
    get-session_id = simp (get-set, get-set_if, get-set_client) refl

    read_session_id : session_id_of lib written ≡ b.session.session_id
    unfolding session_id_of
    read_session_id =
        ap (λ j. lib.strip (str_or lib "" j)) get-session_id
        ∙ ap lib.strip (str_or-text lib b.session.session_id)
        ∙ w.stripped

    read_session : make_session lib written b.session.client ≡ ok b.session
    unfolding write_binding make_session
    read_session =
        let tooled : nonempty b.session.tool ≡ true = ground (arith, w.fields) in
        simp
          (
            get-set,
            get-set_if,
            get-set_client,
            str_or-text lib,
            read_session_id,
            str_or-nonempty "opencode" b.session.tool tooled,
          )
          (rw w.fields refl)

    read_parser : str_or lib "" (get written "parser") ≡ b.parser
    unfolding write_binding
    read_parser = simp (get-set, get-set_if, get-set_client) (str_or-text lib b.parser)

    read_frozen_at : datetime lib (get written "frozen_at") ≡ ok b.frozen_at
    unfolding write_binding
    read_frozen_at = simp (get-set, get-set_if, get-set_client) (datetime-iso b.frozen_at)

    read_make_binding : make_binding lib written b.role b.tunnel_name b.session ≡ ok (some b)
    unfolding make_binding
    read_make_binding = rw (read_frozen_at, read_parser, read_bound, w.named) refl

    pub read_binding : binding lib (dict written) b.role b.tunnel_name ≡ ok (some b)
    unfolding binding some_binding
    read_binding =
        let identified : nonempty b.session.session_id ≡ true = ground (arith, w.fields) in
        rw (read_session_id, identified, read_client_of, read_session) read_make_binding

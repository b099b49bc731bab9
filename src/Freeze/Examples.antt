-- ===== src/Freeze/Examples.antt =====
-- Tests of the freeze, on the record of a tunnel whose trigger is frozen again.
use dual_tmux.Prelude.{
  String, ◌≡◌, ◌⊎◌, refl, Bool, true, false, none, List, [], ◌∷◌, ◌++◌, string_eq,
}
use dual_tmux.Prelude.Result.{ok, err}
use dual_tmux.Binding.Node.{trigger}
use dual_tmux.Nodes.Json.{Dict, empty, dict, get, set}
use dual_tmux.Nodes.Examples.{lib, example, side_dict}
use dual_tmux.Nodes.Json.{has, pop, merge}
use dual_tmux.Nodes.Library.{or_empty, str_or, int_or}
use dual_tmux.Nodes.Model.{validate_tunnel}
use dual_tmux.Nodes.Decode.{
  from_legacy_tunnel, endpoint, choose_endpoint, binding, datetime, recovers, branch_of,
  some_binding, make_binding, make_session, client_of, session_id_of,
}
use dual_tmux.Nodes.Encode.{
  to_legacy_tunnel, write_runtime, write_over, write_branch, side, write_binding,
}
use dual_tmux.Binding.Node.{
  model_validate, legal_candidate, Requested, BindingAttemptNode, LiveSessionProven, no_kind,
}
use dual_tmux.Binding.State.{proving, bound}
use dual_tmux.Binding.Sound.{IsSound}
use dual_tmux.Freeze.Binds.{IsNamed, prove-binds}
use dual_tmux.Freeze.Attempt.{Attempt, prove}
use dual_tmux.Freeze.Whole.{made, sent, created-IsSound, requested-IsSound, state-requested}
use dual_tmux.Binding.Chart.{provable}
use dual_tmux.Binding.Machine.{create, send}
use dual_tmux.Binding.Chart.{binding_graph, enter, apply_changes, can_prove}
use dual_tmux.Binding.Commit.{commit_proven, run_hooks}
use dual_tmux.Freeze.Payload.{OccupancyContext, occupancy_context, proven_payload}
use dual_tmux.Freeze.Hook.{execute, projection, with_holder, persist_entry}
use dual_tmux.Freeze.Attempt.{
  Host, Emission, freeze_rejected, Freezing, new_node, run_freeze_attempt,
}
use dual_tmux.Freeze.Whole.{
  run_freeze_attempt-Ends, run_freeze_attempt-foreign, IsUnchanged, IsFrozen,
}

-- The world is the list of the files that were written; the hub names `occupant` as the holder, and
-- the body finds the session `found`.
abbrev freezing : String → String → Bool → Freezing (Unit {0}) (List Emission) (List String)
freezing occupant found proves = record {
  lib = lib;
  emit = λ e j. (j ++ (e ∷ []), none);
  write_text = λ path content o. (o ++ (path ∷ []), none);
  rstrip = λ s. s;
  describe = λ e. "";
  load_config = λ o. (o, ok (record { client = "tm_a"; hub_enabled = true }));
  read_occupancy = λ name cfg o. (o, ok occupant);
  is_test = false;
  tmux_name = "op_a";
  body = λ d o. (o, ok (set "trigger" (dict (side_dict found "")) d, proves));
  uuid = "01234567";
  clock = record { request = 1; proof = 2; commit = 3; report = 4 };
}

abbrev host : Host (List Emission) (List String)
host = record { target = example; journal = []; outside = [] }

freezes : (run_freeze_attempt (freezing "tm_a" "s3" true) trigger host).1 ≡ ok true
unfolding run_freeze_attempt or_empty get occupancy_context model_validate str_or legal_candidate
    create send binding_graph enter apply_changes proven_payload set commit_proven can_prove
    run_hooks execute projection with_holder persist_entry from_legacy_tunnel endpoint int_or
    choose_endpoint binding session_id_of some_binding client_of make_session make_binding datetime
    validate_tunnel branch_of recovers has to_legacy_tunnel write_runtime write_branch pop
    write_over side write_binding merge
freezes = refl

run_freeze_attempt-Ends_example :
    let f = freezing "tm_a" "s3" true in
    IsUnchanged host (run_freeze_attempt f trigger host)
    ⊎ IsFrozen f trigger host (run_freeze_attempt f trigger host)
run_freeze_attempt-Ends_example =
    run_freeze_attempt-Ends (freezing "tm_a" "s3" true) (λ e j. refl) trigger host

abbrev foreign : OccupancyContext
foreign = record { holder = "tm_a"; local_mode = false; occupancy_holder = "tm_b" }

abbrev elsewhere : Freezing (Unit {0}) (List Emission) (List String)
elsewhere = freezing "tm_b" "s3" true

is_valid :
    model_validate (new_node elsewhere trigger host foreign "s1")
    ≡ ok (new_node elsewhere trigger host foreign "s1")
unfolding model_validate legal_candidate str_or get
is_valid = refl

has_trigger : or_empty (get example "trigger") ≡ ok (side_dict "s1" "2026-01-01")
unfolding or_empty get
has_trigger = refl

is_asked :
    occupancy_context elsewhere.load_config elsewhere.read_occupancy false "dt-a" []
    ≡ ([], ok foreign)
unfolding occupancy_context
is_asked = refl

run_freeze_attempt-foreign_example :
    run_freeze_attempt elsewhere trigger host
    ≡ (record host { journal = freeze_rejected "dt-a" trigger "tm_b" ∷ [] }, ok false)
unfolding str_or get
run_freeze_attempt-foreign_example =
    run_freeze_attempt-foreign elsewhere (λ e j. refl) trigger host (side_dict "s1" "2026-01-01") []
      foreign (new_node elsewhere trigger host foreign "s1") has_trigger is_asked is_valid refl

-- An attempt that is proving.
abbrev asked : Requested
asked = record { holder = "tm_a"; local_mode = false; occupancy_holder = "tm_a" }

abbrev native : OccupancyContext
native = record { holder = "tm_a"; local_mode = false; occupancy_holder = "tm_a" }

abbrev here : Freezing (Unit {0}) (List Emission) (List String)
here = freezing "tm_a" "s3" true

abbrev first_node : BindingAttemptNode
first_node = new_node here trigger host native "s1"

abbrev attempt : Attempt
attempt = (sent (made first_node) asked 1).0

legal : model_validate first_node ≡ ok first_node
unfolding model_validate legal_candidate str_or get
legal = refl

attempt-IsSound : IsSound attempt.core
attempt-IsSound =
    let (sound, fresh) = created-IsSound first_node legal refl in
    requested-IsSound (made first_node) sound fresh asked 1

is_proving : attempt.core.state ≡ proving
is_proving =
    let (sound, fresh) = created-IsSound first_node legal refl in
    state-requested (made first_node) sound fresh asked 1

abbrev working : Dict
working = set "trigger" (dict (side_dict "s3" "")) example

abbrev payload : LiveSessionProven
payload = record {
  session_id = "s3";
  tool = "opencode";
  directory = "";
  other_session_id = "s2";
  rebuild = true;
  endpoint_kind = no_kind;
  endpoint_server = "h1";
  endpoint_container = "";
  endpoint_directory = "/w";
}

known : proven_payload lib working trigger "s1" ≡ ok payload
unfolding proven_payload or_empty get set str_or
known = refl

named : IsNamed attempt.core.context.node payload
unfolding or_empty get occupancy_context model_validate str_or legal_candidate create send
    binding_graph enter apply_changes proven_payload set commit_proven can_prove run_hooks execute
    projection with_holder persist_entry from_legacy_tunnel endpoint int_or choose_endpoint binding
    session_id_of some_binding client_of make_session make_binding datetime validate_tunnel
    branch_of recovers has to_legacy_tunnel write_runtime write_branch pop write_over side
    write_binding merge
named = record { named = refl; fresh = refl }

passes : provable attempt.core.context payload ≡ true
unfolding or_empty get occupancy_context model_validate str_or legal_candidate create send
    binding_graph enter apply_changes proven_payload set commit_proven can_prove run_hooks execute
    projection with_holder persist_entry from_legacy_tunnel endpoint int_or choose_endpoint binding
    session_id_of some_binding client_of make_session make_binding datetime validate_tunnel
    branch_of recovers has to_legacy_tunnel write_runtime write_branch pop write_over side
    write_binding merge provable
passes = refl

abbrev projected : Dict
projected = elim (projection lib working trigger "tm_a" example) [ ok d ↦ d | err e ↦ empty ]

is_projected : projection lib working trigger "tm_a" example ≡ ok projected
unfolding or_empty get occupancy_context model_validate str_or legal_candidate create send
    binding_graph enter apply_changes proven_payload set commit_proven can_prove run_hooks execute
    projection with_holder persist_entry from_legacy_tunnel endpoint int_or choose_endpoint binding
    session_id_of some_binding client_of make_session make_binding datetime validate_tunnel
    branch_of recovers has to_legacy_tunnel write_runtime write_branch pop write_over side
    write_binding merge
is_projected = refl

is_written : (persist_entry lib here.write_text here.rstrip trigger projected []).1 ≡ none
unfolding persist_entry
is_written = refl

prove-binds_example :
    let p = prove here trigger attempt host "tm_a" "s1" in
    (p.1 ≡ ok true) × (p.0.0.core.state ≡ bound) × (p.0.1.target ≡ merge example projected)
prove-binds_example =
    prove-binds here (λ e j. refl) trigger "tm_a" "s1" host attempt attempt-IsSound is_proving
      working [] payload projected refl known named passes is_projected is_written

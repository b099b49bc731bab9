-- ===== src/Binding/Examples.antt =====
-- One binding attempt over `MemoryStateStore`, from its request to its commit.
use dual_tmux.Prelude.{
  ℕ, String, ◌≡◌, ◌+◌, refl, false, none, some, List, [], ◌∷◌, nat_eq, string_eq,
}
use dual_tmux.Prelude.Result.{Exn, ok, system_exit}
use dual_tmux.Fsm.Graph.{find_transition}
use dual_tmux.Fsm.Store.{StateStore, IsLawful, memory_store, memory_store-IsLawful, put}
use dual_tmux.Binding.State.{BindingState, BindingEvent, state_eq, event_eq}
use dual_tmux.Binding.Node.{
  BindingAttemptNode, AgentRole, BindingIntent, EndpointKind, no_fields, Fields, proven_fields,
  model_validate, legal_candidate,
}
use dual_tmux.Binding.Chart.{binding_graph, apply_changes, enter}
use dual_tmux.Binding.Machine.{Snapshot, BindingMachine, create, restore, send}
use dual_tmux.Binding.Run.{Report, run, IsCurrent, create-IsCurrent, send-IsCurrent}
use dual_tmux.Binding.Restore.{reloaded, binding_restore-run}
use dual_tmux.Binding.Commit.{Hook}
use dual_tmux.Binding.Commit.Outcome.{Ending, commit_proven-Ending}

abbrev memory : StateStore Snapshot
memory = memory_store Snapshot

abbrev node : BindingAttemptNode
node = record {
  attempt_id = "binding-1";
  tunnel_name = "dt-demo";
  role = AgentRole.bullet;
  intent = BindingIntent.freeze;
  state = BindingState.created;
  holder = "tm_laptop";
  previous_session_id = "ses_old";
  candidate_session_id = "";
  candidate_directory = "";
  error = "";
}

abbrev proof : Fields
proof = proven_fields (record {
  session_id = "ses_new";
  tool = "opencode";
  directory = "/workspace";
  other_session_id = "ses_trigger";
  rebuild = false;
  endpoint_kind = EndpointKind.docker;
  endpoint_server = "server";
  endpoint_container = "box";
  endpoint_directory = "/workspace";
})

machine : BindingMachine memory.State
unfolding create put
machine = (create memory node []).0

legal_node : model_validate node ≡ ok node
unfolding model_validate legal_candidate
legal_node = refl

created_node : create memory node [] ≡ (machine, none)
unfolding machine
created_node = refl

lawful : IsLawful memory
lawful = memory_store-IsLawful Snapshot

requested : BindingMachine memory.State
requested = (send memory machine BindingEvent.requested no_fields 101).0

requested-IsCurrent : IsCurrent memory "binding-1" requested
unfolding requested
requested-IsCurrent =
    send-IsCurrent memory lawful "binding-1" machine BindingEvent.requested no_fields 101
      (create-IsCurrent memory lawful "binding-1" node [] machine legal_node refl refl created_node)

proves : requested.core.state ≡ BindingState.proving
unfolding requested send machine binding_graph find_transition model_validate enter apply_changes
    legal_candidate
proves = refl

-- The second hook refuses; the first has already counted.
abbrev hooks : List (Hook ℕ)
hooks = (λ n c w. (w + 1, none)) ∷ (λ n c w. (w, some (system_exit "refused"))) ∷ []

abbrev describe : Exn → String
describe e = "hook refused"

commit_proven-Ending_example : Ending memory describe requested hooks proof 0 102 103
commit_proven-Ending_example =
    commit_proven-Ending memory lawful (λ k v s. refl) describe requested hooks proof 0 102 103
      requested-IsCurrent.sound proves

abbrev reports : List (Report memory)
reports =
    record { event = BindingEvent.requested; fields = no_fields; now = 101 }
    ∷ record { event = BindingEvent.live_session_proven; fields = proof; now = 102 }
    ∷ record { event = BindingEvent.commit_succeeded; fields = no_fields; now = 103 }
    ∷ []

binding_restore-run_example :
    restore memory "binding-1" (run memory machine reports).store
    ≡ ok (reloaded (run memory machine reports))
binding_restore-run_example =
    binding_restore-run memory node [] machine reports lawful legal_node refl created_node

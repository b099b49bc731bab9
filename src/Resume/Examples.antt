-- ===== src/Resume/Examples.antt =====
-- One resume attempt from its creation to its completion over `MemoryStateStore`.
use dual_tmux.Prelude.{◌≡◌, refl, true, none, List, [], ◌∷◌, distinct, string_eq, nat_eq}
use dual_tmux.Prelude.Result.{ok, transition_error, unavailable}
use dual_tmux.Fsm.Graph.{make_graph, find_transition, definition_at}
use dual_tmux.Fsm.Graph.Index.{first_edge, find_transition-make_graph}
use dual_tmux.Fsm.Store.{StateStore, IsLawful, memory_store, memory_store-IsLawful, put}
use dual_tmux.Resume.State.{ResumeState, ResumeEvent, state_eq, event_eq}
use dual_tmux.Resume.Node.{
  ResumeAttemptNode, OccupancyToken, VerificationEvidence, node_fields, legal_state_facts,
  token_facts, completed_facts, model_validate,
}
use dual_tmux.Resume.Event.{no_fields, revisions_field, token_field, evidence_field}
use dual_tmux.Resume.Chart.{
  resume_transitions, resume_graph, preflight_stable, token_matches_claimant,
  verification_matches_occupancy, rollback_proved, enter,
}
use dual_tmux.Resume.Machine.{Snapshot, ResumeMachine, create, restore, send}
use dual_tmux.Resume.Run.{Report, run}
use dual_tmux.Resume.Atomic.{send_error}
use dual_tmux.Resume.Restore.{reloaded, restore-run}
use dual_tmux.Resume.Traces.{Story, events, run-Story, run-IsSound}
use dual_tmux.Resume.Outcomes.{IsProved, run-IsProved, run_final}

abbrev memory : StateStore Snapshot
memory = memory_store Snapshot

abbrev node : ResumeAttemptNode
node = record {
  attempt_id = "resume-1";
  idempotency_key = "resume-1";
  tunnel_name = "dt-demo";
  claimant_client_id = "tm_laptop";
  claimant_instance_id = "i-1";
  state = ResumeState.created;
  expected_binding_revisions = [];
  ownership_token = none;
  transfer_ids = [];
  verification = none;
  error = none;
  rollback_evidence = [];
  created_at = 100;
  updated_at = 100;
}

abbrev token : OccupancyToken
token = record {
  tunnel_name = "dt-demo";
  holder_client_id = "tm_laptop";
  generation = 7;
  newly_acquired = true;
  holder_instance_id = "i-1";
}

abbrev evidence : VerificationEvidence
evidence = record {
  generation = 7;
  occupancy_holder = "tm_laptop";
  trigger_writer_count = 1;
  bullet_writer_count = 0;
  trigger_observation_id = "t";
  bullet_observation_id = "b";
}

abbrev stale : VerificationEvidence
stale = record evidence { generation = 8 }

-- The evidence of another generation is refused, that of the claimed one is accepted.
abbrev reports : List (Report memory)
reports =
    record { event = ResumeEvent.processing_started; fields = no_fields; now = 101 }
    ∷ record {
      event = ResumeEvent.preflight_passed;
      fields = revisions_field ("r" ∷ []) true;
      now = 102;
    }
    ∷ record { event = ResumeEvent.ownership_acquired; fields = token_field token; now = 103 }
    ∷ record { event = ResumeEvent.restore_completed; fields = no_fields; now = 104 }
    ∷ record { event = ResumeEvent.verification_passed; fields = evidence_field stale; now = 105 }
    ∷ record {
      event = ResumeEvent.verification_passed;
      fields = evidence_field evidence;
      now = 106;
    }
    ∷ []

machine : ResumeMachine memory.State
unfolding create put
machine = (create memory node []).0

after : ResumeMachine memory.State
unfolding run send machine resume_graph find_transition model_validate node_fields legal_state_facts
    token_facts completed_facts distinct preflight_stable token_matches_claimant
    verification_matches_occupancy rollback_proved enter
after = run memory machine reports

completes : after.core.state ≡ ResumeState.completed
unfolding after
completes = refl

legal_node : model_validate node ≡ ok node
unfolding model_validate node_fields legal_state_facts token_facts distinct
legal_node = refl

created_node : create memory node [] ≡ (machine, none)
unfolding machine
created_node = refl

lawful : IsLawful memory
lawful = memory_store-IsLawful Snapshot

run-Story_example :
    Story (run memory machine reports).core.state (events (run memory machine reports).core.log)
run-Story_example = run-Story memory lawful node [] machine legal_node refl created_node reports

restore-run_example :
    restore memory "resume-1" (run memory machine reports).store
    ≡ ok (reloaded (run memory machine reports))
restore-run_example = restore-run memory node [] machine reports lawful legal_node refl created_node

run-IsProved_example : IsProved (run memory machine reports).core.context.node
unfolding after
run-IsProved_example =
    run-IsProved memory node [] machine reports lawful legal_node refl created_node refl

run_final_example : run memory after reports ≡ after
unfolding after
run_final_example =
    run_final memory lawful after reports
      (run-IsSound memory lawful node [] machine legal_node refl created_node reports) refl

-- A token of another client is refused by the guard, and nothing has changed.
abbrev foreign : OccupancyToken
foreign = record token { holder_client_id = "tm_other" }

send_error_example :
    (send memory machine ResumeEvent.ownership_acquired (token_field foreign) 9).0 ≡ machine
unfolding send machine resume_graph find_transition
send_error_example =
    send_error memory lawful machine ResumeEvent.ownership_acquired (token_field foreign) 9
      (transition_error unavailable) refl

-- The graph of the resume attempts is declared as a dict.
find_transition-make_graph_example :
    find_transition
      (make_graph resume_transitions ResumeState.created)
      ResumeState.restoring
      ResumeEvent.restore_failed
    ≡ first_edge ResumeState.restoring ResumeEvent.restore_failed resume_transitions
unfolding resume_transitions definition_at
find_transition-make_graph_example =
    find_transition-make_graph resume_transitions ResumeState.created ResumeState.restoring
      ResumeEvent.restore_failed
      (refl, (refl, (refl, (refl, (refl, (refl, (refl, (refl, (refl, (refl, (refl, tt)))))))))))

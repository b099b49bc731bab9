-- ===== src/Binding/Restore.antt =====
-- `BindingMachine.restore` after any run.

use dual_tmux.Prelude.{String, ◌≡◌, refl, ap, none, some, List, [], ◌∷◌, map, beq_refl}
use dual_tmux.Prelude.Result.{ok}
use dual_tmux.Fsm.Store.{StateStore, IsLawful}
use dual_tmux.Binding.State.{created, state_eq}
use dual_tmux.Binding.Node.{BindingAttemptNode, model_validate}
use dual_tmux.Binding.Run.{Report, run, IsCurrent, create-IsCurrent, run-IsCurrent}
use dual_tmux.Binding.Chart.{local, text}
use dual_tmux.Binding.Machine.{
  Snapshot, Log, BindingMachine, item, entries, snapshot_of, create, restore,
}

entries-map : (l : Log) → entries (map item l) ≡ l
unfolding entries
entries-map [] = refl
entries-map (e ∷ l) = ap (λ r. e ∷ r) (entries-map l)

-- The machine without the payload of the last event and the holder that was reported: the node
-- holds that one. The two facts of the request are defaults if there was none.
abbrev pub reloaded : {K : Type 0} → BindingMachine K → BindingMachine K
reloaded m = record m {
  core = record m.core {
    context = record {
      node = m.core.context.node;
      payload = none;
      local_mode = some (local m.core.context.local_mode);
      occupancy_holder = some (text m.core.context.occupancy_holder);
      holder = none;
    };
  };
}

module _ (st : StateStore Snapshot) where
  restore_current :
      (attempt_id : String) (m : BindingMachine st.State)
      → IsCurrent st attempt_id m
      → restore st attempt_id m.store ≡ ok (reloaded m)
  unfolding restore snapshot_of
  restore_current attempt_id m h =
      rw (h.stored, restore)
        (rw h.sound.legal (
          rw h.sound.state (
            rw (beq_refl m.core.state) (
              rw h.sound.path
                (rw (beq_refl m.core.state) (cc (entries-map m.core.log, h.sound.graph)))))))

  -- After any reports, the snapshot that the store holds restores to the machine as it is, but for
  -- the payload and the reported holder. The store is lawful, and the machine was created from a
  -- valid node in the state `created`.
  pub binding_restore-run :
      (node : BindingAttemptNode) (store : st.State) (m : BindingMachine st.State)
      (reports : List (Report st))
      → IsLawful st
      → model_validate node ≡ ok node
      → node.state ≡ created
      → create st node store ≡ (m, none)
      → restore st node.attempt_id (run st m reports).store ≡ ok (reloaded (run st m reports))
  binding_restore-run node store m reports lawful legal fresh made =
      restore_current node.attempt_id (run st m reports) (
        run-IsCurrent st lawful node.attempt_id m reports
          (create-IsCurrent st lawful node.attempt_id node store m legal fresh refl made))

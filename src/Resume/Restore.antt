-- ===== src/Resume/Restore.antt =====
-- `ResumeMachine.restore` after any run.

use dual_tmux.Prelude.{String, ◌≡◌, refl, ap, none, List, [], ◌∷◌, map, beq_refl}
use dual_tmux.Prelude.Result.{ok}
use dual_tmux.Fsm.Store.{StateStore, IsLawful}
use dual_tmux.Resume.State.{created, state_eq}
use dual_tmux.Resume.Node.{ResumeAttemptNode, model_validate}
use dual_tmux.Resume.Run.{Report, run, IsCurrent, create-IsCurrent, run-IsCurrent}
use dual_tmux.Resume.Machine.{
  Snapshot, Log, ResumeMachine, item, entries, snapshot_of, create, restore,
}

entries-map : (l : Log) → entries (map item l) ≡ l
unfolding entries
entries-map [] = refl
entries-map (e ∷ l) = ap (λ r. e ∷ r) (entries-map l)

-- The machine without the payload of the last event.
abbrev pub reloaded : {K : Type 0} → ResumeMachine K → ResumeMachine K
reloaded m = record m {
  core = record m.core { context = record { node = m.core.context.node; payload = none } };
}

module _ (st : StateStore Snapshot) where
  restore_current :
      (attempt_id : String) (m : ResumeMachine st.State)
      → IsCurrent st attempt_id m
      → restore st attempt_id m.store ≡ ok (reloaded m)
  unfolding restore snapshot_of
  restore_current attempt_id m h =
      rw (h.stored, restore)
        (rw h.sound.legal (
          rw h.sound.state (
            rw (beq_refl m.core.state) (
              rw h.sound.path
                (rw (beq_refl m.core.state) (cc (entries-map m.core.log, h.sound.graph)))))))

  -- After any reports, the snapshot that the store holds restores to the machine as it is, but for
  -- the payload of the last event, which no snapshot holds. The store is lawful, and the machine
  -- was created from a valid node in the state `created`.
  pub restore-run :
      (node : ResumeAttemptNode) (store : st.State) (m : ResumeMachine st.State)
      (reports : List (Report st))
      → IsLawful st
      → model_validate node ≡ ok node
      → node.state ≡ created
      → create st node store ≡ (m, none)
      → restore st node.attempt_id (run st m reports).store ≡ ok (reloaded (run st m reports))
  restore-run node store m reports lawful legal fresh made =
      restore_current node.attempt_id (run st m reports) (
        run-IsCurrent st lawful node.attempt_id m reports
          (create-IsCurrent st lawful node.attempt_id node store m legal fresh refl made))

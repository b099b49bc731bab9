-- ===== src/Resume/Outcomes.antt =====
-- Final states, and what a completed attempt has proved.

use dual_tmux.Prelude.{
  ℕ, ◌≤◌, ◌≡◌, refl, ◌∙◌, ap, inl, inr, Bool, true, false, Option, none, some, List, [], ◌∷◌, arith,
  eq_iff,
}
use dual_tmux.Prelude.Result.{ok, Result-cases}
use dual_tmux.Fsm.Store.{StateStore, IsLawful}
use dual_tmux.Resume.State.{
  ResumeState, created, completed, rejected, failed, attention, ResumeEvent,
}
use dual_tmux.Resume.Node.{
  ResumeAttemptNode, OccupancyToken, VerificationEvidence, model_validate, legal_state_facts,
  token_facts, completed_facts,
}
use dual_tmux.Resume.Event.{Fields}
use dual_tmux.Resume.Steps.{target, send-Accepted}
use dual_tmux.Resume.Sound.{IsSound}
use dual_tmux.Resume.Atomic.{send_error}
use dual_tmux.Resume.Run.{Report, run, send-Sent}
use dual_tmux.Resume.Traces.{run-IsSound}
use dual_tmux.Resume.Machine.{create, Snapshot, ResumeMachine, send}

abbrev pub is_final : ResumeState → Bool
is_final completed = true
is_final rejected = true
is_final failed = true
is_final attention = true
is_final _ = false

not_final : (s t : ResumeState) (e : ResumeEvent) → target s e ≡ some t → is_final s ≡ false
not_final s t e h = ground arith

module _ (st : StateStore Snapshot) (lawful : IsLawful st) where
  send_final :
      (m : ResumeMachine st.State) (event : ResumeEvent) (fields : Fields) (now : ℕ)
      → IsSound m.core
      → is_final m.core.state ≡ true
      → (send st m event fields now).0 ≡ m
  send_final m event fields now h final = elim (Result-cases (send st m event fields now).1) [
    | inl (s, e) ↦
        let sent = send-Sent st m event fields now s e in
        let a = send-Accepted refl h.graph sent.sent in
        cc (not_final m.core.state s event a.edge_taken)
    | inr (x, e) ↦ send_error st lawful m event fields now x e
  ]

  -- From a final state of a sound machine over a lawful store no report changes anything: whatever
  -- the events and fields, the machine and its store stay as they are.
  pub run_final :
      (m : ResumeMachine st.State) (reports : List (Report st))
      → IsSound m.core
      → is_final m.core.state ≡ true
      → run st m reports ≡ m
  unfolding run
  run_final m [] h final = refl
  run_final m (r ∷ reports) h final =
      ap (λ n. run st n reports) (send_final m r.event r.fields r.now h final)
      ∙ run_final m reports h final

-- The facts behind a completed attempt.
pub record IsProved (n : ResumeAttemptNode) : Type 0 where
  pub token : OccupancyToken
  pub evidence : VerificationEvidence
  pub has_token : n.ownership_token ≡ some token
  pub has_evidence : n.verification ≡ some evidence
  pub same_tunnel : token.tunnel_name ≡ n.tunnel_name
  pub same_client : token.holder_client_id ≡ n.claimant_client_id
  pub same_generation : evidence.generation ≡ token.generation
  pub one_trigger : evidence.trigger_writer_count ≤ 1
  pub one_bullet : evidence.bullet_writer_count ≤ 1

pub proved :
    (n : ResumeAttemptNode) (t : Option OccupancyToken) (v : Option VerificationEvidence)
    → n.ownership_token ≡ t
    → n.verification ≡ v
    → token_facts n t ≡ ok tt
    → completed_facts n v t ≡ ok tt
    → IsProved n
unfolding token_facts completed_facts
proved n (some t) (some v) ht hv tf cf = record {
  token = t;
  evidence = v;
  has_token = ht;
  has_evidence = hv;
  same_tunnel = ground (arith, eq_iff t.tunnel_name n.tunnel_name);
  same_client = ground (arith, eq_iff t.holder_client_id n.claimant_client_id);
  same_generation = ground arith;
  one_trigger = ground arith;
  one_bullet = ground arith;
}
proved n none (some v) ht hv tf cf = cc
proved n t none ht hv tf cf = cc

pub completed-facts :
    (n : ResumeAttemptNode)
    → model_validate n ≡ ok n
    → n.state ≡ completed
    → (token_facts n n.ownership_token ≡ ok tt)
      × (completed_facts n n.verification n.ownership_token ≡ ok tt)
unfolding model_validate legal_state_facts
completed-facts n h e = ground arith

-- In any run of an attempt that was created from a valid new node over a lawful store, a completed
-- attempt holds a token of its own tunnel and client, and evidence that was taken under the
-- generation of that token with at most one writer on each side.
pub run-IsProved :
    (st : StateStore Snapshot) (node : ResumeAttemptNode) (store : st.State)
    (m : ResumeMachine st.State) (reports : List (Report st))
    → IsLawful st
    → model_validate node ≡ ok node
    → node.state ≡ created
    → create st node store ≡ (m, none)
    → (run st m reports).core.state ≡ completed
    → IsProved (run st m reports).core.context.node
run-IsProved st node store m reports lawful legal fresh made e =
    let h = run-IsSound st lawful node store m legal fresh made reports in
    let n = (run st m reports).core.context.node in
    let (token, done) = completed-facts n h.legal (h.state ∙ e) in proved n _ _ refl refl token done

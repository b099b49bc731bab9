-- ===== src/Resume/Accepted.antt =====
-- Events that a resume attempt accepts over a store whose `save` never raises.
use dual_tmux.Prelude.{ℕ, String, ◌≡◌, refl, sym, ◌∙◌, ap, true, Option, none, some, arith}
use dual_tmux.Prelude.Result.{Exn, Result, ok, err}
use dual_tmux.Fsm.Graph.{find_transition}
use dual_tmux.Fsm.Machine
use dual_tmux.Fsm.Machine.{passes}
use dual_tmux.Fsm.Machine.Steps.{send_found}
use dual_tmux.Fsm.Store.{StateStore}
use dual_tmux.Resume.State.{ResumeState, ResumeEvent, state_eq, event_eq}
use dual_tmux.Resume.Node.{ResumeAttemptNode, model_validate}
use dual_tmux.Resume.Event.{Payload, Fields, validate_payload}
use dual_tmux.Resume.Chart.{apply_changes, enter, resume_graph}
use dual_tmux.Resume.Steps.{target, guard_of, send-Accepted, find_transition-resume_graph, found}
use dual_tmux.Resume.Sound.{IsSound, Accepted-IsSound, model_validate-eq}
use dual_tmux.Resume.Run.{send-Sent}
use dual_tmux.Resume.Machine.{
  Snapshot, Core, ResumeMachine, with_payload, persist, attempt, finish, deliver, send,
}

core_send :
    (c : Core) (p : Payload) (event : ResumeEvent) (now : ℕ) (t : ResumeState)
    {v : ResumeAttemptNode}
    → c.graph ≡ resume_graph
    → c.context.payload ≡ some p
    → target c.state event ≡ some t
    → passes (guard_of event) c.context ≡ ok true
    → model_validate (record (apply_changes c.context.node p) { state = t; updated_at = now })
      ≡ ok v
    → (Machine.send c event (λ x. x) now).1 ≡ ok t
unfolding Machine.follow enter
core_send c p event now t g known e passed valid =
    let hit =
      ap (λ x. find_transition x c.state event) g
      ∙ find_transition-resume_graph c.state event
      ∙ ap (found c.state event) e in
    rw (send_found c event now c.state t _ hit) (rw passed (ground arith))

-- A store whose `save` never raises, as that of `MemoryStateStore`.
abbrev pub IsSteady : StateStore Snapshot → Type 0
IsSteady st = (k : String) (v : Snapshot) (s : st.State) → (st.save k v s).1 ≡ none

module _ (st : StateStore Snapshot) (steady : IsSteady st) where
  finish_ok :
      (before core : Core) (t : ResumeState) (p : st.State × Option Exn)
      → p.1 ≡ none
      → (finish st before core t p).1 ≡ ok t
  unfolding finish
  finish_ok before core t (s, none) h = refl
  finish_ok before core t (s, some e) h = cc

  attempt_ok :
      (m : ResumeMachine st.State) (q : Core × Result ResumeState) (t : ResumeState)
      → q.1 ≡ ok t
      → (attempt st m q).1 ≡ ok t
  unfolding attempt
  attempt_ok m (core, ok s) t h =
      finish_ok m.core core s (persist st core m.store) (unfold persist in steady _ _ m.store) ∙ h
  attempt_ok m (core, err e) t h = cc

  -- An event with a valid payload, an edge, a passed guard and a valid result is accepted.
  pub send_ok :
      (m : ResumeMachine st.State) (event : ResumeEvent) (given : Fields) (now : ℕ) (p : Payload)
      (t : ResumeState) {v : ResumeAttemptNode}
      → IsSound m.core
      → validate_payload event given ≡ ok p
      → target m.core.state event ≡ some t
      → passes (guard_of event) (with_payload st m.core p).context ≡ ok true
      → model_validate
          (record (apply_changes m.core.context.node p) { state = t; updated_at = now })
        ≡ ok v
      → (send st m event given now).1 ≡ ok t
  unfolding send
  send_ok m event given now p t h checked e passed valid =
      let c = with_payload st m.core p in
      let q = Machine.send c event (λ x. x) now in
      ap (λ r. (deliver st m event now r).1) checked
      ∙ attempt_ok m q t (core_send c p event now t h.graph refl e passed valid)

-- What an accepted event leaves.
pub record Moved (st : StateStore Snapshot) (m n : ResumeMachine st.State) (p : Payload)
    (t : ResumeState) (now : ℕ) : Type 0 where
  pub sound : IsSound n.core
  pub state : n.core.state ≡ t
  pub node :
      n.core.context.node
      ≡ record (apply_changes m.core.context.node p) { state = t; updated_at = now }

ok_injective : {A : Type 0} {a b : A} → ok a ≡ ok b → a ≡ b
ok_injective h = cc

-- After an accepted event the node is the one that the payload makes of the node before.
pub send-Moved :
    (st : StateStore Snapshot) (m : ResumeMachine st.State) (event : ResumeEvent) (given : Fields)
    (now : ℕ) (p : Payload) (t : ResumeState)
    → IsSound m.core
    → validate_payload event given ≡ ok p
    → (send st m event given now).1 ≡ ok t
    → Moved st m (send st m event given now).0 p t now
send-Moved st m event given now p t h checked e =
    let sent = send-Sent st m event given now t e in
    let a = send-Accepted refl h.graph sent.sent in
    let before : IsSound (with_payload st m.core sent.payload) = record {
      graph = h.graph;
      state = h.state;
      legal = h.legal;
      path = h.path;
    } in
    let same : sent.payload ≡ p = ok_injective (sym sent.valid ∙ checked) in
    record {
      sound = Accepted-IsSound a before;
      state = a.state;
      node =
          sym (model_validate-eq _ a.validated)
          ∙ ap (λ q. record (apply_changes m.core.context.node q) { state = t; updated_at = now })
              same;
    }

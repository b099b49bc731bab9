-- ===== src/Binding/Commit/Accepted.antt =====
-- Events that a binding attempt accepts over a store whose `save` never raises.

use dual_tmux.Prelude.{ℕ, String, ◌≡◌, refl, ◌∙◌, ap, Option, none, some, arith, true}
use dual_tmux.Prelude.Result.{Exn, Result, ok, err}
use dual_tmux.Fsm.Graph.{find_transition}
use dual_tmux.Fsm.Machine
use dual_tmux.Fsm.Machine.Steps.{send_found}
use dual_tmux.Fsm.Store.{StateStore}
use dual_tmux.Binding.State.{
  BindingState, committing, bound, failed, BindingEvent, state_eq, event_eq,
}
use dual_tmux.Binding.Node.{
  BindingAttemptNode, Payload, Fields, validate_payload, model_validate, legal_candidate,
}
use dual_tmux.Binding.Chart.{apply_changes, enter, binding_graph}
use dual_tmux.Binding.Steps.{target, guard_of, send-Accepted, find_transition-binding_graph, found}
use dual_tmux.Binding.Sound.{IsSound}
use dual_tmux.Binding.Run.{send-Sent}
use dual_tmux.Binding.Machine.{
  Snapshot, Core, BindingMachine, with_payload, persist, attempt, finish, deliver, send,
}

-- Leaving `committing` needs no proof of the candidate again.
pub legal_bound :
    (n : BindingAttemptNode)
    → model_validate n ≡ ok n
    → n.state ≡ committing
    → model_validate (record n { state = bound; error = "" })
      ≡ ok (record n { state = bound; error = "" })
unfolding model_validate legal_candidate
legal_bound n h s = ground arith

pub legal_failed :
    (n : BindingAttemptNode) (message : String)
    → model_validate n ≡ ok n
    → model_validate (record n { state = failed; error = message })
      ≡ ok (record n { state = failed; error = message })
unfolding model_validate legal_candidate
legal_failed n message h = ground arith

core_send :
    (c : Core) (p : Payload) (event : BindingEvent) (now : ℕ) (t : BindingState)
    {v : BindingAttemptNode}
    → c.graph ≡ binding_graph
    → c.context.payload ≡ some p
    → target c.state event ≡ some t
    → Machine.passes (guard_of event) c.context ≡ ok true
    → model_validate (record (apply_changes c.context.node p) { state = t }) ≡ ok v
    → (Machine.send c event (λ x. x) now).1 ≡ ok t
unfolding Machine.follow enter
core_send c p event now t g known e passed valid =
    let hit =
      ap (λ x. find_transition x c.state event) g
      ∙ find_transition-binding_graph c.state event
      ∙ ap (found c.state event) e in
    rw (send_found c event now c.state t _ hit) (rw passed (ground arith))

-- A store whose `save` never raises, as that of `MemoryStateStore`.
abbrev pub IsSteady : StateStore Snapshot → Type 0
IsSteady st = (k : String) (v : Snapshot) (s : st.State) → (st.save k v s).1 ≡ none

module _ (st : StateStore Snapshot) (steady : IsSteady st) where
  finish_ok :
      (before core : Core) (t : BindingState) (p : st.State × Option Exn)
      → p.1 ≡ none
      → (finish st before core t p).1 ≡ ok t
  unfolding finish
  finish_ok before core t (s, none) h = refl
  finish_ok before core t (s, some e) h = cc

  attempt_ok :
      (m : BindingMachine st.State) (q : Core × Result BindingState) (t : BindingState)
      → q.1 ≡ ok t
      → (attempt st m q).1 ≡ ok t
  unfolding attempt
  attempt_ok m (core, ok s) t h =
      finish_ok m.core core s (persist st core m.store) (unfold persist in steady _ _ m.store) ∙ h
  attempt_ok m (core, err e) t h = cc

  -- An event with a valid payload, an edge, a guard that passes and a valid result is accepted.
  pub send_passed :
      (m : BindingMachine st.State) (event : BindingEvent) (given : Fields) (now : ℕ) (p : Payload)
      (t : BindingState) {v : BindingAttemptNode}
      → IsSound m.core
      → validate_payload event given ≡ ok p
      → target m.core.state event ≡ some t
      → Machine.passes (guard_of event) (with_payload st m.core p).context ≡ ok true
      → model_validate (record (apply_changes m.core.context.node p) { state = t }) ≡ ok v
      → (send st m event given now).1 ≡ ok t
  unfolding send
  send_passed m event given now p t h checked e passed valid =
      let c = with_payload st m.core p in
      let q = Machine.send c event (λ x. x) now in
      ap (λ r. (deliver st m event now r).1) checked
      ∙ attempt_ok m q t (core_send c p event now t h.graph refl e passed valid)

  -- An event without a guard.
  pub send_ok :
      (m : BindingMachine st.State) (event : BindingEvent) (given : Fields) (now : ℕ) (p : Payload)
      (t : BindingState) {v : BindingAttemptNode}
      → IsSound m.core
      → validate_payload event given ≡ ok p
      → target m.core.state event ≡ some t
      → guard_of event ≡ none
      → model_validate (record (apply_changes m.core.context.node p) { state = t }) ≡ ok v
      → (send st m event given now).1 ≡ ok t
  unfolding Machine.passes
  send_ok m event given now p t h checked e unguarded valid =
      send_passed m event given now p t h checked e (rw unguarded refl) valid

  -- The state after an accepted event.
  pub state-send :
      (m : BindingMachine st.State) (event : BindingEvent) (fields : Fields) (now : ℕ)
      (t : BindingState)
      → IsSound m.core
      → (send st m event fields now).1 ≡ ok t
      → (send st m event fields now).0.core.state ≡ t
  state-send m event fields now t h e =
      (send-Accepted refl h.graph (send-Sent st m event fields now t e).sent).state

-- ===== src/Binding/Steps.antt =====
-- What an accepted event of a binding attempt does, read off the graph.
use dual_tmux.Prelude.{
  ℕ, ◌≡◌, refl, sym, ◌∙◌, ap, inl, inr, Bool, true, false, Option, none, some, [], ◌∷◌, ◌++◌, arith,
  Option-cases,
}
use dual_tmux.Prelude.Result.{Result, ok, err}
use dual_tmux.Fsm.Graph.{Guard, TransitionDef, find_transition}
use dual_tmux.Fsm.Machine.{Entry, passes, follow, send}
use dual_tmux.Fsm.Machine.Steps.{send_missing, send_found}
use dual_tmux.Binding.State.{
  BindingState, created, proving, committing, bound, rejected, failed, BindingEvent, requested,
  live_session_proven, live_session_missing, commit_succeeded, commit_failed, state_eq, event_eq,
}
use dual_tmux.Binding.Node.{BindingAttemptNode, Payload, model_validate}
use dual_tmux.Binding.Chart.{
  Context, can_prove, note_request, apply_changes, enter, edge, binding_graph,
}
use dual_tmux.Binding.Machine.{Core}

-- The transition diagram as a table.
abbrev pub target : BindingState → BindingEvent → Option BindingState
target created requested = some proving
target proving live_session_proven = some committing
target proving live_session_missing = some rejected
target committing commit_succeeded = some bound
target committing commit_failed = some failed
target _ _ = none

abbrev pub guard_of : BindingEvent → Option (Guard Context)
guard_of live_session_proven = some can_prove
guard_of _ = none

abbrev pub found :
    BindingState
    → BindingEvent
    → Option BindingState
    → Option (BindingState × BindingState × TransitionDef BindingEvent Context)
found s e none = none
found s e (some t) = some (s, t, (edge s t e (guard_of e)).1)

-- The indexed search of the graph answers what the table says.
pub find_transition-binding_graph :
    (s : BindingState) (e : BindingEvent)
    → find_transition binding_graph s e ≡ found s e (target s e)
unfolding find_transition binding_graph
find_transition-binding_graph created requested = refl
find_transition-binding_graph created _ = refl
find_transition-binding_graph proving requested = refl
find_transition-binding_graph proving _ = refl
find_transition-binding_graph committing requested = refl
find_transition-binding_graph committing _ = refl
find_transition-binding_graph bound requested = refl
find_transition-binding_graph bound _ = refl
find_transition-binding_graph rejected requested = refl
find_transition-binding_graph rejected _ = refl
find_transition-binding_graph failed requested = refl
find_transition-binding_graph failed _ = refl

abbrev pub entry : BindingState → BindingState → BindingEvent → ℕ → Entry BindingState BindingEvent
entry from to event now = record { from = from; to = to; event = event; ts = now }

-- What a machine is after an accepted event.
pub record Accepted (c d : Core) (payload : Payload) (event : BindingEvent) (now : ℕ)
    (s : BindingState) : Type 0 where
  pub edge_taken : target c.state event ≡ some s
  pub guarded : passes (guard_of event) c.context ≡ ok true
  pub validated :
      model_validate (record (apply_changes c.context.node payload) { state = s })
      ≡ ok d.context.node
  pub noted :
      (d.context.local_mode ≡ (note_request c.context payload).local_mode)
      × (d.context.occupancy_holder ≡ (note_request c.context payload).occupancy_holder)
  pub state : d.state ≡ s
  pub graph : d.graph ≡ c.graph
  pub log : d.log ≡ c.log ++ (entry c.state s event now ∷ [])

module _ {c d : Core} {payload : Payload} {event : BindingEvent} {now : ℕ} {s : BindingState}
    (known : c.context.payload ≡ some payload) where
  settled :
      (t : BindingState) (r : Result BindingAttemptNode)
      → target c.state event ≡ some t
      → passes (guard_of event) c.context ≡ ok true
      → model_validate (record (apply_changes c.context.node payload) { state = t }) ≡ r
      → follow c t (edge c.state t event (guard_of event)).1 event now (ok true) ≡ (d, ok s)
      → Accepted c d payload event now s
  unfolding follow enter
  settled t (ok node) e p v h = ground arith
  settled t (err x) e p v h = ground arith

  decided :
      (t : BindingState) (r : Result Bool)
      → target c.state event ≡ some t
      → passes (guard_of event) c.context ≡ r
      → follow c t (edge c.state t event (guard_of event)).1 event now r ≡ (d, ok s)
      → Accepted c d payload event now s
  decided t (ok true) e p h = settled t _ e p refl h
  decided t (ok false) e p h = unfold follow in cc
  decided t (err x) e p h = unfold follow in cc

  -- An event that the core accepts follows an edge of the diagram, with its guard passed and the
  -- changed node valid.
  pub send-Accepted :
      c.graph ≡ binding_graph
      → send c event (λ x. x) now ≡ (d, ok s)
      → Accepted c d payload event now s
  send-Accepted g h = elim (Option-cases (target c.state event)) [
    | inl e ↦
        let missing =
          ap (λ x. find_transition x c.state event) g
          ∙ find_transition-binding_graph c.state event
          ∙ ap (found c.state event) e in
        cc (send_missing c event now missing)
    | inr (t, e) ↦
        let hit =
          ap (λ x. find_transition x c.state event) g
          ∙ find_transition-binding_graph c.state event
          ∙ ap (found c.state event) e in
        decided t _ e refl (sym (send_found c event now c.state t _ hit) ∙ h)
  ]

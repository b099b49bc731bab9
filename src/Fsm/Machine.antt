-- ===== src/Fsm/Machine.antt =====
-- datanode/fsm_core/state_machine/machine.py: one run of a graph, with its context and its log.
pub mod Steps
use dual_tmux.Prelude.{ℕ, Bool, true, false, Option, none, some, List, [], ◌∷◌, ◌++◌, Comparable}
use dual_tmux.Prelude.Result.{Exn, Result, ok, err, transition_error, unavailable, guard_rejected}
use dual_tmux.Fsm.Graph.{Guard, Action, TransitionDef, Graph, find_transition}

-- A log entry; `ts` is the reading of the clock.
pub record Entry {ℓ} (S E : Type ℓ) : Type ℓ where
  pub from : S
  pub to : S
  pub event : E
  pub ts : ℕ

pub record Machine {ℓ} (S E C : Type ℓ) : Type ℓ where
  pub graph : Graph S E C
  pub state : S
  pub context : C
  pub log : List (Entry S E)

abbrev pub new {ℓ} : {S E C : Type ℓ} → Graph S E C → C → Machine S E C
new graph context = record { graph = graph; state = graph.initial; context = context; log = [] }

-- `not definition.guard or definition.guard(self.context)`
unfoldable pub passes {ℓ} : {C : Type ℓ} → Option (Guard C) → C → Result Bool
passes none context = ok true
passes (some guard) context = guard context

unfoldable pub run_action {ℓ} : {C : Type ℓ} → Option (Action C) → ℕ → C → C × Option Exn
run_action none now context = (context, none)
run_action (some action) now context = action now context

module _ {ℓ} {S E C : Type ℓ} where
  -- After `on_exit`: the new state, the log entry and `on_enter`.
  unfoldable pub arrive :
      Machine S E C → S → TransitionDef E C → E → ℕ → C × Option Exn → Machine S E C × Result S
  unfolding run_action
  arrive m to definition event now (context, some e) = (record m { context = context }, err e)
  arrive m to definition event now (context, none) =
      let entry : Entry S E = record { from = m.state; to = to; event = event; ts = now } in
      let (entered, raised) = run_action definition.on_enter now context in
      (
        record m { state = to; context = entered; log = m.log ++ (entry ∷ []) },
        elim raised [ some e ↦ err e | none ↦ ok to ],
      )

  unfoldable pub follow :
      Machine S E C → S → TransitionDef E C → E → ℕ → Result Bool → Machine S E C × Result S
  unfolding arrive
  follow m to definition event now (err e) = (m, err e)
  follow m to definition event now (ok false) = (m, err (transition_error guard_rejected))
  follow m to definition event now (ok true) =
      arrive m to definition event now (run_action definition.on_exit now m.context)

module _ {ℓ} {S E C : Type ℓ} ⦃s : Comparable S⦄ ⦃e : Comparable E⦄ where
  -- `absorb` is what the argument `data` merges into the context, the identity if it is falsy.
  unfoldable pub send : Machine S E C → E → (C → C) → ℕ → Machine S E C × Result S
  unfolding find_transition follow passes
  send machine event absorb now =
      let m : Machine S E C = record machine { context = absorb machine.context } in
      elim (find_transition m.graph m.state event) [
        | none ↦ (m, err (transition_error unavailable))
        | some (from, to, definition) ↦
            follow m to definition event now (passes definition.guard m.context)
      ]

  unfoldable pub can_send : Machine S E C → E → Result Bool
  unfolding find_transition passes
  can_send m event = elim (find_transition m.graph m.state event) [
    | none ↦ ok false
    | some (from, to, definition) ↦ passes definition.guard m.context
  ]

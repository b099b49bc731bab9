-- ===== src/Fsm/Machine/Steps.antt =====
-- One `send` of machine.py, by what the graph answers.
use dual_tmux.Prelude.{ℕ, ◌≡◌, none, some, Comparable, arith}
use dual_tmux.Prelude.Result.{err, transition_error, unavailable}
use dual_tmux.Fsm.Graph.{TransitionDef, find_transition}
use dual_tmux.Fsm.Machine.{Machine, send, follow, passes}

module _ {ℓ} {S E C : Type ℓ} ⦃s : Comparable S⦄ ⦃e : Comparable E⦄ where
  pub send_missing :
      (m : Machine S E C) (event : E) (now : ℕ)
      → find_transition m.graph m.state event ≡ none
      → send m event (λ c. c) now ≡ (m, err (transition_error unavailable))
  unfolding send
  send_missing m event now h = rw (h, send)

  pub send_found :
      (m : Machine S E C) (event : E) (now : ℕ) (from to : S) (d : TransitionDef E C)
      → find_transition m.graph m.state event ≡ some (from, to, d)
      → send m event (λ c. c) now ≡ follow m to d event now (passes d.guard m.context)
  unfolding send
  send_found m event now from to d h = rw (h, send)

  -- The graph of a machine never changes.
  pub graph-send :
      (m : Machine S E C) (event : E) (now : ℕ) → (send m event (λ c. c) now).0.graph ≡ m.graph
  unfolding send
  graph-send m event now = ground arith

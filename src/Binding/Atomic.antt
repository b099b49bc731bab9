-- ===== src/Binding/Atomic.antt =====
-- A refused event leaves the machine of a binding attempt as it was.
use dual_tmux.Prelude.{ℕ, ◌≡◌, refl, none, some, Option, arith}
use dual_tmux.Prelude.Result.{Exn, Result, ok, err}
use dual_tmux.Fsm.Machine
use dual_tmux.Fsm.Machine.Steps.{graph-send}
use dual_tmux.Fsm.Store.{StateStore, IsLawful}
use dual_tmux.Binding.State.{BindingState, BindingEvent, state_eq, event_eq}
use dual_tmux.Binding.Node.{Payload, Fields, validate_payload}
use dual_tmux.Binding.Machine.{
  Snapshot, Core, BindingMachine, put_back, finish, persist, with_payload, attempt, deliver, send,
}

module _ (st : StateStore Snapshot) where
  put_back-eq : (before core : Core) → core.graph ≡ before.graph → put_back st before core ≡ before
  unfolding put_back
  put_back-eq before core h = ground arith

  finish_error :
      (m : BindingMachine st.State) (core : Core) (state : BindingState) (p : st.State × Option Exn)
      → {x : Exn} → core.graph ≡ m.core.graph
      → ((y : Exn) → p.1 ≡ some y → p.0 ≡ m.store)
      → (finish st m.core core state p).1 ≡ err x
      → (finish st m.core core state p).0 ≡ m
  unfolding finish
  finish_error m core state (store, none) g unchanged h = cc
  finish_error m core state (store, some e) g unchanged h =
      ground (arith, put_back-eq m.core core g, unchanged e refl)

  module _ (lawful : IsLawful st) where
    attempt_error :
        (m : BindingMachine st.State) (p : Core × Result BindingState)
        → {x : Exn} → p.0.graph ≡ m.core.graph
        → (attempt st m p).1 ≡ err x
        → (attempt st m p).0 ≡ m
    unfolding attempt
    attempt_error m (core, err e) g h = ground (arith, put_back-eq m.core core g)
    attempt_error m (core, ok state) g h =
        finish_error m core state (persist st core m.store) g
          (unfold persist in λ y. lawful.save_failed _ _ m.store y) h

    -- A `send` that raises, by validation, by a missing edge, by a guard, by an illegal node or by
    -- the store, leaves the core and the stored snapshots as they were.
    pub binding_send_error :
        (m : BindingMachine st.State) (event : BindingEvent) (fields : Fields) (now : ℕ) (x : Exn)
        → (send st m event fields now).1 ≡ err x
        → (send st m event fields now).0 ≡ m
    unfolding send
    binding_send_error m event fields now x h = delivered (validate_payload event fields) h
      where
        delivered :
            (r : Result Payload)
            → (deliver st m event now r).1 ≡ err x
            → (deliver st m event now r).0 ≡ m
        delivered (err e) k = refl
        delivered (ok payload) k =
            attempt_error m (Machine.send (with_payload st m.core payload) event (λ c. c) now)
              (graph-send (with_payload st m.core payload) event now) k

-- ===== src/Binding/State.antt =====
-- `BindingAttemptState` of datanode/models.py and `BindingEvent` of datanode/runtime_fsm/binding.py.
use dual_tmux.Prelude.{ℕ, ◌≡◌, ◌↔◌, true, arith, nat_beq, Comparable}

pub data BindingState : Type 0 where
  created proving committing bound rejected failed : BindingState

pub data BindingEvent : Type 0 where
  requested live_session_proven live_session_missing commit_succeeded commit_failed : BindingEvent

-- The places of the members, by which they are compared.
abbrev state_place : BindingState → ℕ
state_place created = 0
state_place proving = 1
state_place committing = 2
state_place bound = 3
state_place rejected = 4
state_place failed = 5

abbrev event_place : BindingEvent → ℕ
event_place requested = 0
event_place live_session_proven = 1
event_place live_session_missing = 2
event_place commit_succeeded = 3
event_place commit_failed = 4

pub state_place_iff :
    (a b : BindingState) → (nat_beq (state_place a) (state_place b) ≡ true) ↔ (a ≡ b)
state_place_iff a b = ground arith

pub event_place_iff :
    (a b : BindingEvent) → (nat_beq (event_place a) (event_place b) ≡ true) ↔ (a ≡ b)
event_place_iff a b = ground arith

instance abbrev pub state_eq : Comparable BindingState
state_eq = record {
  equal = λ a b. nat_beq (state_place a) (state_place b);
  equal_iff = state_place_iff;
}

instance abbrev pub event_eq : Comparable BindingEvent
event_eq = record {
  equal = λ a b. nat_beq (event_place a) (event_place b);
  equal_iff = event_place_iff;
}

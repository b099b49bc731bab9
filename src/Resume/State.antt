-- ===== src/Resume/State.antt =====
-- `ResumeState` and `ResumeEvent` of datanode/runtime_fsm/resume.py.
use dual_tmux.Prelude.{ℕ, ◌≡◌, ◌↔◌, true, arith, nat_beq, String, Comparable}

pub data ResumeState : Type 0 where
  created preflighting acquiring restoring verifying completed rejected rolling_back failed :
      ResumeState
  attention : ResumeState

pub data ResumeEvent : Type 0 where
  processing_started preflight_passed preflight_rejected ownership_acquired : ResumeEvent
  ownership_failed restore_completed restore_failed verification_passed : ResumeEvent
  verification_failed rollback_completed rollback_uncertain : ResumeEvent

abbrev pub value : ResumeState → String
value created = "created"
value preflighting = "preflighting"
value acquiring = "acquiring"
value restoring = "restoring"
value verifying = "verifying"
value completed = "completed"
value rejected = "rejected"
value rolling_back = "rolling_back"
value failed = "failed"
value attention = "attention"

-- The places of the members, by which they are compared.
abbrev state_place : ResumeState → ℕ
state_place created = 0
state_place preflighting = 1
state_place acquiring = 2
state_place restoring = 3
state_place verifying = 4
state_place completed = 5
state_place rejected = 6
state_place rolling_back = 7
state_place failed = 8
state_place attention = 9

abbrev event_place : ResumeEvent → ℕ
event_place processing_started = 0
event_place preflight_passed = 1
event_place preflight_rejected = 2
event_place ownership_acquired = 3
event_place ownership_failed = 4
event_place restore_completed = 5
event_place restore_failed = 6
event_place verification_passed = 7
event_place verification_failed = 8
event_place rollback_completed = 9
event_place rollback_uncertain = 10

pub state_place_iff :
    (a b : ResumeState) → (nat_beq (state_place a) (state_place b) ≡ true) ↔ (a ≡ b)
state_place_iff a b = ground arith

pub event_place_iff :
    (a b : ResumeEvent) → (nat_beq (event_place a) (event_place b) ≡ true) ↔ (a ≡ b)
event_place_iff a b = ground arith

instance abbrev pub state_eq : Comparable ResumeState
state_eq = record {
  equal = λ a b. nat_beq (state_place a) (state_place b);
  equal_iff = state_place_iff;
}

instance abbrev pub event_eq : Comparable ResumeEvent
event_eq = record {
  equal = λ a b. nat_beq (event_place a) (event_place b);
  equal_iff = event_place_iff;
}

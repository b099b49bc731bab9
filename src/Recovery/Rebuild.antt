-- ===== src/Recovery/Rebuild.antt =====
-- `auto_rebuild_if_stalled` of src/dual_tmux/recovery.py. The activity evidence and the control
-- service are other modules: a tick is given the bullet's state and what the rebuild does.
pub mod Cap
use dual_tmux.Prelude.{
  ℕ, String, ◌+◌, Bool, true, false, not, ◌&&◌, Option, none, some, List, [], ◌∷◌, ◌++◌,
}
use dual_tmux.Prelude.{if◌then◌else◌, ltb, leb, nat_beq, ◌==◌, string_eq}
use dual_tmux.Prelude.Result.{Exn, Result, ok, err}
use dual_tmux.Recovery.State.{Status, is_attention, Health, max_auto_rebuilds, auto_rebuild_backoff}

-- How `service.rebuild` ends: it returns, it raises `ControlError` or `SystemExit`, or another one.
pub data Rebuilt : Type 0 where
  returned : Rebuilt
  failed : String → Rebuilt
  raised : Exn → Rebuilt

pub record Tick : Type 0 where
  pub auto_recover : Bool
  pub bullet_state : String
  pub now : ℕ
  pub rebuilt : Rebuilt

pub data Event : Type 0 where
  hold : ℕ → Event
  auto : ℕ → ℕ → Event
  auto_fail : ℕ → String → Event

pub data Effect : Type 0 where
  saved : Health → Effect
  emitted : Event → Effect
  rebuild : Effect

abbrev pub Outcome : Type 0
Outcome = List Effect × Result (Option Bool)

-- The bullet works again.
abbrev pub cleared : Health → List Effect
cleared h =
    if nat_beq h.rebuild_attempts 0
    then []
    else saved (record h { rebuild_attempts = 0; rebuild_next_retry_at = 0 }) ∷ []

abbrev pub held : Health → List Effect
held h =
    if is_attention h.status
    then []
    else saved (record h {
      status = Status.attention;
      last_error = "auto rebuild exhausted; manual dt rebuild / dt resume needed";
    })
      ∷ emitted (hold h.rebuild_attempts)
      ∷ []

abbrev reported : ℕ → Rebuilt → List Effect × Result (Option Bool)
reported attempt returned = ([], ok (some true))
reported attempt (failed error) = (emitted (auto_fail attempt error) ∷ [], ok (some true))
reported attempt (raised e) = ([], err e)

-- The rebuild, after it was counted.
unfoldable pub rebuild_now : Tick → Health → Outcome
rebuild_now t h =
    let attempt = h.rebuild_attempts + 1 in
    let retry_at = t.now + auto_rebuild_backoff h.rebuild_attempts in
    let (effects, r) = reported attempt t.rebuilt in
    (
      saved (record h { rebuild_attempts = attempt; rebuild_next_retry_at = retry_at })
          ∷ emitted (auto attempt retry_at)
          ∷ rebuild
          ∷ effects,
      r,
    )

unfoldable pub auto_rebuild_if_stalled : Tick → Health → Outcome
unfolding rebuild_now
auto_rebuild_if_stalled t h =
    if not t.auto_recover
    then ([], ok none)
    else if t.bullet_state == "working"
    then (cleared h, ok none)
    else if not (t.bullet_state == "stalled")
    then ([], ok none)
    else if ltb t.now h.rebuild_next_retry_at
    then ([], ok none)
    else if leb max_auto_rebuilds h.rebuild_attempts
    then (held h, ok none)
    else rebuild_now t h

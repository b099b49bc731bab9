-- ===== src/Recovery/Observe.antt =====
-- `observe` of src/dual_tmux/recovery.py: one check of a tunnel, with its recovery. The prober and
-- the recoverer are callables: a check is given what they return.
pub mod Gates
pub mod Backoff
pub mod Paced
pub mod Raised
use dual_tmux.Prelude.{
  ℕ, String, ◌+◌, Bool, true, false, not, ◌&&◌, ◌||◌, Option, none, some, List, [], ◌∷◌, ◌++◌,
}
use dual_tmux.Prelude.{if◌then◌else◌, ltb, leb, nat_beq, ◌==◌, string_eq, nonempty}
use dual_tmux.Prelude.Result.{Exn, Result, ok, err}
use dual_tmux.Recovery.State.{
  Status, Layers, layer_status, Health, Probe, join, either, fail_threshold, max_attempts,
  circuit_seconds, recovery_warmup_seconds, recovery_turn_window_seconds,
  recovery_turn_recheck_seconds, backoff_seconds,
}

-- What the recoverer does: it returns a probe, exits with a message, or raises something else.
pub data Recovery : Type 0 where
  returned : Probe → Recovery
  exited : String → Recovery
  raised : Exn → Recovery

-- What one check reads. The clock reads `now`, and `stamp` as a text; an epoch of 0 is unknown.
pub record Check : Type 0 where
  pub name : String
  pub now : ℕ
  pub stamp : String
  pub auto : Bool
  pub auto_recover : Bool
  pub probe : Probe
  pub resume_epoch : ℕ
  pub activity_epoch : ℕ
  pub recovery : Recovery

pub data Event : Type 0 where
  trigger_probe_fail : String → Event
  bullet_probe_fail : List (String × String) → Event
  drop_suppressed : ℕ → ℕ → ℕ → ℕ → Event
  attempt_fail : ℕ → String → ℕ → Event

-- What a check does, in order: it writes the state file, emits an event, or calls the recoverer.
pub data Effect : Type 0 where
  saved : Health → Effect
  emitted : Event → Effect
  called : Effect

abbrev pub Outcome : Type 0
Outcome = List Effect × Result Health

abbrev pub store : Health → Outcome
store h = (saved h ∷ [], ok h)

abbrev pub after : List Effect → Outcome → Outcome
after effects (later, r) = (effects ++ later, r)

abbrev by_failures : ℕ → Status → Status
by_failures failures few = if ltb failures fail_threshold then few else Status.degraded

-- The state with the probe's time and layers.
abbrev pub checked : Check → Health → Health
checked c h = record h {
  last_checked_at = either c.probe.checked_at c.stamp;
  layers = c.probe.layers;
}

abbrev pub healed : String → String → Layers → Health → Health
healed healthy_at recovery_at layers h = record h {
  status = Status.healthy;
  is_healthy = true;
  consecutive_failures = 0;
  recovery_attempts = 0;
  next_retry_at = 0;
  circuit_until = 0;
  last_healthy_at = healthy_at;
  last_recovery_at = recovery_at;
  last_error = "";
  layers = layers;
}

-- `epoch - resume_epoch < RECOVERY_WARMUP_SECONDS`, on integers.
abbrev pub warming_up : Check → Bool
warming_up c =
    not (nat_beq c.resume_epoch 0) && ltb c.now (c.resume_epoch + recovery_warmup_seconds)

abbrev pub active_turn : Check → Bool
active_turn c =
    not (nat_beq c.activity_epoch 0) && ltb c.now (c.activity_epoch + recovery_turn_window_seconds)

-- The state with one more failure.
abbrev pub counted : Check → Health → Health
counted c h =
    let failures = h.consecutive_failures + 1 in
    record h {
      is_healthy = false;
      consecutive_failures = failures;
      last_error = join c.probe.failures;
      status = by_failures failures Status.suspect;
    }

abbrev failing : Layers → List String → List (String × String)
failing layers [] = []
failing layers (key ∷ keys) =
    let rest = failing layers keys in
    let status = layer_status layers key in
    if nonempty status && not (status == "ok") then (key, status) ∷ rest else rest

abbrev bullet_events : List (String × String) → List Effect
bullet_events [] = []
bullet_events layers = emitted (bullet_probe_fail layers) ∷ []

-- The events of the transition from healthy to degraded.
unfoldable pub announce : Check → Health → List Effect
announce c h =
    if nat_beq h.consecutive_failures fail_threshold
    then (let trigger = layer_status c.probe.layers "trigger_agent" in
        (if nonempty trigger && not (trigger == "ok")
          then emitted (trigger_probe_fail trigger) ∷ []
          else [])
        ++ bullet_events (failing c.probe.layers ("bullet_agent" ∷ "bullet_pane" ∷ "session" ∷ [])))
    else []

-- The `except SystemExit` block.
unfoldable pub attempt_failed : Check → Health → String → Outcome
attempt_failed c h message =
    let attempts = h.recovery_attempts + 1 in
    let retry_at = c.now + backoff_seconds attempts in
    let exhausted = leb max_attempts attempts in
    let next = record h {
      status = if exhausted then Status.attention else Status.degraded;
      recovery_attempts = attempts;
      next_retry_at = retry_at;
      circuit_until = if exhausted then c.now + circuit_seconds else 0;
      last_recovery_at = c.stamp;
      last_error = message;
    } in
    after (emitted (attempt_fail attempts message retry_at) ∷ []) (store next)

-- What follows the call of the recoverer.
unfoldable pub conclude : Check → Health → Recovery → Outcome
unfolding attempt_failed
conclude c h (returned p) =
    if p.is_healthy
    then store (healed c.stamp c.stamp (elim p.layers [ [] ↦ h.layers | _ ↦ p.layers ]) h)
    else attempt_failed c h (elim p.failures [ [] ↦ "verification failed" | _ ↦ join p.failures ])
conclude c h (exited message) = attempt_failed c h message
conclude c h (raised e) = ([], err e)

unfoldable pub recover : Check → Health → Outcome
unfolding conclude
recover c h =
    let begun = record h { status = Status.recovering } in
    after (saved begun ∷ called ∷ []) (conclude c begun c.recovery)

unfoldable pub suppress : Check → Health → Outcome
suppress c h =
    let retry_at = c.now + recovery_turn_recheck_seconds in
    let next = record h { status = Status.degraded; next_retry_at = retry_at } in
    (
      saved next
          ∷ emitted
              (drop_suppressed c.activity_epoch h.consecutive_failures h.recovery_attempts retry_at)
          ∷ [],
      ok next,
    )

-- The early returns after the failure was counted.
unfoldable pub decide : Check → Health → Outcome
unfolding recover suppress
decide c h =
    if not c.auto_recover
    then store (record h { status = by_failures h.consecutive_failures Status.disabled })
    else if not c.auto || ltb h.consecutive_failures fail_threshold
    then store h
    else if ltb c.now h.circuit_until
    then store (record h { status = Status.attention })
    else if ltb c.now h.next_retry_at
    then store h
    else if active_turn c
    then suppress c h
    else recover c h

unfoldable pub observe : Check → Health → Outcome
unfolding announce decide
observe c h0 =
    let h = checked c h0 in
    if c.probe.is_healthy
    then store (healed h.last_checked_at h.last_recovery_at h.layers h)
    else if warming_up c
    then store (record h {
      is_healthy = false;
      last_error = join c.probe.failures;
      status = by_failures h.consecutive_failures Status.suspect;
    })
    else (let n = counted c h in after (announce c n) (decide c n))

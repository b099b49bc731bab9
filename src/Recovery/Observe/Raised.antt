-- ===== src/Recovery/Observe/Raised.antt =====
-- A recoverer that raises anything but `SystemExit`, such as `ControlError` of control.py.
use dual_tmux.Prelude.{
  ℕ, ◌+◌, ◌≤◌, ◌≡◌, ◌∙◌, ap, refl, true, false, ◌&&◌, List, [], ◌∷◌, arith, length,
}
use dual_tmux.Prelude.{if◌then◌else◌}
use dual_tmux.Prelude.Result.{Exn}
use dual_tmux.Recovery.State.{Status, Health}
use dual_tmux.Recovery.Observe.{
  Check, raised, checked, counted, warming_up, active_turn, announce, conclude, recover, decide,
  observe,
}
use dual_tmux.Recovery.Observe.Gates.{
  calls, written, written-append, written-announce, may_recover, calls-observe,
}
use dual_tmux.Recovery.Observe.Backoff.{run, calls-run-cons}

-- The check finds nothing that stops a recovery, and the recoverer raises.
abbrev pub Raises : ℕ → ℕ → Check → Type 0
Raises circuit_until next_retry_at c =
    (c.probe.is_healthy ≡ false)
    × (warming_up c ≡ false)
    × ((c.auto_recover && c.auto) ≡ true)
    × (circuit_until ≤ c.now)
    × (next_retry_at ≤ c.now)
    × (active_turn c ≡ false)
    × ((e : Exn) × (c.recovery ≡ raised e))

abbrev pub AllRaise : ℕ → ℕ → List Check → Type 0
AllRaise circuit_until next_retry_at [] = Unit
AllRaise circuit_until next_retry_at (c ∷ checks) =
    Raises circuit_until next_retry_at c × AllRaise circuit_until next_retry_at checks

-- What `n` checks leave: as many failures more, and no trace of an attempt in the pacing fields.
pub record Unpaced (n : ℕ) (h m : Health) : Type 0 where
  pub next_retry_at : m.next_retry_at ≡ h.next_retry_at
  pub circuit_until : m.circuit_until ≡ h.circuit_until
  pub failures : m.consecutive_failures ≡ h.consecutive_failures + n
  pub attempts : m.recovery_attempts ≡ h.recovery_attempts

Raises-may :
    (c : Check) (h : Health)
    → 2 ≤ h.consecutive_failures
    → Raises h.circuit_until h.next_retry_at c
    → may_recover c h ≡ true
Raises-may c h few (ill, warm, on, circuit, retry, quiet, e) = ground arith

Unpaced-recover :
    (c : Check) (h m : Health) {e : Exn}
    → c.recovery ≡ raised e
    → written m (recover c h).0 ≡ record h { status = Status.recovering }
unfolding recover conclude written
Unpaced-recover c h m r = rw r refl

-- An allowed recovery is made on the counted state.
decide-recover :
    (c : Check) (h : Health)
    → may_recover c h ≡ true
    → decide c (counted c h) ≡ recover c (counted c h)
unfolding decide
decide-recover c h may = ground arith

written-observe-recover :
    (c : Check) (h : Health)
    → may_recover c h ≡ true
    → written h (observe c h).0 ≡ written h (recover c (counted c (checked c h))).0
unfolding observe
written-observe-recover c h may =
    let n = counted c (checked c h) in
    ground (
      arith,
      written-append h (announce c n) (decide c n).0,
      written-announce c n h,
      decide-recover c (checked c h) may,
    )

Unpaced-observe :
    (c : Check) (h : Health)
    → 2 ≤ h.consecutive_failures
    → Raises h.circuit_until h.next_retry_at c
    → Unpaced 1 h (written h (observe c h).0)
Unpaced-observe c h few (ill, warm, on, circuit, retry, quiet, (e, r)) =
    let may = Raises-may c h few (ill, warm, on, circuit, retry, quiet, (e, r)) in
    rw (written-observe-recover c h may) (
      rw (Unpaced-recover c (counted c (checked c h)) h r)
        (record { next_retry_at = refl; circuit_until = refl; failures = refl; attempts = refl }))

-- From two failures on, and while each check finds the tunnel unhealthy and past its warm-up, with
-- the recovery enabled on both sides, no turn in progress, and the pauses of the state over, and its
-- recoverer raises anything but `SystemExit`: every check calls the recoverer, and they leave the
-- attempts, the next retry and the circuit as they were, and one more failure for each check.
pub calls-run-raised :
    (h : Health) (checks : List Check)
    → 2 ≤ h.consecutive_failures
    → AllRaise h.circuit_until h.next_retry_at checks
    → (calls (run h checks) ≡ length checks) × Unpaced (length checks) h (written h (run h checks))
unfolding run calls written
calls-run-raised h [] few all = (
  refl,
  record { next_retry_at = refl; circuit_until = refl; failures = omega arith; attempts = refl },
)
calls-run-raised h (c ∷ checks) few (now, all) =
    let m = written h (observe c h).0 in
    let left = Unpaced-observe c h few now in
    let more : 2 ≤ m.consecutive_failures = omega (arith, left.failures) in
    let (later, end) =
      calls-run-raised m checks more (rw left.circuit_until (rw left.next_retry_at all)) in
    (
      calls-run-cons h c checks
          ∙ omega (
            arith,
            calls-observe c h ∙ ap (λ b. if b then 1 else 0) (Raises-may c h few now),
            later,
          ),
      rw (written-append h (observe c h).0 (run m checks)) (record {
        next_retry_at = end.next_retry_at ∙ left.next_retry_at;
        circuit_until = end.circuit_until ∙ left.circuit_until;
        failures = omega (arith, end.failures, left.failures);
        attempts = end.attempts ∙ left.attempts;
      }),
    )

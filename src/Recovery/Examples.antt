-- ===== src/Recovery/Examples.antt =====
-- Checks and ticks of one tunnel.
use dual_tmux.Prelude.{ℕ, ◌+◌, ◌≤◌, ◌≡◌, refl, true, false, [], ◌∷◌, arith}
use dual_tmux.Prelude.{string_eq}
use dual_tmux.Prelude.Result.{runtime_error}
use dual_tmux.Recovery.State.{Health, Probe, default_state, backoff_seconds, auto_rebuild_backoff}
use dual_tmux.Recovery.Observe.{Check, Recovery, exited, raised}
use dual_tmux.Recovery.Observe.Gates.{calls, written}
use dual_tmux.Recovery.Observe.Backoff.{run, calls-run-backoff}
use dual_tmux.Recovery.Observe.Paced.{IsPaced, run-IsPaced}
use dual_tmux.Recovery.Observe.Raised.{Unpaced, calls-run-raised}
use dual_tmux.Recovery.Rebuild
use dual_tmux.Recovery.Rebuild.{Tick}
use dual_tmux.Recovery.Rebuild.Cap.{rebuilds, ticks, rebuilds-capped, rebuilds-backoff}

abbrev ill : Probe
ill = record { is_healthy = false; checked_at = ""; layers = []; failures = "session" ∷ [] }

abbrev check_at : ℕ → Recovery → Check
check_at now recovery = record {
  name = "dt-demo";
  now = now;
  stamp = "";
  auto = true;
  auto_recover = true;
  probe = ill;
  resume_epoch = 0;
  activity_epoch = 0;
  recovery = recovery;
}

-- Two failures were seen.
abbrev suspect : Health
unfolding default_state
suspect = record (default_state "dt-demo") { consecutive_failures = 2 }

abbrev exit_at : ℕ → Check
exit_at now = check_at now (exited "verification failed")

calls-run-backoff_example :
    calls (run suspect (exit_at 1000 ∷ exit_at 1030 ∷ exit_at 1059 ∷ [])) ≡ 1
unfolding default_state backoff_seconds
calls-run-backoff_example =
    calls-run-backoff suspect (exit_at 1000) (exit_at 1030 ∷ exit_at 1059 ∷ []) refl refl
      (refl, omega arith, (refl, omega arith, tt))

-- The refusal of a resume as `ControlError`.
abbrev raise_at : ℕ → Check
raise_at now = check_at now (raised (runtime_error "operation_failed"))

calls-run-raised_example :
    let effects = run suspect (raise_at 1000 ∷ raise_at 1001 ∷ []) in
    (calls effects ≡ 2) × Unpaced 2 suspect (written suspect effects)
unfolding default_state
calls-run-raised_example =
    calls-run-raised suspect (raise_at 1000 ∷ raise_at 1001 ∷ []) (omega arith) (
      (refl, refl, refl, omega arith, omega arith, refl, (runtime_error "operation_failed", refl)),
      (
        (
          refl,
          refl,
          refl,
          omega arith,
          omega arith,
          refl,
          (runtime_error "operation_failed", refl),
        ),
        tt,
      ),
    )

run-IsPaced_example : IsPaced (
    written
      (default_state "dt-demo")
      (run (default_state "dt-demo") (exit_at 1000 ∷ exit_at 1060 ∷ [])))
run-IsPaced_example = run-IsPaced "dt-demo" (exit_at 1000 ∷ exit_at 1060 ∷ [])

abbrev tick_at : ℕ → Tick
tick_at now = record {
  auto_recover = true;
  bullet_state = "stalled";
  now = now;
  rebuilt = Rebuild.returned;
}

rebuilds-capped_example :
    suspect.rebuild_attempts
      + rebuilds (ticks suspect (tick_at 1000 ∷ tick_at 1300 ∷ tick_at 9000 ∷ tick_at 90000 ∷ []))
    ≤ 3
unfolding default_state
rebuilds-capped_example =
    rebuilds-capped suspect (tick_at 1000 ∷ tick_at 1300 ∷ tick_at 9000 ∷ tick_at 90000 ∷ [])
      (omega arith) (refl, (refl, (refl, (refl, tt))))

rebuilds-backoff_example : rebuilds (ticks suspect (tick_at 1000 ∷ tick_at 1299 ∷ [])) ≡ 1
unfolding default_state auto_rebuild_backoff
rebuilds-backoff_example =
    rebuilds-backoff suspect (tick_at 1000) (tick_at 1299 ∷ []) refl refl (refl, omega arith, tt)

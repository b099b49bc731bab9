-- ===== src/Recovery/Observe/Paced.antt =====
-- What holds of the health state after any checks.
use dual_tmux.Prelude.{◌≤◌, ◌<◌, ◌≡◌, refl, String, true, false, List, [], ◌∷◌, arith}
use dual_tmux.Recovery.State.{Status, Health, backoff_seconds, default_state}
use dual_tmux.Recovery.Observe.{
  Check, Recovery, returned, exited, raised, checked, counted, announce, attempt_failed, conclude,
  recover, suppress, decide, observe,
}
use dual_tmux.Recovery.Observe.Gates.{written, written-append, written-announce}
use dual_tmux.Recovery.Observe.Backoff.{run}

-- A healthy tunnel has no failures, attempts or pauses; the circuit is open only from the fifth
-- attempt on, and then never longer than the pause before the next attempt.
pub record IsPaced (h : Health) : Type 0 where
  pub reset :
      h.is_healthy ≡ true
      → (h.consecutive_failures ≡ 0) × (h.recovery_attempts ≡ 0) × (h.next_retry_at ≡ 0)
  pub exhausted : 0 < h.circuit_until → 5 ≤ h.recovery_attempts
  pub circuit : h.circuit_until ≤ h.next_retry_at
  pub tried : 0 < h.recovery_attempts → 3 ≤ h.consecutive_failures

IsPaced-conclude :
    (c : Check) (h m : Health) (r : Recovery)
    → IsPaced h
    → IsPaced m
    → h.is_healthy ≡ false
    → 3 ≤ h.consecutive_failures
    → IsPaced (written m (conclude c h r).0)
unfolding conclude attempt_failed written backoff_seconds
IsPaced-conclude c h m (returned p) k l ill few = ground arith
IsPaced-conclude c h m (exited t) k l ill few = ground arith
IsPaced-conclude c h m (raised e) k l ill few = l

IsPaced-recover :
    (c : Check) (h m : Health)
    → IsPaced h
    → h.is_healthy ≡ false
    → 3 ≤ h.consecutive_failures
    → IsPaced (written m (recover c h).0)
unfolding recover written
IsPaced-recover c h m k ill few =
    let begun = record h { status = Status.recovering } in
    let still : IsPaced begun = record {
      reset = k.reset;
      exhausted = k.exhausted;
      circuit = k.circuit;
      tried = k.tried;
    } in
    IsPaced-conclude c begun begun c.recovery still still ill few

IsPaced-decide :
    (c : Check) (h m : Health)
    → IsPaced h
    → h.is_healthy ≡ false
    → IsPaced (written m (decide c h).0)
unfolding decide suppress written
IsPaced-decide c h m k ill = ground (arith, IsPaced-recover c h m k ill)

IsPaced-counted : (c : Check) (h : Health) → IsPaced h → IsPaced (counted c h)
IsPaced-counted c h k = ground arith

IsPaced-observe : (c : Check) (h : Health) → IsPaced h → IsPaced (written h (observe c h).0)
unfolding observe written
IsPaced-observe c h k =
    let n = counted c (checked c h) in
    let same : IsPaced (checked c h) = record {
      reset = k.reset;
      exhausted = k.exhausted;
      circuit = k.circuit;
      tried = k.tried;
    } in
    ground (
      arith,
      written-append h (announce c n) (decide c n).0,
      written-announce c n h,
      IsPaced-decide c n h (IsPaced-counted c (checked c h) same) refl,
    )

IsPaced-run : (h : Health) (checks : List Check) → IsPaced h → IsPaced (written h (run h checks))
unfolding run written
IsPaced-run h [] k = k
IsPaced-run h (c ∷ checks) k =
    let l = (observe c h).0 in
    rw (written-append h l (run (written h l) checks))
      (IsPaced-run (written h l) checks (IsPaced-observe c h k))

-- After any checks of a tunnel that starts with the default state: a healthy tunnel has no failures,
-- attempts or pauses, the circuit is open only after five attempts, it never outlasts the pause
-- before the next attempt, and attempts are only made after three failures.
pub run-IsPaced :
    (name : String) (checks : List Check)
    → IsPaced (written (default_state name) (run (default_state name) checks))
unfolding default_state
run-IsPaced name checks = IsPaced-run (default_state name) checks (record {
  reset = λ h. (refl, refl, refl);
  exhausted = λ h. omega arith;
  circuit = omega arith;
  tried = λ h. omega arith;
})

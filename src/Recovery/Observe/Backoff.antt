-- ===== src/Recovery/Observe/Backoff.antt =====
-- Checks of one tunnel one after the other, each of which reads the file that the one before left.
use dual_tmux.Prelude.{
  ℕ, ◌+◌, ◌<◌, ◌≡◌, ◌∙◌, ap, refl, Bool, true, false, not, List, [], ◌∷◌, ◌++◌, arith,
}
use dual_tmux.Prelude.{if◌then◌else◌}
use dual_tmux.Recovery.State.{Health, backoff_seconds}
use dual_tmux.Recovery.Observe.{
  Check, Recovery, returned, exited, raised, Effect, checked, counted, announce, attempt_failed,
  conclude, recover, decide, observe,
}
use dual_tmux.Recovery.Observe.Gates.{
  calls, written, calls-append, written-append, written-announce, may_recover, calls-observe,
}

unfoldable pub run : Health → List Check → List Effect
run h [] = []
run h (c ∷ checks) = let effects = (observe c h).0 in effects ++ run (written h effects) checks

-- The recoverer did not repair the tunnel, and the check has seen it.
abbrev pub fails : Recovery → Bool
fails (returned p) = not p.is_healthy
fails (exited message) = true
fails (raised e) = false

-- Every check finds the tunnel unhealthy, before the time `bound`.
abbrev pub AllBefore : ℕ → List Check → Type 0
AllBefore bound [] = Unit
AllBefore bound (c ∷ checks) =
    (c.probe.is_healthy ≡ false) × (c.now < bound) × AllBefore bound checks

next_retry-decide :
    (c : Check) (h m : Health)
    → c.now < h.next_retry_at
    → h.next_retry_at ≡ m.next_retry_at
    → (written m (decide c h).0).next_retry_at ≡ h.next_retry_at
unfolding decide written
next_retry-decide c h m early same = ground arith

next_retry-observe :
    (c : Check) (h : Health)
    → c.probe.is_healthy ≡ false
    → c.now < h.next_retry_at
    → (written h (observe c h).0).next_retry_at ≡ h.next_retry_at
unfolding observe written
next_retry-observe c h ill early =
    let n = counted c (checked c h) in
    ground (
      arith,
      written-append h (announce c n) (decide c n).0,
      written-announce c n h,
      next_retry-decide c n h early refl,
    )

pub calls-run-cons :
    (h : Health) (c : Check) (checks : List Check)
    → calls (run h (c ∷ checks))
      ≡ calls (observe c h).0 + calls (run (written h (observe c h).0) checks)
unfolding run
calls-run-cons h c checks = calls-append (observe c h).0 _

early_refused : (c : Check) (h : Health) → c.now < h.next_retry_at → may_recover c h ≡ false
early_refused c h early = ground arith

-- Before the next retry the recoverer is not called.
pub calls-run-before :
    (h : Health) (checks : List Check) → AllBefore h.next_retry_at checks → calls (run h checks) ≡ 0
unfolding calls run
calls-run-before h [] all = refl
calls-run-before h (c ∷ checks) (ill, early, all) =
    let m = written h (observe c h).0 in
    let same = next_retry-observe c h ill early in
    calls-run-cons h c checks
    ∙ omega (
      arith,
      calls-observe c h ∙ ap (λ b. if b then 1 else 0) (early_refused c h early),
      calls-run-before m checks (rw same all),
    )

next_retry-failed :
    (c : Check) (h m : Health)
    → fails c.recovery ≡ true
    → (written m (recover c h).0).next_retry_at ≡ c.now + backoff_seconds (h.recovery_attempts + 1)
unfolding recover conclude attempt_failed written
next_retry-failed c h m f = ground arith

next_retry-recovery :
    (c : Check) (h : Health)
    → may_recover c h ≡ true
    → fails c.recovery ≡ true
    → (written h (observe c h).0).next_retry_at ≡ c.now + backoff_seconds (h.recovery_attempts + 1)
unfolding observe decide
next_retry-recovery c h may f =
    let n = counted c (checked c h) in
    ground (
      arith,
      written-append h (announce c n) (decide c n).0,
      written-announce c n h,
      next_retry-failed c n h f,
    )

-- If a check may recover, and the recoverer returns an unhealthy probe or exits, then the checks that
-- follow before the backoff of that attempt has passed, all of which find the tunnel unhealthy, do
-- not call the recoverer again: it is called once in all.
pub calls-run-backoff :
    (h : Health) (c : Check) (checks : List Check)
    → may_recover c h ≡ true
    → fails c.recovery ≡ true
    → AllBefore (c.now + backoff_seconds (h.recovery_attempts + 1)) checks
    → calls (run h (c ∷ checks)) ≡ 1
calls-run-backoff h c checks may f all =
    let m = written h (observe c h).0 in
    calls-run-cons h c checks
    ∙ omega (
      arith,
      calls-observe c h ∙ ap (λ b. if b then 1 else 0) may,
      calls-run-before m checks (rw (next_retry-recovery c h may f) all),
    )

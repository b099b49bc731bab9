-- ===== src/Recovery/Observe/Gates.antt =====
-- When a check calls the recoverer, and what it leaves in the state file.
use dual_tmux.Prelude.{ℕ, ◌+◌, ◌≡◌, refl, Bool, false, not, ◌&&◌, List, [], ◌∷◌, ◌++◌, arith}
use dual_tmux.Prelude.{if◌then◌else◌, leb}
use dual_tmux.Prelude.Result.{ok}
use dual_tmux.Recovery.State.{Status, Health}
use dual_tmux.Recovery.Observe.{
  Check, Recovery, returned, exited, raised, Effect, saved, emitted, called, checked, counted,
  warming_up, active_turn, announce, attempt_failed, conclude, recover, suppress, decide, observe,
}

-- How often the recoverer is called.
unfoldable pub calls : List Effect → ℕ
calls [] = 0
calls (saved h ∷ effects) = calls effects
calls (emitted e ∷ effects) = calls effects
calls (called ∷ effects) = calls effects + 1

-- The state file after the effects.
unfoldable pub written : Health → List Effect → Health
written h [] = h
written h (saved n ∷ effects) = written n effects
written h (emitted e ∷ effects) = written h effects
written h (called ∷ effects) = written h effects

pub calls-append : (l k : List Effect) → calls (l ++ k) ≡ calls l + calls k
unfolding calls
calls-append [] k = omega arith
calls-append (saved h ∷ l) k = calls-append l k
calls-append (emitted e ∷ l) k = calls-append l k
calls-append (called ∷ l) k = omega (arith, calls-append l k)

pub written-append : (h : Health) (l k : List Effect) → written h (l ++ k) ≡ written (written h l) k
unfolding written
written-append h [] k = refl
written-append h (saved n ∷ l) k = written-append n l k
written-append h (emitted e ∷ l) k = written-append h l k
written-append h (called ∷ l) k = written-append h l k

pub calls-announce : (c : Check) (h : Health) → calls (announce c h) ≡ 0
unfolding calls announce
calls-announce c h = ground arith

pub written-announce : (c : Check) (h n : Health) → written n (announce c h) ≡ n
unfolding written announce
written-announce c h n = ground arith

-- The recovery is allowed: enabled on both sides, three failures with this one, no pause running,
-- no turn in progress and no resume just before.
abbrev pub may_recover : Check → Health → Bool
may_recover c h =
    not c.probe.is_healthy
    && not (warming_up c)
    && (c.auto_recover && c.auto)
    && leb 2 h.consecutive_failures
    && (leb h.circuit_until c.now && leb h.next_retry_at c.now)
    && not (active_turn c)

calls-conclude : (c : Check) (h : Health) (r : Recovery) → calls (conclude c h r).0 ≡ 0
unfolding calls conclude attempt_failed
calls-conclude c h (returned p) = ground arith
calls-conclude c h (exited m) = refl
calls-conclude c h (raised e) = refl

calls-recover : (c : Check) (h : Health) → calls (recover c h).0 ≡ 1
unfolding calls recover
calls-recover c h =
    omega (arith, calls-conclude c (record h { status = Status.recovering }) c.recovery)

calls-decide :
    (c : Check) (h : Health)
    → c.probe.is_healthy ≡ false
    → warming_up c ≡ false
    → calls (decide c (counted c h)).0 ≡ (if may_recover c h then 1 else 0)
unfolding calls decide suppress
calls-decide c h ill cold = ground (arith, calls-recover c (counted c h))

-- A check calls the recoverer exactly when it is allowed, and then once.
pub calls-observe :
    (c : Check) (h : Health) → calls (observe c h).0 ≡ (if may_recover c h then 1 else 0)
unfolding observe calls
calls-observe c h =
    let n = counted c (checked c h) in
    ground (
      arith,
      calls-append (announce c n) (decide c n).0,
      calls-announce c n,
      calls-decide c (checked c h),
    )

written-conclude :
    (c : Check) (h m : Health) (r : Recovery) {n : Health}
    → (conclude c h r).1 ≡ ok n
    → written m (conclude c h r).0 ≡ n
unfolding written conclude attempt_failed
written-conclude c h m (returned p) e = ground arith
written-conclude c h m (exited t) e = cc
written-conclude c h m (raised x) e = cc

written-decide :
    (c : Check) (h m : Health) {n : Health} → (decide c h).1 ≡ ok n → written m (decide c h).0 ≡ n
unfolding written decide suppress recover
written-decide c h m e =
    let begun = record h { status = Status.recovering } in
    ground (arith, written-conclude c begun begun c.recovery)

-- A check that returns has written what it returns.
pub written-observe :
    (c : Check) (h : Health) {n : Health} → (observe c h).1 ≡ ok n → written h (observe c h).0 ≡ n
unfolding observe written
written-observe c h e =
    let n = counted c (checked c h) in
    ground (
      arith,
      written-append h (announce c n) (decide c n).0,
      written-announce c n h,
      written-decide c n h,
    )

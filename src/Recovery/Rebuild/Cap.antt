-- ===== src/Recovery/Rebuild/Cap.antt =====
-- Automatic rebuilds over the ticks of the daemon.
use dual_tmux.Prelude.{
  ℕ, ◌+◌, ◌≤◌, ◌<◌, ◌≡◌, ◌∙◌, ap, refl, String, Bool, true, false, ◌&&◌, List, [], ◌∷◌, ◌++◌, arith,
}
use dual_tmux.Prelude.{if◌then◌else◌, leb, ltb, ◌==◌, string_eq, eq_iff}
use dual_tmux.Recovery.State.{Health, max_auto_rebuilds, auto_rebuild_backoff}
use dual_tmux.Recovery.Rebuild.{Tick, Effect, saved, emitted, rebuild, auto_rebuild_if_stalled}

unfoldable pub rebuilds : List Effect → ℕ
rebuilds [] = 0
rebuilds (saved h ∷ effects) = rebuilds effects
rebuilds (emitted e ∷ effects) = rebuilds effects
rebuilds (rebuild ∷ effects) = rebuilds effects + 1

-- The state file after the effects.
unfoldable pub left_by : Health → List Effect → Health
left_by h [] = h
left_by h (saved n ∷ effects) = left_by n effects
left_by h (emitted e ∷ effects) = left_by h effects
left_by h (rebuild ∷ effects) = left_by h effects

-- Ticks one after the other, each of which reads the file that the one before left.
unfoldable pub ticks : Health → List Tick → List Effect
ticks h [] = []
ticks h (t ∷ later) =
    let effects = (auto_rebuild_if_stalled t h).0 in effects ++ ticks (left_by h effects) later

rebuilds-append : (l k : List Effect) → rebuilds (l ++ k) ≡ rebuilds l + rebuilds k
unfolding rebuilds
rebuilds-append [] k = omega arith
rebuilds-append (saved h ∷ l) k = rebuilds-append l k
rebuilds-append (emitted e ∷ l) k = rebuilds-append l k
rebuilds-append (rebuild ∷ l) k = omega (arith, rebuilds-append l k)

rebuilds-ticks-cons :
    (h : Health) (t : Tick) (later : List Tick)
    → rebuilds (ticks h (t ∷ later))
      ≡ rebuilds (auto_rebuild_if_stalled t h).0
        + rebuilds (ticks (left_by h (auto_rebuild_if_stalled t h).0) later)
unfolding ticks
rebuilds-ticks-cons h t later = rebuilds-append (auto_rebuild_if_stalled t h).0 _

-- The rebuild is allowed: enabled, the bullet stalled, its pause over, fewer than three made.
abbrev pub may_rebuild : Tick → Health → Bool
may_rebuild t h =
    t.auto_recover
    && t.bullet_state == "stalled"
    && leb h.rebuild_next_retry_at t.now
    && ltb h.rebuild_attempts max_auto_rebuilds

stalled_only : (s : String) → (s == "stalled") ≡ true → (s == "working") ≡ false
stalled_only s h = rw ((eq_iff s "stalled").0 h) refl

-- A tick rebuilds exactly when it is allowed, and then once.
pub rebuilds-auto_rebuild_if_stalled :
    (t : Tick) (h : Health)
    → rebuilds (auto_rebuild_if_stalled t h).0 ≡ (if may_rebuild t h then 1 else 0)
unfolding rebuilds auto_rebuild_if_stalled
rebuilds-auto_rebuild_if_stalled t h = ground (arith, stalled_only t.bullet_state)

-- No tick finds the bullet working.
abbrev pub NoneWorks : List Tick → Type 0
NoneWorks [] = Unit
NoneWorks (t ∷ later) = ((t.bullet_state == "working") ≡ false) × NoneWorks later

-- What a tick that rebuilds leaves, and what any other leaves.
left_by-attempts :
    (t : Tick) (h : Health)
    → (t.bullet_state == "working") ≡ false
    → (left_by h (auto_rebuild_if_stalled t h).0).rebuild_attempts
      ≡ h.rebuild_attempts + rebuilds (auto_rebuild_if_stalled t h).0
unfolding rebuilds left_by auto_rebuild_if_stalled
left_by-attempts t h idle = ground arith

left_by-retry :
    (t : Tick) (h : Health)
    → (t.bullet_state == "working") ≡ false
    → (left_by h (auto_rebuild_if_stalled t h).0).rebuild_next_retry_at ≡ (
        if may_rebuild t h
        then t.now + auto_rebuild_backoff h.rebuild_attempts
        else h.rebuild_next_retry_at)
unfolding left_by auto_rebuild_if_stalled
left_by-retry t h idle = ground arith

-- Over any ticks that never find the bullet working, the rebuilds that are made, whether they return
-- or raise, and those that were counted before, at most three, are at most three together.
pub rebuilds-capped :
    (h : Health) (later : List Tick)
    → h.rebuild_attempts ≤ 3
    → NoneWorks later
    → h.rebuild_attempts + rebuilds (ticks h later) ≤ 3
unfolding ticks rebuilds
rebuilds-capped h [] cap idle = omega arith
rebuilds-capped h (t ∷ later) cap (now_idle, idle) =
    let m = left_by h (auto_rebuild_if_stalled t h).0 in
    let once = rebuilds-auto_rebuild_if_stalled t h in
    let same = left_by-attempts t h now_idle in
    let below : m.rebuild_attempts ≤ 3 = ground (arith, once, same) in
    omega (arith, rebuilds-ticks-cons h t later, same, rebuilds-capped m later below idle)

-- Every tick comes before the time `bound` and finds the bullet not working.
abbrev pub Waits : ℕ → List Tick → Type 0
Waits bound [] = Unit
Waits bound (t ∷ later) =
    ((t.bullet_state == "working") ≡ false) × (t.now < bound) × Waits bound later

waits_refused : (t : Tick) (h : Health) → t.now < h.rebuild_next_retry_at → may_rebuild t h ≡ false
waits_refused t h early = ground arith

rebuilds-ticks-waiting :
    (h : Health) (later : List Tick)
    → Waits h.rebuild_next_retry_at later
    → rebuilds (ticks h later) ≡ 0
unfolding ticks rebuilds
rebuilds-ticks-waiting h [] w = refl
rebuilds-ticks-waiting h (t ∷ later) (idle, early, w) =
    let m = left_by h (auto_rebuild_if_stalled t h).0 in
    let no = waits_refused t h early in
    let same =
      left_by-retry t h idle
      ∙ ap
          (λ b.
            if b then t.now + auto_rebuild_backoff h.rebuild_attempts else h.rebuild_next_retry_at)
          no in
    rebuilds-ticks-cons h t later
    ∙ omega (
      arith,
      rebuilds-auto_rebuild_if_stalled t h ∙ ap (λ b. if b then 1 else 0) no,
      rebuilds-ticks-waiting m later (rw same w),
    )

-- If a tick may rebuild, the ticks that follow before the backoff of that rebuild has passed, none of
-- which finds the bullet working, make no other: one rebuild is made in all.
pub rebuilds-backoff :
    (h : Health) (t : Tick) (later : List Tick)
    → may_rebuild t h ≡ true
    → (t.bullet_state == "working") ≡ false
    → Waits (t.now + auto_rebuild_backoff h.rebuild_attempts) later
    → rebuilds (ticks h (t ∷ later)) ≡ 1
rebuilds-backoff h t later may idle w =
    let m = left_by h (auto_rebuild_if_stalled t h).0 in
    let next =
      left_by-retry t h idle
      ∙ ap
          (λ b.
            if b then t.now + auto_rebuild_backoff h.rebuild_attempts else h.rebuild_next_retry_at)
          may in
    rebuilds-ticks-cons h t later
    ∙ omega (
      arith,
      rebuilds-auto_rebuild_if_stalled t h ∙ ap (λ b. if b then 1 else 0) may,
      rebuilds-ticks-waiting m later (rw next w),
    )

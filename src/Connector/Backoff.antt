-- ===== src/Connector/Backoff.antt =====
-- When the manager starts its process.
use dual_tmux.Prelude.{
  ℕ, ◌+◌, ◌<◌, ◌≡◌, ◌∙◌, refl, true, false, not, ◌&&◌, List, [], ◌∷◌, ◌++◌, arith,
}
use dual_tmux.Prelude.{if◌then◌else◌, leb}
use dual_tmux.Connector.Manager.{
  backoff_seconds, ConnectorManager, Input, Effect, terminate, release, start, owns, owns_lease,
  stop, reap, start_or_wait, step,
}

unfoldable pub starts : List Effect → ℕ
starts [] = 0
starts (terminate ∷ effects) = starts effects
starts (release ∷ effects) = starts effects
starts (start generation ∷ effects) = starts effects + 1

-- The effects of steps, one after the other.
unfoldable pub run : ConnectorManager → List Input → List Effect
run m [] = []
run m (i ∷ later) = let (effects, n, status) = step i m in effects ++ run n later

starts-append : (l k : List Effect) → starts (l ++ k) ≡ starts l + starts k
unfolding starts
starts-append [] k = omega arith
starts-append (terminate ∷ l) k = starts-append l k
starts-append (release ∷ l) k = starts-append l k
starts-append (start generation ∷ l) k = omega (arith, starts-append l k)

-- If a process is left after a step, the connector is installed, the lease was granted in this very
-- step, and the manager knows that it holds it.
pub step-lease :
    (i : Input) (m : ConnectorManager)
    → (step i m).1.has_process ≡ true
    → (i.installed ≡ true) × (owns i.lease ≡ true) × ((step i m).1.has_lease ≡ true)
unfolding step owns_lease stop reap start_or_wait
step-lease i m left = ground arith

-- A step starts a process exactly if the connector is installed, the lease is granted, there was no
-- process, dead or alive, and no pause is running.
pub starts-step :
    (i : Input) (m : ConnectorManager)
    → starts (step i m).0 ≡ (
        if i.installed && owns i.lease && not m.has_process && leb m.next_start_at i.now
        then 1
        else 0)
unfolding step owns_lease stop reap start_or_wait starts backoff_seconds
starts-step i m = ground arith

-- The connector is installed, the lease is granted, and the time is before `bound`.
abbrev pub AllBefore : ℕ → List Input → Type 0
AllBefore bound [] = Unit
AllBefore bound (i ∷ later) =
    (i.installed ≡ true) × (owns i.lease ≡ true) × (i.now < bound) × AllBefore bound later

waiting :
    (i : Input) (m : ConnectorManager)
    → m.has_process ≡ false
    → i.installed ≡ true
    → owns i.lease ≡ true
    → i.now < m.next_start_at
    → (starts (step i m).0 ≡ 0)
      × ((step i m).1.has_process ≡ false)
      × ((step i m).1.next_start_at ≡ m.next_start_at)
unfolding step owns_lease reap start_or_wait starts
waiting i m none_left installed owned early = ground arith

starts-run-waiting :
    (m : ConnectorManager) (later : List Input)
    → m.has_process ≡ false
    → AllBefore m.next_start_at later
    → starts (run m later) ≡ 0
unfolding starts run
starts-run-waiting m [] h all = refl
starts-run-waiting m (i ∷ later) h (installed, owned, early, all) =
    let n = (step i m).1 in
    let (started, left, same) = waiting i m h installed owned early in
    starts-append (step i m).0 (run n later)
    ∙ omega (arith, started, starts-run-waiting n later left (rw same all))

failed :
    (i : Input) (m : ConnectorManager)
    → m.has_process ≡ true
    → i.alive ≡ false
    → i.installed ≡ true
    → owns i.lease ≡ true
    → (starts (step i m).0 ≡ 0)
      × ((step i m).1.has_process ≡ false)
      × ((step i m).1.next_start_at ≡ i.now + backoff_seconds (m.failures + 1))
unfolding step owns_lease reap start_or_wait starts backoff_seconds
failed i m had dead installed owned = ground arith

-- After a step that finds the process dead, no process is started for the backoff of that failure,
-- while the connector stays installed and the lease granted.
pub starts-run-failed :
    (m : ConnectorManager) (i : Input) (later : List Input)
    → m.has_process ≡ true
    → i.alive ≡ false
    → i.installed ≡ true
    → owns i.lease ≡ true
    → AllBefore (i.now + backoff_seconds (m.failures + 1)) later
    → starts (run m (i ∷ later)) ≡ 0
unfolding run
starts-run-failed m i later had dead installed owned all =
    let n = (step i m).1 in
    let (started, left, next) = failed i m had dead installed owned in
    starts-append (step i m).0 (run n later)
    ∙ omega (arith, started, starts-run-waiting n later left (rw next all))

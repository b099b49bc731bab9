-- ===== src/Orphan/Safe.antt =====
-- Which processes a patrol kills.
use dual_tmux.Prelude.{
  ℕ, ◌≡◌, ◌≢◌, refl, String, Bool, true, false, not, ◌&&◌, Option, none, some, List, [], ◌∷◌, ◌++◌,
  arith, select, All, All-map, All-select, All-tt,
}
use mathlib.Core.List.{append-nil}
use dual_tmux.Prelude.{if◌then◌else◌, nat_beq, nat_eq, ◌⊎◌}
use dual_tmux.Orphan.Scan.{
  Process, Tunnel, Scanned, unreachable, exited, Status, not_applicable, unavailable, scanned, Info,
  scan, classify, is_agent, is_old, has_age, pool_of, spared, youngest, without,
}
use dual_tmux.Orphan.Patrol.{
  Killed, Effect, kill, found, clean_fail, clean_ok, swept, clean, announced, cleaning, pids,
  patrol, patrol_inspected,
}

-- An agent of the container, other than the legal writer, that is older than the grace.
abbrev pub IsOrphan : Option Process → Process → Type 0
IsOrphan legal p = (is_agent p ≡ true) × (spared legal p ≡ false) × (is_old p ≡ true)

classify-orphans :
    (session_id : String) (rows : List Process)
    → All (IsOrphan (classify session_id rows).legal) (classify session_id rows).orphans
unfolding classify
classify-orphans session_id rows =
    let agents = select is_agent rows in
    let legal = youngest (pool_of session_id (select has_age agents)) in
    let other : Process → Bool = λ p. not (spared legal p) in
    let first = All-select (λ p. Unit {0}) is_agent rows (All-tt rows) in
    let second = All-select _ other agents first in
    let third = All-select _ is_old (select other agents) second in
    All-map _ (IsOrphan legal) (λ p h. (h.0.0.1, ground (arith, h.0.1), h.1))
      (select is_old (select other agents)) third

AllOrphans : Info → Type 0
AllOrphans info = All (IsOrphan info.legal) info.orphans

-- The three tests of `scan`, one after the other.
orphans-if :
    (b : Bool) (info : Info) (status : Status)
    → AllOrphans info
    → AllOrphans (if b then info else without status)
unfolding AllOrphans
orphans-if true info status h = h
orphans-if false info status h = tt

orphans-unless :
    (b : Bool) (info : Info) (status : Status)
    → AllOrphans info
    → AllOrphans (if b then without status else info)
unfolding AllOrphans
orphans-unless true info status h = tt
orphans-unless false info status h = h

-- Every orphan that a scan reports is an agent process, not the legal writer, and at least ten
-- minutes old.
pub scan-orphans :
    (t : Tunnel) (reply : Scanned) → All (IsOrphan (scan t reply).legal) (scan t reply).orphans
unfolding scan AllOrphans
scan-orphans t unreachable = orphans-unless _ (without unavailable) not_applicable tt
scan-orphans t (exited code rows) = orphans-unless _ _ not_applicable (
    orphans-if (nat_beq code 0) (classify t.session_id rows) unavailable
      (classify-orphans t.session_id rows))

-- The processes that the kill scripts name.
unfoldable pub targets : List Effect → List ℕ
targets [] = []
targets (kill l ∷ effects) = l ++ targets effects
targets (found l ages ∷ effects) = targets effects
targets (clean_fail l n ∷ effects) = targets effects
targets (clean_ok l ∷ effects) = targets effects
targets (swept l ∷ effects) = targets effects

targets-cleaned :
    (p : Process) (more : List Process) (r : Killed)
    → targets (clean (p ∷ more) r).0 ≡ pids (p ∷ more)
unfolding targets clean
targets-cleaned p more Killed.unreachable = append-nil _
targets-cleaned p more (Killed.remaining n) = ground (arith, append-nil (pids (p ∷ more)))

targets-cleaning :
    (t : Tunnel) (info : Info) (orphans : List Process) (reply : Killed)
    → targets (cleaning t info orphans reply).0
      ≡ (if t.auto_orphan_clean && not t.is_dst then pids orphans else [])
unfolding targets
targets-cleaning t info [] reply = ground arith
targets-cleaning t info (p ∷ more) reply = ground (arith, targets-cleaned p more reply)

targets-announced :
    (orphans : List Process) (l : List Effect) → targets (announced orphans ++ l) ≡ targets l
unfolding targets
targets-announced [] l = refl
targets-announced (p ∷ more) l = refl

-- A scan that could not be made reports nothing.
scan-unscanned :
    (t : Tunnel) (reply : Scanned)
    → ((scan t reply).status ≡ scanned) ⊎ ((scan t reply).orphans ≡ [])
unfolding scan classify
scan-unscanned t unreachable = ground arith
scan-unscanned t (exited code rows) = ground arith

targets-inspected :
    (t : Tunnel) (info : Info) (reply : Killed)
    → (info.status ≡ scanned) ⊎ (info.orphans ≡ [])
    → targets (patrol_inspected t info reply).0
      ≡ (if t.auto_orphan_clean && not t.is_dst then pids info.orphans else [])
unfolding patrol_inspected targets
targets-inspected t info reply h = ground (
  arith,
  targets-cleaning t info info.orphans reply,
  targets-announced info.orphans (cleaning t info info.orphans reply).0,
)

-- A patrol kills the orphans of its scan if the tunnel is not held by another Client, allows
-- cleaning and is not frozen, and nothing otherwise.
pub patrol-targets :
    (held : Bool) (t : Tunnel) (reply : Scanned) (answer : Killed)
    → targets (patrol held t reply answer).0 ≡ (
        if not held && t.auto_orphan_clean && not t.is_dst then pids (scan t reply).orphans else [])
unfolding patrol targets
patrol-targets held t reply answer =
    ground (arith, targets-inspected t (scan t reply) answer (scan-unscanned t reply))

-- The process with this number is not the legal writer.
abbrev pub Spares : Option Process → ℕ → Type 0
Spares none pid = Unit
Spares (some legal) pid = pid ≢ legal.pid

orphan-Spares : (legal : Option Process) (p : Process) → IsOrphan legal p → Spares legal p.pid
orphan-Spares none p h = tt
orphan-Spares (some legal) p (agent, other, old) = λ e. ground arith

All-pids :
    (legal : Option Process) (l : List Process)
    → All (IsOrphan legal) l
    → All (Spares legal) (pids l)
All-pids legal [] h = tt
All-pids legal (p ∷ l) (h, hs) = (orphan-Spares legal p h, All-pids legal l hs)

-- No kill script of a patrol names the legal writer of its scan.
pub patrol-Spares :
    (held : Bool) (t : Tunnel) (reply : Scanned) (answer : Killed)
    → All (Spares (scan t reply).legal) (targets (patrol held t reply answer).0)
patrol-Spares held t reply answer =
    rw (patrol-targets held t reply answer)
      (allowed (not held && t.auto_orphan_clean && not t.is_dst))
  where
    allowed :
        (b : Bool)
        → All (Spares (scan t reply).legal) (if b then pids (scan t reply).orphans else [])
    allowed true = All-pids (scan t reply).legal (scan t reply).orphans (scan-orphans t reply)
    allowed false = tt

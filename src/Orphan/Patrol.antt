-- ===== src/Orphan/Patrol.antt =====
-- `clean`, `sweep_run_point`, `foreign_held` and `patrol` of src/dual_tmux/orphan.py. What a command
-- on the run point answers is given; every kill script that is sent is an effect.
use dual_tmux.Prelude.{
  ℕ, Bool, true, false, not, ◌||◌, Option, none, some, List, [], ◌∷◌, ◌++◌, map,
}
use dual_tmux.Prelude.{if◌then◌else◌, nat_beq, length, nonempty, string_eq}
use dual_tmux.Prelude.Result.{ok, err}
use dual_tmux.Occupancy.Hub.{Files}
use dual_tmux.Occupancy.Client.{AppConfig, Link, read_occupancy, foreign_holder}
use dual_tmux.Orphan.Scan.{
  Process, Tunnel, Scanned, not_applicable, unavailable, scanned, Info, scan, age_of,
}

-- The kill script: it could not be run, or it says how many processes remain.
pub data Killed : Type 0 where
  unreachable : Killed
  remaining : ℕ → Killed

pub data Effect : Type 0 where
  kill : List ℕ → Effect
  found : List ℕ → List ℕ → Effect
  clean_fail : List ℕ → ℕ → Effect
  clean_ok : List ℕ → Effect
  swept : List ℕ → Effect

pub record Cleaned : Type 0 where
  pub terminated : List ℕ
  pub killed : List ℕ
  pub remaining : ℕ

abbrev pub pids : List Process → List ℕ
pids processes = map (λ (p : Process). p.pid) processes

abbrev pub cleaned : List ℕ → Killed → List Effect × Cleaned
cleaned targets unreachable = (
  kill targets ∷ clean_fail targets (length targets) ∷ [],
  record { terminated = targets; killed = []; remaining = length targets },
)
cleaned targets (remaining n) = (
  kill targets ∷ (if nat_beq n 0 then clean_ok targets else clean_fail targets n) ∷ [],
  record { terminated = targets; killed = targets; remaining = n },
)

unfoldable pub clean : List Process → Killed → List Effect × Cleaned
clean orphans reply = elim (pids orphans) [
  | [] ↦ ([], record { terminated = []; killed = []; remaining = 0 })
  | pid ∷ more ↦ cleaned (pid ∷ more) reply
]

-- `None` is a run point that could not be inspected.
unfoldable pub sweep_run_point : Tunnel → Scanned → List Effect × Option (List ℕ)
unfolding scan
sweep_run_point t reply =
    if not (nonempty t.server) || not (nonempty t.container)
    then ([], some [])
    else (let info = scan t reply in
        elim info.status [
          | scanned ↦ elim (pids info.processes) [
            | [] ↦ ([], some [])
            | pid ∷ more ↦ (kill (pid ∷ more) ∷ swept (pid ∷ more) ∷ [], some (pid ∷ more))
          ]
          | _ ↦ ([], none)
        ])

unfoldable pub foreign_held : Link → AppConfig → ℕ → Files → Bool
unfolding foreign_holder
foreign_held link cfg now f =
    if not cfg.hub_enabled then false else elim (read_occupancy link cfg now f).1 [
      | err e ↦ true
      | ok o ↦ foreign_holder o cfg.client
    ]

pub data Report : Type 0 where
  nothing : Report
  uninspected : Report
  report : Info → Option Cleaned → Bool → Report

abbrev pub announced : List Process → List Effect
announced [] = []
announced (p ∷ more) = found (pids (p ∷ more)) (map age_of (p ∷ more)) ∷ []

abbrev pub cleaning : Tunnel → Info → List Process → Killed → List Effect × Report
cleaning t info [] reply = ([], report info none false)
cleaning t info (p ∷ more) reply =
    if not t.auto_orphan_clean
    then ([], report info none false)
    else if t.is_dst
    then ([], report info none true)
    else (let (effects, outcome) = clean (p ∷ more) reply in
        (effects, report info (some outcome) false))

unfoldable pub patrol_inspected : Tunnel → Info → Killed → List Effect × Report
unfolding clean
patrol_inspected t info reply = elim info.status [
  | scanned ↦
      let (effects, r) = cleaning t info info.orphans reply in
      (announced info.orphans ++ effects, r)
  | unavailable ↦ ([], uninspected)
  | not_applicable ↦ ([], nothing)
]

-- `held` is what `foreign_held` says.
unfoldable pub patrol : Bool → Tunnel → Scanned → Killed → List Effect × Report
unfolding patrol_inspected scan
patrol held t reply answer =
    if held then ([], nothing) else patrol_inspected t (scan t reply) answer

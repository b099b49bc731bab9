-- ===== src/Orphan/Scan.antt =====
-- `scan` of src/dual_tmux/orphan.py. The rows are those that `_parse_scan` reads from the output of
-- the shell script.
use dual_tmux.Prelude.{
  ℕ, String, Bool, false, not, ◌&&◌, ◌||◌, Option, none, some, List, [], ◌∷◌, select,
}
use dual_tmux.Prelude.{if◌then◌else◌, leb, nat_beq, ◌<>◌, starts_with, nonempty, is_some, string_eq}
use text.Mathlib.Text.{find?}

abbrev pub grace_seconds : ℕ
grace_seconds = 600

-- A row, its arguments stripped. An age that is no number is `none`, the source's -1.
pub record Process : Type 0 where
  pub pid : ℕ
  pub age : Option ℕ
  pub args : String

-- `needle in text`
abbrev occurs : String → String → Bool
occurs needle text = is_some (find? text needle)

-- `(^|[/ ])abc( |$)` is searched in the text between two blanks.
unfoldable pub is_agent_process : String → Bool
is_agent_process args =
    let padded = " " <> (args <> " ") in
    occurs "opencode" args
    || occurs "andybot_core" args
    || occurs " abc " padded
    || occurs "/abc " padded

unfoldable pub is_wrapper : String → Bool
is_wrapper args =
    starts_with args "sh -lc"
    || starts_with args "sh -c"
    || starts_with args "/bin/sh"
    || starts_with args "bash -lc"
    || occurs "/proc/uptime" args
    || occurs "getconf CLK_TCK" args

-- What a scan reads of the tunnel.
pub record Tunnel : Type 0 where
  pub name : String
  pub server : String
  pub container : String
  pub session_id : String
  pub auto_orphan_clean : Bool
  pub is_dst : Bool

-- The remote command: it could not run, or it ended with a code and an output.
pub data Scanned : Type 0 where
  unreachable : Scanned
  exited : ℕ → List Process → Scanned

pub data Status : Type 0 where
  not_applicable unavailable scanned : Status

pub record Info : Type 0 where
  pub status : Status
  pub processes : List Process
  pub legal : Option Process
  pub orphans : List Process

abbrev pub without : Status → Info
without status = record { status = status; processes = []; legal = none; orphans = [] }

abbrev pub is_agent : Process → Bool
is_agent p = not (is_wrapper p.args) && is_agent_process p.args

abbrev pub has_age : Process → Bool
has_age p = is_some p.age

abbrev pub is_bound : String → Process → Bool
is_bound session_id p = nonempty session_id && occurs session_id p.args

abbrev pub age_of : Process → ℕ
age_of p = elim p.age [ none ↦ 0 | some age ↦ age ]

-- `min(pool, key=lambda p: p["age"])`: the first of the youngest.
unfoldable pub youngest : List Process → Option Process
youngest [] = none
youngest (p ∷ pool) = elim (youngest pool) [
  | none ↦ some p
  | some q ↦ if leb (age_of p) (age_of q) then some p else some q
]

abbrev pub pool_of : String → List Process → List Process
pool_of session_id aged = elim (select (is_bound session_id) aged) [
  | [] ↦ aged
  | p ∷ bound ↦ p ∷ bound
]

abbrev pub spared : Option Process → Process → Bool
spared none p = false
spared (some legal) p = nat_beq p.pid legal.pid

abbrev pub is_old : Process → Bool
is_old p = elim p.age [ none ↦ false | some age ↦ leb grace_seconds age ]

unfoldable pub classify : String → List Process → Info
unfolding youngest
classify session_id rows =
    let processes = select is_agent rows in
    let legal = youngest (pool_of session_id (select has_age processes)) in
    record {
      status = scanned;
      processes = processes;
      legal = legal;
      orphans = select is_old (select (λ p. not (spared legal p)) processes);
    }

unfoldable pub scan : Tunnel → Scanned → Info
unfolding classify
scan t reply =
    if not (nonempty t.server) || not (nonempty t.container)
    then without not_applicable
    else elim reply [
      | unreachable ↦ without unavailable
      | exited code rows ↦
          if nat_beq code 0 then classify t.session_id rows else without unavailable
    ]

-- ===== src/Connector/Manager.antt =====
-- `owns_lease`, `stop` and `step` of `ConnectorManager`. The installation, the lease service and the
-- life of the process are outside: each step is given what they answer.
use dual_tmux.Prelude.{ℕ, String, ◌+◌, Bool, true, false, not, ◌&&◌, List, [], ◌∷◌, ◌++◌}
use dual_tmux.Prelude.{if◌then◌else◌, ltb, leb, nat_beq, nonempty}

-- `BACKOFF_SECONDS[min(failures - 1, 4)]`, for `failures` from 1.
unfoldable pub backoff_seconds : ℕ → ℕ
backoff_seconds failures =
    if leb failures 1
    then 5
    else if nat_beq failures 2
    then 15
    else if nat_beq failures 3
    then 30
    else if nat_beq failures 4
    then 60
    else 120

pub record ConnectorManager : Type 0 where
  pub has_process : Bool
  pub failures : ℕ
  pub next_start_at : ℕ
  pub owner : String
  pub generation : ℕ
  pub has_lease : Bool

-- How the lease is asked for: a Client that leaves the connector to the hub does not ask; else the
-- service answers with a grant, a holder and a generation, or raises.
pub data Lease : Type 0 where
  left_to_hub : String → Lease
  answered : Bool → String → ℕ → Lease
  raised : Lease

pub record Input : Type 0 where
  pub now : ℕ
  pub installed : Bool
  pub lease : Lease
  pub alive : Bool

pub data Effect : Type 0 where
  terminate release : Effect
  start : ℕ → Effect

pub data Connector : Type 0 where
  stopped standby connected backoff starting : Connector

pub record Status : Type 0 where
  pub connector : Connector
  pub owner : String
  pub generation : ℕ
  pub failures : ℕ
  pub next_retry_at : ℕ

abbrev pub owns : Lease → Bool
owns (left_to_hub server) = false
owns (answered owned holder generation) = owned
owns raised = false

-- `owns_lease`
unfoldable pub owns_lease : Lease → ConnectorManager → ConnectorManager
owns_lease (left_to_hub server) m = record m {
  owner = if nonempty server then server else "hub";
  generation = 0;
  has_lease = false;
}
owns_lease (answered owned holder generation) m = record m {
  owner = if nonempty holder then holder else "unknown";
  generation = generation;
  has_lease = owned;
}
owns_lease raised m = record m { owner = "unavailable"; generation = 0; has_lease = false }

-- An exception of the release is dropped.
unfoldable pub stop : Bool → Bool → ConnectorManager → List Effect × ConnectorManager
stop release_lease alive m = (
  (if m.has_process && alive then terminate ∷ [] else [])
      ++ (if release_lease then release ∷ [] else []),
  record m { has_process = false; failures = 0; next_start_at = 0 },
)

abbrev pub Outcome : Type 0
Outcome = List Effect × ConnectorManager × Status

abbrev report : Connector → ℕ → ℕ → ConnectorManager → Status
report connector failures retry m = record {
  connector = connector;
  owner = m.owner;
  generation = m.generation;
  failures = failures;
  next_retry_at = retry;
}

-- A process that is not alive has failed.
unfoldable pub reap : ℕ → ConnectorManager → ConnectorManager
reap now m =
    if m.has_process
    then (let failures = m.failures + 1 in
        record m {
          has_process = false;
          failures = failures;
          next_start_at = now + backoff_seconds failures;
        })
    else m

unfoldable pub start_or_wait : ℕ → ConnectorManager → Outcome
start_or_wait now m =
    if ltb now m.next_start_at
    then ([], m, report backoff m.failures m.next_start_at m)
    else (start m.generation ∷ [], record m { has_process = true }, report starting m.failures 0 m)

unfoldable pub step : Input → ConnectorManager → Outcome
unfolding owns_lease stop reap start_or_wait
step i m =
    if not i.installed
    then (let (effects, n) = stop true i.alive m in
        (
          effects,
          n,
          record {
            connector = stopped;
            owner = "none";
            generation = 0;
            failures = 0;
            next_retry_at = 0;
          },
        ))
    else (let o = owns_lease i.lease m in
        if not (owns i.lease)
        then (let (effects, n) = stop false i.alive o in (effects, n, report standby 0 0 n))
        else if o.has_process && i.alive
        then ([], o, report connected o.failures 0 o)
        else start_or_wait i.now (reap i.now o))

-- ===== src/Recovery/State.antt =====
-- The health state of a tunnel in src/dual_tmux/recovery.py, what a probe returns, and the constants.
use dual_tmux.Prelude.{ℕ, String, Bool, false, Option, none, some, List, [], ◌∷◌, if◌then◌else◌}
use dual_tmux.Prelude.{leb, nat_beq, ◌==◌, ◌<>◌, string_eq, nonempty}

abbrev pub fail_threshold : ℕ
fail_threshold = 3

abbrev pub max_attempts : ℕ
max_attempts = 5

abbrev pub circuit_seconds : ℕ
circuit_seconds = 300

abbrev pub max_auto_rebuilds : ℕ
max_auto_rebuilds = 3

abbrev pub recovery_warmup_seconds : ℕ
recovery_warmup_seconds = 60

abbrev pub recovery_turn_window_seconds : ℕ
recovery_turn_window_seconds = 300

abbrev pub recovery_turn_recheck_seconds : ℕ
recovery_turn_recheck_seconds = 60

-- `BACKOFF_SECONDS[min(attempts - 1, 4)]`, for `attempts` from 1.
unfoldable pub backoff_seconds : ℕ → ℕ
backoff_seconds attempts =
    if leb attempts 1
    then 60
    else if nat_beq attempts 2
    then 120
    else if nat_beq attempts 3
    then 300
    else if nat_beq attempts 4
    then 600
    else 1800

-- `AUTO_REBUILD_BACKOFF[min(attempts, 2)]`, for `attempts` from 0.
unfoldable pub auto_rebuild_backoff : ℕ → ℕ
auto_rebuild_backoff attempts =
    if nat_beq attempts 0 then 300 else if nat_beq attempts 1 then 900 else 1800

pub data Status : Type 0 where
  disabled healthy suspect degraded attention recovering : Status

abbrev pub is_attention : Status → Bool
is_attention Status.attention = Bool.true
is_attention _ = false

pub record Layer : Type 0 where
  pub is_ok : Bool
  pub status : String
  pub detail : String

abbrev pub Layers : Type 0
Layers = List (String × Layer)

-- `str((layers.get(key) or {}).get("status") or "")`
unfoldable pub layer_status : Layers → String → String
layer_status [] key = ""
layer_status ((name, layer) ∷ layers) key =
    let rest = layer_status layers key in if name == key then layer.status else rest

-- Missing keys of the file read as the defaults.
pub record Health : Type 0 where
  pub name : String
  pub status : Status
  pub is_healthy : Bool
  pub consecutive_failures : ℕ
  pub recovery_attempts : ℕ
  pub next_retry_at : ℕ
  pub circuit_until : ℕ
  pub last_checked_at : String
  pub last_healthy_at : String
  pub last_recovery_at : String
  pub last_error : String
  pub layers : Layers
  pub rebuild_attempts : ℕ
  pub rebuild_next_retry_at : ℕ

unfoldable pub default_state : String → Health
default_state name = record {
  name = name;
  status = Status.disabled;
  is_healthy = false;
  consecutive_failures = 0;
  recovery_attempts = 0;
  next_retry_at = 0;
  circuit_until = 0;
  last_checked_at = "";
  last_healthy_at = "";
  last_recovery_at = "";
  last_error = "";
  layers = [];
  rebuild_attempts = 0;
  rebuild_next_retry_at = 0;
}

-- `none` is a file that is missing or that cannot be read.
abbrev pub read_state : String → Option Health → Health
read_state name none = default_state name
read_state name (some h) = h

pub record Probe : Type 0 where
  pub is_healthy : Bool
  pub checked_at : String
  pub layers : Layers
  pub failures : List String

-- `",".join(texts)`
unfoldable pub join : List String → String
join [] = ""
join (t ∷ []) = t
join (t ∷ u ∷ texts) = t <> ("," <> join (u ∷ texts))

-- `x or y`, on texts.
abbrev pub either : String → String → String
either x y = if nonempty x then x else y

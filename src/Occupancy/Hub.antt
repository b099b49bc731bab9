-- ===== src/Occupancy/Hub.antt =====
-- The script that src/dual_tmux/occupancy.py runs on the hub, under the tunnel's file lock.
use dual_tmux.Prelude.{ℕ, String, ◌+◌, not, ◌&&◌, Option, none, some}
use dual_tmux.Prelude.{if◌then◌else◌, nat_beq, ◌==◌, string_eq, nonempty}

-- `occupancy/NAME.json`
pub record Occupied : Type 0 where
  pub holder : String
  pub claimed_at : ℕ
  pub generation : ℕ

-- `locks/NAME`: empty, or `holder@time@generation`. No Client's name contains `@`.
pub data Lock : Type 0 where
  blank : Lock
  line : String → ℕ → ℕ → Lock

-- The two files. `none` is JSON that is missing or cannot be read. The shell creates the lock.
pub record Files : Type 0 where
  pub occupied : Option Occupied
  pub lock : Lock

pub data Action : Type 0 where
  read claim release : Action

pub data Reply : Type 0 where
  granted : Occupied → Reply
  refused : String → String → ℕ → Reply

abbrev lock_holder : Lock → String
lock_holder blank = ""
lock_holder (line by at n) = by

unfoldable pub generation : Files → ℕ
generation f = elim f.lock [ blank ↦ 0 | line by at n ↦ n ]

abbrev recorded : Option Occupied → String
recorded none = ""
recorded (some o) = o.holder

-- `str(data.get('holder') or (parts[0] if parts else ''))`
unfoldable pub holder : Files → String
holder f = let named = recorded f.occupied in if nonempty named then named else lock_holder f.lock

abbrev claimed_at : Option Occupied → ℕ
claimed_at none = 0
claimed_at (some o) = o.claimed_at

-- The generation of a claim: a new one if the holder changes.
unfoldable pub next_generation : String → Files → ℕ
unfolding holder generation
next_generation me f =
    if not (holder f == me)
    then generation f + 1
    else if nat_beq (generation f) 0
    then 1
    else generation f

unfoldable pub script : Action → String → ℕ → Files → Files × Reply
unfolding holder generation next_generation
script read me now f = (
  f,
  granted
      (record { holder = holder f; claimed_at = claimed_at f.occupied; generation = generation f }),
)
script release me now f =
    if nonempty (holder f) && not (holder f == me)
    then (f, refused "foreign_holder" (holder f) (generation f))
    else (let o : Occupied = record { holder = ""; claimed_at = now; generation = generation f } in
        (record { occupied = some o; lock = blank }, granted o))
script claim me now f =
    let o : Occupied = record {
      holder = me;
      claimed_at = now;
      generation = next_generation me f;
    } in
    (record { occupied = some o; lock = line me now o.generation }, granted o)

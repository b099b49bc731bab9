-- ===== src/Hub/Merge/Copy.antt =====
-- `_tunnel_time`, `_tombstone_time`, `_copy_newer` and `_copy_preferred` of src/dual_tmux/hub.py.
use dual_tmux.Prelude.{ℕ, String, ◌+◌, Bool, ◌&&◌, ◌||◌, max, Option, none, some}
use dual_tmux.Prelude.{if◌then◌else◌, ltb, nat_beq, ◌==◌, string_eq}
use dual_tmux.Hub.Files.{File}

-- What JSON and dates say of a file's bytes, in nanoseconds, and the SHA-256 digest.
pub record Reader : Type 0 where
  pub updated_at : String → Option ℕ
  pub deleted_at : String → Option ℕ
  pub run : String → String
  pub digest : String → ℕ

abbrev pub or_mtime : Option ℕ → File → ℕ
or_mtime none f = f.mtime
or_mtime (some t) f = t

pub data Winner : Type 0 where
  left right : Winner

-- Two files of one name, and which of them was selected.
pub record Copied : Type 0 where
  pub left_file : Option File
  pub right_file : Option File
  pub winner : Winner

abbrev pub second : ℕ
second = 1000000000

abbrev mtime_of : Option File → ℕ
mtime_of none = 0
mtime_of (some f) = f.mtime

-- `shutil.copy2` and both `os.utime`.
abbrev stamped : String → Option File → Option File → Option File
stamped bytes l r = some (record { bytes = bytes; mtime = max (mtime_of l) (mtime_of r) + second })

abbrev copied : Winner → String → Option File → Option File → Copied
copied winner bytes l r = record {
  left_file = stamped bytes l r;
  right_file = stamped bytes l r;
  winner = winner;
}

module _ (reader : Reader) where
  unfoldable pub tunnel_time : File → ℕ
  tunnel_time f = or_mtime (reader.updated_at f.bytes) f

  unfoldable pub tombstone_time : File → ℕ
  tombstone_time f = or_mtime (reader.deleted_at f.bytes) f

  -- `right_key > left_key`
  unfoldable pub is_newer : (File → ℕ) → File → File → Bool
  is_newer clock l r =
      ltb (clock l) (clock r)
      || (nat_beq (clock l) (clock r) && ltb (reader.digest l.bytes) (reader.digest r.bytes))

  unfoldable pub copy_newer : (File → ℕ) → Option File → Option File → Copied
  unfolding is_newer
  copy_newer clock none none = record { left_file = none; right_file = none; winner = left }
  copy_newer clock none (some r) = copied right r.bytes none (some r)
  copy_newer clock (some l) none = copied left l.bytes (some l) none
  copy_newer clock (some l) (some r) =
      if l.bytes == r.bytes
      then record { left_file = some l; right_file = some r; winner = left }
      else if is_newer clock l r
      then copied right r.bytes (some l) (some r)
      else copied left l.bytes (some l) (some r)

  -- The preferred file first.
  unfoldable pub copy_preferred : Option File → Option File → Option File × Option File
  copy_preferred (some p) other = (stamped p.bytes (some p) other, stamped p.bytes (some p) other)
  copy_preferred none (some o) = (some o, some o)
  copy_preferred none none = (none, none)

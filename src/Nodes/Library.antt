-- ===== src/Nodes/Library.antt =====
-- What datanode/adapters.py and datanode/models.py use of Python's library, with the documented
-- behaviour that the round trips rely on. `D` is the type of dates.
use dual_tmux.Prelude.{ℕ, String, ◌≡◌, Bool, true, Option, some, nonempty, if◌then◌else◌}
use dual_tmux.Prelude.Result.{Result, ok, err, value_error, type_error, attribute_error}
use dual_tmux.Nodes.Json.{Json, null, flag, number, text, array, dict, Dict, empty, truthy}

pub record Library (D : Type 0) : Type 0 where
  -- `str` of a value that is no text, and of a number
  pub shown : Json → String
  pub digits : ℕ → String
  -- `int` of a text
  pub parse_int : String → Option ℕ
  pub strip : String → String
  pub fromisoformat : String → Option D
  pub isoformat : D → String
  -- how pydantic's `model_dump(mode="json")` writes a date, UTC as `Z`
  pub json_date : D → String
  -- the `pattern` of a pydantic field
  pub matches : String → String → Bool
  pub quote : String → String

-- A date that `isoformat` prints is read back, which is not said of `json_date`: Python 3.10 does not
-- read the `Z`; stripping twice is stripping once, and nothing is left of an empty
-- text; what is printed of a date, of a number or of a value that is no text is not empty.
pub record IsLawful {D : Type 0} (lib : Library D) : Type 0 where
  pub fromisoformat-isoformat : (t : D) → lib.fromisoformat (lib.isoformat t) ≡ some t
  pub nonempty-isoformat : (t : D) → nonempty (lib.isoformat t) ≡ true
  pub nonempty-json_date : (t : D) → nonempty (lib.json_date t) ≡ true
  pub strip-strip : (s : String) → lib.strip (lib.strip s) ≡ lib.strip s
  pub nonempty-shown : (j : Json) → nonempty (lib.shown j) ≡ true
  pub nonempty-digits : (n : ℕ) → nonempty (lib.digits n) ≡ true
  pub strip-nil : lib.strip "" ≡ ""

-- JSON files, whose contents are of the type `C`: `json.loads` of a content, and the content
-- `json.dumps(record, ensure_ascii=False, indent=2) + "\n"` of a dict.
pub record Codec (C : Type 0) : Type 0 where
  pub loads : C → Result Json
  pub dumps : Dict → C

-- A dict that is dumped is loaded again.
abbrev pub IsFaithful : {C : Type 0} → Codec C → Type 0
IsFaithful codec = (d : Dict) → codec.loads (codec.dumps d) ≡ ok (dict d)

module _ {D : Type 0} (lib : Library D) where
  -- `str(value)`
  abbrev pub str : Json → String
  str (text s) = s
  str (null) = lib.shown null
  str (flag b) = lib.shown (flag b)
  str (number n) = lib.digits n
  str (array js) = lib.shown (array js)
  str (dict d) = lib.shown (dict d)

  -- `str(value or default)`
  unfoldable pub str_or : String → Json → String
  str_or default value = if truthy value then str value else default

  abbrev parsed : Option ℕ → Result ℕ
  parsed (some n) = ok n
  parsed _ = err (value_error "invalid literal for int()")

  -- `int(value or default)`
  abbrev pub int : Json → Result ℕ
  int (text s) = parsed (lib.parse_int s)
  int (number n) = ok n
  int (flag true) = ok 1
  int (flag _) = ok 0
  int _ = err (type_error "int() argument must be a string or a number")

  unfoldable pub int_or : ℕ → Json → Result ℕ
  int_or default value = if truthy value then int value else ok default

-- `value or {}`, of which a method of dicts is called.
unfoldable pub or_empty : Json → Result Dict
or_empty (dict d) = ok d
or_empty value = if truthy value then err (attribute_error "get") else ok empty

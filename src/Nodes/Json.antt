-- ===== src/Nodes/Json.antt =====
-- JSON values as Python reads them, and dicts in insertion order: what datanode/adapters.py does
-- with the records of datanode/repository.py.
use dual_tmux.Prelude.{
  ℕ, String, ◌≡◌, refl, Bool, true, false, ◌||◌, not, List, [], ◌∷◌, arith, eq_iff, ◌==◌, string_eq,
  nonempty, if◌then◌else◌, nat_beq,
}

mutual
  pub data Json : Type 0 where
    null : Json
    flag : Bool → Json
    number : ℕ → Json
    text : String → Json
    array : Items → Json
    dict : Dict → Json

  pub data Items : Type 0 where
    nil : Items
    cons : Json → Items → Items

  pub data Dict : Type 0 where
    empty : Dict
    entry : String → Json → Dict → Dict

abbrev has_items : Items → Bool
has_items nil = false
has_items (cons j js) = true

abbrev has_entries : Dict → Bool
has_entries empty = false
has_entries (entry k j d) = true

-- `bool(value)`
abbrev pub truthy : Json → Bool
truthy null = false
truthy (flag b) = b
truthy (number n) = not (nat_beq n 0)
truthy (text s) = nonempty s
truthy (array js) = has_items js
truthy (dict d) = has_entries d

-- `value if isinstance(value, dict) else {}`
abbrev pub dict_or_empty : Json → Dict
dict_or_empty (dict d) = d
dict_or_empty _ = empty

abbrev pub is_dict : Json → Bool
is_dict (dict d) = true
is_dict _ = false

-- `d.get(key)`, where a missing key reads as `None`
unfoldable pub get : Dict → String → Json
get empty key = null
get (entry k j d) key = if k == key then j else get d key

-- `key in d`
unfoldable pub has : Dict → String → Bool
has empty key = false
has (entry k j d) key = k == key || has d key

-- `d[key] = value`
unfoldable pub set : String → Json → Dict → Dict
set key value empty = entry key value empty
set key value (entry k j d) = if k == key then entry k value d else entry k j (set key value d)

-- `d.pop(key, None)`
unfoldable pub pop : String → Dict → Dict
pop key empty = empty
pop key (entry k j d) = let rest = pop key d in if k == key then rest else entry k j rest

-- `if test: d[key] = value`
abbrev pub set_if : Bool → String → Json → Dict → Dict
set_if true key value d = set key value d
set_if false key value d = d

-- `any(d.values())`
abbrev pub any_value : Dict → Bool
any_value empty = false
any_value (entry k j d) = truthy j || any_value d

-- `d.update(fields)`
abbrev pub update : List (String × Json) → Dict → Dict
update [] d = d
update ((k, j) ∷ fields) d = update fields (set k j d)

-- `d.update(other)`
unfoldable pub merge : Dict → Dict → Dict
merge d empty = d
merge d (entry k j other) = merge (set k j d) other

pub get-set :
    (key other : String) (value : Json) (d : Dict)
    → get (set key value d) other ≡ (if key == other then value else get d other)
unfolding get set
get-set key other value empty = ground (arith, eq_iff key other)
get-set key other value (entry k j d) =
    ground (arith, eq_iff key other, eq_iff k key, eq_iff k other, get-set key other value d)

pub has-set :
    (key other : String) (value : Json) (d : Dict)
    → has (set key value d) other ≡ (key == other || has d other)
unfolding has set
has-set key other value empty = ground (arith, eq_iff key other)
has-set key other value (entry k j d) =
    ground (arith, eq_iff key other, eq_iff k key, eq_iff k other, has-set key other value d)

pub get-pop :
    (key other : String) (d : Dict)
    → get (pop key d) other ≡ (if key == other then null else get d other)
unfolding get pop
get-pop key other empty = ground (arith, eq_iff key other)
get-pop key other (entry k j d) =
    ground (arith, eq_iff key other, eq_iff k key, eq_iff k other, get-pop key other d)

pub get-set_if :
    (test : Bool) (key other : String) (value : Json) (d : Dict)
    → get (set_if test key value d) other
      ≡ (if key == other then (if test then value else get d other) else get d other)
get-set_if true key other value d = get-set key other value d
get-set_if false key other value d = ground (arith)

pub has-pop :
    (key other : String) (d : Dict)
    → has (pop key d) other ≡ (if key == other then false else has d other)
unfolding has pop
has-pop key other empty = ground (arith, eq_iff key other)
has-pop key other (entry k j d) =
    ground (arith, eq_iff key other, eq_iff k key, eq_iff k other, has-pop key other d)

pub has-set_if :
    (test : Bool) (key other : String) (value : Json) (d : Dict)
    → has (set_if test key value d) other
      ≡ (if key == other then test || has d other else has d other)
has-set_if true key other value d = ground (arith, has-set key other value d)
has-set_if false key other value d = ground (arith)

-- A missing key reads as `None`.
pub get_of_absent : (key : String) (d : Dict) → has d key ≡ false → get d key ≡ null
unfolding get has
get_of_absent key empty h = refl
get_of_absent key (entry k j d) h = ground (arith, eq_iff k key, get_of_absent key d)

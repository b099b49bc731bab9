-- ===== src/Hub/Files.antt =====
-- Directories of src/dual_tmux/hub.py: files by their names.
use dual_tmux.Prelude.{ℕ, String, ◌≡◌, arith, Option, none, some, List, [], ◌∷◌, map, eq_iff}
use dual_tmux.Prelude.{◌==◌, string_eq, if◌then◌else◌}

-- `mtime` in nanoseconds.
pub record File : Type 0 where
  pub bytes : String
  pub mtime : ℕ

abbrev pub Dir : Type 0
Dir = List (String × File)

unfoldable pub get : String → Dir → Option File
get name [] = none
get name ((k, f) ∷ files) = if k == name then some f else get name files

unfoldable pub unlink : String → Dir → Dir
unlink name [] = []
unlink name ((k, f) ∷ files) =
    let rest = unlink name files in if k == name then rest else (k, f) ∷ rest

-- The file that a name has from now on, if any.
unfoldable pub set : String → Option File → Dir → Dir
unfolding unlink
set name none files = unlink name files
set name (some f) files = (name, f) ∷ unlink name files

abbrev pub names : Dir → List String
names = map (λ e. e.0)

get-unlink :
    (name k : String) (files : Dir)
    → get k (unlink name files) ≡ (if name == k then none else get k files)
unfolding get unlink
get-unlink name k [] = ground arith
get-unlink name k ((j, f) ∷ files) =
    ground (arith, get-unlink name k files, eq_iff j name, eq_iff j k, eq_iff name k)

pub get-set :
    (name k : String) (f : Option File) (files : Dir)
    → get k (set name f files) ≡ (if name == k then f else get k files)
unfolding get set
get-set name k none files = get-unlink name k files
get-set name k (some f) files = ground (arith, get-unlink name k files)

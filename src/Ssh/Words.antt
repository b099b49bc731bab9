-- ===== src/Ssh/Words.antt =====
-- The tests that src/dual_tmux/sshutil.py makes of a word, on its code points. Letters and digits are
-- those of ASCII.
use Prim.Native.Char.{code}
use Prim.Native.Nat.{◌*◌}
use dual_tmux.Prelude.{
  ℕ, String, ◌+◌, ◌-◌, Bool, true, false, ◌&&◌, List, [], ◌∷◌, map, leb, nat_beq, if◌then◌else◌,
}

abbrev pub codes : String → List ℕ
codes String.[] = []
codes (String.◌∷◌ c s) = code c ∷ codes s

-- `str.lower` of a code point.
abbrev pub lower : ℕ → ℕ
lower c = if leb 65 c && leb c 90 then c + 32 else c

abbrev pub prefix_of : List ℕ → List ℕ → Bool
prefix_of [] word = true
prefix_of (p ∷ ps) [] = false
prefix_of (p ∷ ps) (c ∷ word) = nat_beq p c && prefix_of ps word

-- `word.startswith(start)`, and of `word.lower()`
unfoldable pub starts : String → String → Bool
starts start word = prefix_of (codes start) (codes word)

unfoldable pub starts_lower : String → String → Bool
starts_lower start word = prefix_of (codes start) (map lower (codes word))

abbrev pub same_codes : List ℕ → List ℕ → Bool
same_codes [] [] = true
same_codes (a ∷ as_) (b ∷ bs) = nat_beq a b && same_codes as_ bs
same_codes _ _ = false

-- `a.lower() == b.lower()`
unfoldable pub same_lower : String → String → Bool
same_lower a b = same_codes (map lower (codes a)) (map lower (codes b))

abbrev pub digits : List ℕ → Bool
digits [] = true
digits (c ∷ word) = leb 48 c && leb c 57 && digits word

-- `word.isdigit()`
unfoldable pub is_digits : List ℕ → Bool
is_digits [] = false
is_digits (c ∷ word) = digits (c ∷ word)

abbrev number_from : ℕ → List ℕ → ℕ
number_from n [] = n
number_from n (c ∷ word) = number_from (10 * n + (c - 48)) word

-- `int(word)` of digits
unfoldable pub number : List ℕ → ℕ
number word = number_from 0 word

-- `word.split("=", 1)[1]` of a word with the sign
unfoldable pub after_eq : List ℕ → List ℕ
after_eq [] = []
after_eq (c ∷ word) = if nat_beq c 61 then word else after_eq word

-- `word[2:]`
abbrev pub tail : List ℕ → List ℕ
tail [] = []
tail (c ∷ word) = word

abbrev pub drop_two : List ℕ → List ℕ
drop_two word = tail (tail word)

-- ===== src/Ssh/Split.antt =====
-- `str.split` of a command, which src/dual_tmux/sshutil.py parses, for blanks of ASCII.
use Prim.Native.Char.{Char, code}
use Prim.Native.String.append
use text.Mathlib.TextLemmas.{append-nil, append_assoc, nil≢cons}
use dual_tmux.Prelude.{
  ℕ, String, ◌≡◌, refl, sym, ◌∙◌, ap, Bool, true, false, not, ◌&&◌, ◌||◌, List, [], ◌∷◌, ◌<>◌,
  arith, All, nonempty, leb, if◌then◌else◌, Bool-cases, inl, inr, eq_iff, ◌==◌, string_eq,
}
use dual_tmux.Nodes.Command.{joined}
use dual_tmux.Ssh.Words.{codes, digits, is_digits}
use dual_tmux.Ssh.Target.{HostBlock, SshTarget, parse_ssh_target}
use dual_tmux.Prelude.{Option}

-- `str.isspace` of a code point
abbrev pub is_blank : ℕ → Bool
is_blank c = leb 9 c && leb c 13 || leb 28 c && leb c 32

abbrev pub flushed : String → List String → List String
flushed word words = if nonempty word then word ∷ words else words

-- The words of a text, where `word` has been read of the first.
unfoldable pub words_from : String → String → List String
words_from word String.[] = flushed word []
words_from word (String.◌∷◌ c s) = elim (is_blank (code c)) [
  | true ↦ flushed word (words_from "" s)
  | false ↦ words_from (word <> (String.◌∷◌ c String.[])) s
]

-- `raw.strip().split()`
unfoldable pub split : String → List String
unfolding words_from
split raw = words_from "" raw

-- `parse_ssh_target` of a text
unfoldable pub parse_ssh_text : List HostBlock → String → Option SshTarget
unfolding parse_ssh_target split
parse_ssh_text blocks raw = parse_ssh_target blocks (split raw)

-- A text without blanks.
abbrev pub solid : String → Bool
solid String.[] = true
solid (String.◌∷◌ c s) = not (is_blank (code c)) && solid s

both : (a b : Bool) → (not a && b) ≡ true → (a ≡ false) × (b ≡ true)
both a b h = (ground arith, ground arith)

next_char :
    (word : String) (c : Char) (s : String)
    → is_blank (code c) ≡ false
    → words_from word (String.◌∷◌ c s) ≡ words_from (word <> String.◌∷◌ c String.[]) s
unfolding words_from
next_char word c s h = rw (words_from, h) refl

next_blank :
    (word : String) (c : Char) (s : String)
    → is_blank (code c) ≡ true
    → words_from word (String.◌∷◌ c s) ≡ flushed word (words_from "" s)
unfolding words_from
next_blank word c s h = rw (words_from, h) refl

-- One blank.
abbrev is_gap : String → Bool
is_gap String.[] = false
is_gap (String.◌∷◌ c String.[]) = is_blank (code c)
is_gap _ = false

-- Words without blanks are read whole.
words_from-solid :
    (word x rest : String)
    → solid x ≡ true
    → words_from word (x <> rest) ≡ words_from (word <> x) rest
unfolding words_from
words_from-solid word String.[] rest h =
    ap (λ (r : String). words_from word r) (append.nil rest)
    ∙ ap (λ (w : String). words_from w rest) (sym (append-nil word))
words_from-solid word (String.◌∷◌ c x) rest h =
    let (black, more) = both (is_blank (code c)) (solid x) h in
    ap (λ (r : String). words_from word r) (append.cons c x rest)
    ∙ next_char word c (x <> rest) black
    ∙ words_from-solid (word <> String.◌∷◌ c String.[]) x rest more
    ∙ ap (λ (w : String). words_from w rest)
        (append_assoc word (String.◌∷◌ c String.[]) x
          ∙ ap (λ (t : String). word <> t)
              (append.cons c String.[] x ∙ ap (λ (t : String). String.◌∷◌ c t) (append.nil x)))

words_from-blank :
    (word rest : String) → words_from word (" " <> rest) ≡ flushed word (words_from "" rest)
words_from-blank word rest = blank_first word rest " " refl
  where
    blank_first :
        (word rest gap : String)
        → is_gap gap ≡ true
        → words_from word (gap <> rest) ≡ flushed word (words_from "" rest)
    blank_first word rest String.[] h = cc
    blank_first word rest (String.◌∷◌ c (String.◌∷◌ e s)) h = cc
    blank_first word rest (String.◌∷◌ c String.[]) h =
        ap (λ (r : String). words_from word r)
          (append.cons c String.[] rest ∙ ap (λ (t : String). String.◌∷◌ c t) (append.nil rest))
        ∙ next_blank word c rest h

-- A word as `str.split` answers it.
pub record IsWord (word : String) : Type 0 where
  pub given : nonempty word ≡ true
  pub whole : solid word ≡ true

read_word : (x rest : String) → IsWord x → words_from "" (x <> rest) ≡ words_from x rest
read_word x rest h =
    words_from-solid "" x rest h.whole ∙ ap (λ (w : String). words_from w rest) (append.nil x)

-- Words joined by a blank are split again.
pub split-joined : (words : List String) → All IsWord words → split (joined words) ≡ words
unfolding split words_from
split-joined [] h = refl
split-joined (x ∷ []) (h, hs) =
    ap (λ (r : String). words_from "" r) (sym (append-nil x))
    ∙ read_word x "" h
    ∙ ap (λ b. if b then x ∷ [] else []) h.given
split-joined (x ∷ y ∷ words) (h, hs) =
    read_word x (" " <> joined (y ∷ words)) h
    ∙ words_from-blank x (joined (y ∷ words))
    ∙ ap
        (λ b.
          if b then x ∷ words_from "" (joined (y ∷ words)) else words_from "" (joined (y ∷ words)))
        h.given
    ∙ ap (λ (l : List String). x ∷ l) (split-joined (y ∷ words) hs)

digits-solid : (s : String) → digits (codes s) ≡ true → solid s ≡ true
digits-solid String.[] h = refl
digits-solid (String.◌∷◌ c s) h = ground (arith, digits-solid s)

nonempty-cons : (c : Char) (s : String) → nonempty (String.◌∷◌ c s) ≡ true
nonempty-cons c s = elim (Bool-cases (String.◌∷◌ c s == "")) [
  | inl e ↦ absurd (nil≢cons (sym ((eq_iff (String.◌∷◌ c s) "").0 e)))
  | inr e ↦ rw e refl
]

-- The printed digits of a port are a word.
pub digits-IsWord : (s : String) → is_digits (codes s) ≡ true → IsWord s
unfolding is_digits
digits-IsWord String.[] h = cc
digits-IsWord (String.◌∷◌ c s) h = record {
  given = nonempty-cons c s;
  whole = digits-solid (String.◌∷◌ c s) h;
}

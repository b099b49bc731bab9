-- ===== src/Activity/Source.antt =====
-- `last_tick_epoch`, `source_tick_epoch` and `preferred_source` of src/dual_tmux/activity.py. A log
-- is the list of its lines, split into words; `epoch_of` is `int`, where it does not raise.
use Prim.Native.Nat.Ordering.{gt}
use Prim.Native.String.{compare}
use dual_tmux.Prelude.{
  ℕ, String, ◌≤◌, ◌≡◌, Bool, true, not, ◌&&◌, ◌||◌, Option, none, some, List, [], ◌∷◌, ◌++◌, max,
  arith, Bool-cases, eq_iff, inl, inr,
}
use dual_tmux.Prelude.{if◌then◌else◌, ltb, nat_beq, ◌==◌, string_eq, nonempty, contains, select}

module _ (epoch_of : String → Option ℕ) (empty_fingerprint : String) where
  abbrev last_word : String → List String → String
  last_word w [] = w
  last_word w (v ∷ words) = last_word v words

  abbrev or_zero : Option ℕ → ℕ
  or_zero none = 0
  or_zero (some n) = n

  -- The loop over the reversed lines.
  unfoldable pub last_tick : List (List String) → String → ℕ
  last_tick [] name = 0
  last_tick ((epoch ∷ stamp ∷ tunnel ∷ op ∷ run ∷ fp ∷ more) ∷ rows) name =
      let rest = last_tick rows name in
      if tunnel == name && not (op == "-" || last_word fp more == empty_fingerprint)
      then or_zero (epoch_of epoch)
      else rest
  last_tick (short ∷ rows) name = last_tick rows name

-- The epochs of a source's own log and of the local one, read from the last line on.
unfoldable pub source_tick_epoch :
    (List (List String) → String → ℕ)
    → (String → List (List String))
    → List (List String)
    → String
    → String
    → String
    → String
    → ℕ
source_tick_epoch last_epoch persisted ticks local op name source =
    if not (nonempty op) || not (nonempty name)
    then 0
    else if source == local
    then max (last_epoch (persisted source) name) (last_epoch ticks name)
    else last_epoch (persisted source) name

abbrev earlier : String → String → String
earlier a b = elim (compare a b) [ gt ↦ b | _ ↦ a ]

-- `min(winners)`
unfoldable pub least : String → List String → String
least w [] = w
least w (v ∷ words) = earlier w (least v words)

unfoldable pub newest_epoch : (String → ℕ) → List String → ℕ
newest_epoch epoch [] = 0
newest_epoch epoch (s ∷ sources) = max (epoch s) (newest_epoch epoch sources)

abbrev pub with_local : (String → Bool) → String → List String → List String
with_local legal local sources =
    if nonempty local && legal local && not (contains sources local)
    then sources ++ (local ∷ [])
    else sources

abbrev pub choose : String → List String → String
choose local [] = ""
choose local (w ∷ winners) = if contains (w ∷ winners) local then local else least w winners

abbrev pub winners_of : (String → ℕ) → List String → List String
winners_of epoch live = select (λ s. nat_beq (epoch s) (newest_epoch epoch live)) live

-- `directories` are the sorted names below the root, `legal` is `legal_source`, and `epoch` is
-- `source_tick_epoch` of the tunnel.
unfoldable pub preferred_source : (String → Bool) → (String → ℕ) → String → List String → String
unfolding least newest_epoch
preferred_source legal epoch local directories =
    let sources = with_local legal local (select legal directories) in
    let live = select (λ s. ltb 0 (epoch s)) sources in choose local (winners_of epoch live)

pub contains-least :
    (w : String) (words : List String) → contains (w ∷ words) (least w words) ≡ true
unfolding least
contains-least w [] = ground (arith, eq_iff w w)
contains-least w (v ∷ words) = ground (arith, contains-least v words, eq_iff w w)

pub epoch-newest :
    (epoch : String → ℕ) (s : String) (sources : List String)
    → contains sources s ≡ true
    → epoch s ≤ newest_epoch epoch sources
unfolding newest_epoch
epoch-newest epoch s [] h = cc
epoch-newest epoch s (t ∷ sources) h = elim (Bool-cases (t == s)) [
  | inl e ↦ let same = (eq_iff t s).0 e in rw same (omega arith)
  | inr e ↦
      let later : contains sources s ≡ true = rw e at h in
      let b = epoch-newest epoch s sources later in omega arith
]

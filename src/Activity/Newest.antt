-- ===== src/Activity/Newest.antt =====
-- The preferred source is the one whose trigger changed last.
use dual_tmux.Prelude.{
  ℕ, String, ◌≤◌, ◌<◌, ◌≡◌, ◌∙◌, Bool, true, List, [], ◌∷◌, arith, Bool-cases, eq_iff, inl, inr,
}
use dual_tmux.Prelude.{ltb, leb, nat_beq, string_eq, contains, select}
use dual_tmux.Hub.Snapshot.{contains-select}
use dual_tmux.Activity.Source.{
  newest_epoch, with_local, choose, winners_of, preferred_source, contains-least, epoch-newest,
}

selected :
    (p : String → Bool) (k : String) (xs : List String)
    → contains (select p xs) k ≡ true
    → (contains xs k ≡ true) × (p k ≡ true)
unfolding select
selected p k [] h = cc
selected p k (x ∷ xs) h = ground (arith, selected p k xs, eq_iff x k)

contains-choose :
    (local t : String) (ws : List String)
    → contains ws t ≡ true
    → contains ws (choose local ws) ≡ true
contains-choose local t [] h = cc
contains-choose local t (w ∷ ws) h = elim (Bool-cases (contains (w ∷ ws) local)) [
  | inl e ↦ rw e e
  | inr e ↦ rw e (contains-least w ws)
]

newest_attained :
    (epoch : String → ℕ) (xs : List String)
    → 0 < newest_epoch epoch xs
    → (t : String) × (contains xs t ≡ true) × (newest_epoch epoch xs ≤ epoch t)
unfolding newest_epoch
newest_attained epoch [] pos = absurd (omega arith)
newest_attained epoch (x ∷ xs) pos = elim (Bool-cases (leb (newest_epoch epoch xs) (epoch x))) [
  | inl e ↦ (x, ground (arith, eq_iff x x), ground arith)
  | inr e ↦
      let (t, there, le) = newest_attained epoch xs (ground arith) in
      (t, ground (arith, eq_iff x t), ground arith)
]

-- The sources that `preferred_source` compares.
abbrev pub sources_of : (String → Bool) → String → List String → List String
sources_of legal local directories = with_local legal local (select legal directories)

-- What may be preferred over `s`: a source that is at least as new.
pub record IsPreferred (legal : String → Bool) (epoch : String → ℕ) (local : String)
    (directories : List String) (s p : String) : Type 0 where
  pub source : contains (sources_of legal local directories) p ≡ true
  pub newest : epoch s ≤ epoch p

-- If some source has a tick, the preferred source is a legal one of the root or the local one, and
-- its last tick is at least as late as that of every source with a tick.
pub preferred_source-IsPreferred :
    (legal : String → Bool) (epoch : String → ℕ) (local : String) (directories : List String)
    (s : String)
    → contains (sources_of legal local directories) s ≡ true
    → 0 < epoch s
    → IsPreferred legal epoch local directories s (preferred_source legal epoch local directories)
unfolding preferred_source
preferred_source-IsPreferred legal epoch local directories s there pos =
    let sources = sources_of legal local directories in
    let is_live : String → Bool = λ x. ltb 0 (epoch x) in
    let live = select is_live sources in
    let s_live : contains live s ≡ true =
      contains-select is_live s sources (ground arith) ∙ there in
    let top = newest_epoch epoch live in
    let le = epoch-newest epoch s live s_live in
    let (t, t_live, high) = newest_attained epoch live (omega arith) in
    let t_top = epoch-newest epoch t live t_live in
    let t_wins : contains (winners_of epoch live) t ≡ true =
      contains-select (λ x. nat_beq (epoch x) top) t live (ground arith) ∙ t_live in
    let p = choose local (winners_of epoch live) in
    let (p_live, p_top) =
      selected (λ x. nat_beq (epoch x) top) p live
        (contains-choose local t (winners_of epoch live) t_wins) in
    let (p_source, p_pos) = selected is_live p sources p_live in
    record { source = p_source; newest = ground arith }

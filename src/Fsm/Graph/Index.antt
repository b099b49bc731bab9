-- ===== src/Fsm/Graph/Index.antt =====
-- The event index of graph.py finds what a scan of the declared transitions finds.
use mathlib.Core.List.{append-nil, append_assoc}
use dual_tmux.Prelude.{◌≡◌, refl, ◌∙◌, sym, ◌&&◌, Option, none, some}
use dual_tmux.Prelude.{
  inl, inr, ap, Bool-cases, Option-cases, List, [], ◌∷◌, ◌++◌, arith, Comparable, ◌==◌,
  if◌then◌else◌,
}
use dual_tmux.Fsm.Graph.{
  TransitionDef, Transitions, indexed, index_append, build_index, make_graph, pair_from,
  definition_at, with_definition, find_transition,
}

module _ {ℓ} {S E : Type ℓ} ⦃e : Comparable E⦄ where
  indexed-index_append :
      (event k : E) (pair : S × S) (index : List (E × List (S × S)))
      → indexed event (index_append k pair index)
        ≡ (if k == event then indexed event index ++ (pair ∷ []) else indexed event index)
  unfolding indexed index_append
  indexed-index_append event k pair [] = ground arith
  indexed-index_append event k pair ((j, l) ∷ index) = ground (
    arith,
    indexed-index_append event k pair index,
    e.equal_iff j k,
    e.equal_iff j event,
    e.equal_iff k event,
  )

module _ {ℓ} {S E C : Type ℓ} ⦃e : Comparable E⦄ where
  pairs_on : E → Transitions S E C → List (S × S)
  pairs_on event [] = []
  pairs_on event ((pair, definition) ∷ rest) =
      let later = pairs_on event rest in if definition.event == event then pair ∷ later else later

  indexed-build_index :
      (event : E) (transitions : Transitions S E C) (index : List (E × List (S × S)))
      → indexed event (build_index transitions index)
        ≡ indexed event index ++ pairs_on event transitions
  unfolding build_index pairs_on
  indexed-build_index event [] index = sym (append-nil _)
  indexed-build_index event ((pair, d) ∷ rest) index =
      rw (indexed-build_index event rest (index_append d.event pair index)) (
        rw (indexed-index_append event d.event pair index) (elim (Bool-cases (d.event == event)) [
          | inl same ↦
              rw same (append_assoc (indexed event index) (pair ∷ []) (pairs_on event rest))
          | inr other ↦ rw other
        ]))

module _ {ℓ} {S E C : Type ℓ} ⦃s : Comparable S⦄ ⦃e : Comparable E⦄ where
  -- The first declared transition from `current` on `event`.
  abbrev pub first_edge : S → E → Transitions S E C → Option (S × S × TransitionDef E C)
  first_edge current event [] = none
  first_edge current event (((from, to), definition) ∷ rest) =
      if from == current && definition.event == event
      then some (from, to, definition)
      else first_edge current event rest

  -- The keys of a dict: no pair of states is declared twice.
  abbrev pub IsDict : Transitions S E C → Type ℓ
  IsDict [] = Unit
  IsDict (((from, to), definition) ∷ rest) = (definition_at from to rest ≡ none) × IsDict rest

  abbrev ends : Option (S × S × TransitionDef E C) → Option (S × S)
  ends none = none
  ends (some (from, to, definition)) = some (from, to)

  pair_from-pairs_on :
      (current : S) (event : E) (transitions : Transitions S E C)
      → pair_from current (pairs_on event transitions) ≡ ends (first_edge current event transitions)
  unfolding pair_from pairs_on
  pair_from-pairs_on current event [] = refl
  pair_from-pairs_on current event (((from, to), d) ∷ rest) =
      ground (arith, pair_from-pairs_on current event rest)

  definition_at-first_edge :
      (current : S) (event : E) (transitions : Transitions S E C)
      → IsDict transitions
      → (f t : S) (d : TransitionDef E C) → first_edge current event transitions ≡ some (f, t, d)
      → definition_at f t transitions ≡ some d
  unfolding definition_at
  definition_at-first_edge current event [] h f t d found = cc
  definition_at-first_edge current event (((from, to), c) ∷ rest) h f t d found = ground (
    arith,
    s.equal_iff from f,
    s.equal_iff to t,
    definition_at-first_edge current event rest h.1 f t d,
  )

  with_definition-first_edge :
      (current : S) (event : E) (transitions : Transitions S E C)
      → IsDict transitions
      → with_definition transitions (ends (first_edge current event transitions))
        ≡ first_edge current event transitions
  unfolding with_definition
  with_definition-first_edge current event transitions h =
      elim (Option-cases (first_edge current event transitions)) [
        | inl e ↦ rw e
        | inr ((f, t, d), e) ↦
            rw e
              (rw (definition_at-first_edge current event transitions h f t d e, with_definition))
      ]

  -- On a graph built from a dict, the indexed search answers what a scan of the declared
  -- transitions in their order answers, for every state and event.
  pub find_transition-make_graph :
      (transitions : Transitions S E C) (initial current : S) (event : E)
      → IsDict transitions
      → find_transition (make_graph transitions initial) current event
        ≡ first_edge current event transitions
  unfolding find_transition make_graph
  find_transition-make_graph transitions initial current event h =
      ap (λ l. with_definition transitions (pair_from current l))
        (indexed-build_index event transitions [])
      ∙ ap (with_definition transitions) (pair_from-pairs_on current event transitions)
      ∙ with_definition-first_edge current event transitions h

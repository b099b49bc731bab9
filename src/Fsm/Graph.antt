-- ===== src/Fsm/Graph.antt =====
-- datanode/fsm_core/state_machine/graph.py: transitions, guards and actions over any type of
-- states `S`, events `E` and contexts `C`.
pub mod Index
use dual_tmux.Prelude.{ℕ, Bool, ◌&&◌, Option, none, some, List, [], ◌∷◌, ◌++◌}
use dual_tmux.Prelude.{Comparable, ◌==◌, if◌then◌else◌}
use dual_tmux.Prelude.Result.{Exn, Result}

-- A guard reads the context, and may raise while it does.
abbrev pub Guard {ℓ} : Type ℓ → Type ℓ
Guard C = C → Result Bool

-- An action reads the clock and writes to the context. What it wrote before it raised stays.
abbrev pub Action {ℓ} : Type ℓ → Type ℓ
Action C = ℕ → C → C × Option Exn

pub record TransitionDef {ℓ} (E C : Type ℓ) : Type ℓ where
  pub event : E
  pub guard : Option (Guard C)
  pub on_exit : Option (Action C)
  pub on_enter : Option (Action C)

-- The argument `transitions` of `Graph`, in the order of the dict.
abbrev pub Transitions {ℓ} : Type ℓ → Type ℓ → Type ℓ → Type ℓ
Transitions S E C = List ((S × S) × TransitionDef E C)

pub record Graph {ℓ} (S E C : Type ℓ) : Type ℓ where
  pub initial : S
  pub transitions : Transitions S E C
  pub event_index : List (E × List (S × S))

-- `d.get(event, [])` on the event index.
unfoldable pub indexed {ℓ} :
    {S E : Type ℓ} ⦃e : Comparable E⦄ → E → List (E × List (S × S)) → List (S × S)
indexed event [] = []
indexed event ((k, l) ∷ index) = if k == event then l else indexed event index

-- `d.setdefault(event, []).append(pair)`
unfoldable pub index_append {ℓ} :
    {S E : Type ℓ} ⦃e : Comparable E⦄
    → E
    → S × S
    → List (E × List (S × S))
    → List (E × List (S × S))
index_append event pair [] = (event, pair ∷ []) ∷ []
index_append event pair ((k, l) ∷ index) =
    let rest = index_append event pair index in
    if k == event then (k, l ++ (pair ∷ [])) ∷ index else (k, l) ∷ rest

-- The loop of `__init__`.
unfoldable pub build_index {ℓ} :
    {S E C : Type ℓ} ⦃e : Comparable E⦄
    → Transitions S E C
    → List (E × List (S × S))
    → List (E × List (S × S))
build_index [] index = index
build_index ((pair, definition) ∷ rest) index =
    build_index rest (index_append definition.event pair index)

unfoldable pub make_graph {ℓ} :
    {S E C : Type ℓ} ⦃e : Comparable E⦄ → Transitions S E C → S → Graph S E C
unfolding build_index index_append
make_graph transitions initial = record {
  initial = initial;
  transitions = transitions;
  event_index = build_index transitions [];
}

-- The loop over the indexed pairs: the first that starts at the current state.
unfoldable pub pair_from {ℓ} : {S : Type ℓ} ⦃s : Comparable S⦄ → S → List (S × S) → Option (S × S)
pair_from current [] = none
pair_from current ((from, to) ∷ rest) =
    if from == current then some (from, to) else pair_from current rest

-- `self._transitions[(from_state, to_state)]`; `none` is a `KeyError`.
unfoldable pub definition_at {ℓ} :
    {S E C : Type ℓ} ⦃s : Comparable S⦄ → S → S → Transitions S E C → Option (TransitionDef E C)
definition_at from to [] = none
definition_at from to (((f, t), definition) ∷ rest) =
    if f == from && t == to then some definition else definition_at from to rest

-- The returned triple, for the pair that the loop stops at.
unfoldable pub with_definition {ℓ} :
    {S E C : Type ℓ} ⦃s : Comparable S⦄
    → Transitions S E C
    → Option (S × S)
    → Option (S × S × TransitionDef E C)
unfolding definition_at
with_definition transitions none = none
with_definition transitions (some (from, to)) = elim (definition_at from to transitions) [
  | none ↦ none
  | some d ↦ some (from, to, d)
]

unfoldable pub find_transition {ℓ} :
    {S E C : Type ℓ} ⦃s : Comparable S⦄ ⦃e : Comparable E⦄
    → Graph S E C
    → S
    → E
    → Option (S × S × TransitionDef E C)
unfolding indexed pair_from with_definition
find_transition graph current event =
    with_definition graph.transitions (pair_from current (indexed event graph.event_index))

-- The comprehension of `transitions_from`.
unfoldable pub leaving {ℓ} :
    {S E C : Type ℓ} ⦃s : Comparable S⦄ → S → Transitions S E C → List (S × TransitionDef E C)
leaving state [] = []
leaving state (((from, to), definition) ∷ rest) =
    let later = leaving state rest in if from == state then (to, definition) ∷ later else later

unfoldable pub transitions_from {ℓ} :
    {S E C : Type ℓ} ⦃s : Comparable S⦄ → Graph S E C → S → List (S × TransitionDef E C)
unfolding leaving
transitions_from graph state = leaving state graph.transitions

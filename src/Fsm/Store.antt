-- ===== src/Fsm/Store.antt =====
-- datanode/fsm_core/state_store: the protocol of snapshot stores, and `MemoryStateStore`.
use dual_tmux.Prelude.{
  String, ◌≡◌, refl, arith, eq_iff, Bool, true, false, Option, none, some, List, [], ◌∷◌, map,
}
use dual_tmux.Prelude.{◌==◌, string_eq, if◌then◌else◌}
use dual_tmux.Prelude.Result.{Exn}

-- protocol.py over stored values `V`; a `save` may raise `OSError`.
pub record StateStore (V : Type 0) : Type 1 where
  pub State : Type 0
  pub save : String → V → State → State × Option Exn
  pub load : String → State → Option V

-- A value that was saved is loaded again, other keys are left alone, and a `save` that raised has
-- changed nothing.
pub record IsLawful {V : Type 0} (st : StateStore V) : Type 0 where
  pub load-save :
      (key : String) (value : V) (s : st.State)
      → (st.save key value s).1 ≡ none
      → (k : String)
      → st.load k (st.save key value s).0 ≡ (if key == k then some value else st.load k s)
  pub save_failed :
      (key : String) (value : V) (s : st.State) (x : Exn)
      → (st.save key value s).1 ≡ some x
      → (st.save key value s).0 ≡ s

module _ {V : Type 0} where
  -- `MemoryStateStore._data`, in insertion order. `deepcopy` is the identity on values.
  unfoldable pub put : String → V → List (String × V) → List (String × V)
  put key value [] = (key, value) ∷ []
  put key value ((k, v) ∷ entries) =
      let rest = put key value entries in if k == key then (k, value) ∷ entries else (k, v) ∷ rest

  unfoldable pub get : String → List (String × V) → Option V
  get key [] = none
  get key ((k, v) ∷ entries) = if k == key then some v else get key entries

  unfoldable pub exists : String → List (String × V) → Bool
  exists key [] = false
  exists key ((k, v) ∷ entries) = if k == key then true else exists key entries

  unfoldable pub without : String → List (String × V) → List (String × V)
  without key [] = []
  without key ((k, v) ∷ entries) = if k == key then entries else (k, v) ∷ without key entries

  unfoldable pub delete : String → List (String × V) → List (String × V) × Bool
  unfolding exists without
  delete key entries = if exists key entries then (without key entries, true) else (entries, false)

  unfoldable pub list_keys : List (String × V) → List String
  list_keys entries = map (λ e. e.0) entries

abbrev pub memory_store : (V : Type 0) → StateStore V
memory_store V = record {
  State = List (String × V);
  save = λ key value entries. (put key value entries, none);
  load = get;
}

pub get-put :
    {V : Type 0} (key k : String) (value : V) (entries : List (String × V))
    → get k (put key value entries) ≡ (if key == k then some value else get k entries)
unfolding get put
get-put key k value [] = refl
get-put key k value ((j, v) ∷ entries) =
    ground (arith, get-put key k value entries, eq_iff j key, eq_iff j k, eq_iff key k)

pub memory_store-IsLawful : (V : Type 0) → IsLawful (memory_store V)
memory_store-IsLawful V = record {
  load-save = λ key value s _ k. get-put key k value s;
  save_failed = λ key value s x h. cc;
}

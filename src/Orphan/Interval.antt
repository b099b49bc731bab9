-- ===== src/Orphan/Interval.antt =====
-- `maybe_patrol` of src/dual_tmux/orphan.py: at most one patrol of a tunnel per interval.
use dual_tmux.Prelude.{
  ℕ, ◌+◌, ◌<◌, ◌≡◌, refl, String, Bool, true, false, ◌&&◌, Option, none, some, List, [], ◌∷◌, arith,
}
use dual_tmux.Prelude.{if◌then◌else◌, ltb, ◌==◌, string_eq, beq_refl, eq_iff}

abbrev pub patrol_interval_seconds : ℕ
patrol_interval_seconds = 3600

-- `_patrol_interval`; `none` is a variable that is not set or no number.
unfoldable pub patrol_interval : Option ℕ → ℕ
patrol_interval none = patrol_interval_seconds
patrol_interval (some value) = if ltb 0 value then value else patrol_interval_seconds

-- The marks file; a file that cannot be read is empty.
abbrev pub Marks : Type 0
Marks = List (String × ℕ)

unfoldable pub mark : Marks → String → Option ℕ
mark [] name = none
mark ((n, at) ∷ marks) name = let rest = mark marks name in if n == name then some at else rest

unfoldable pub set_mark : Marks → String → ℕ → Marks
set_mark [] name epoch = (name, epoch) ∷ []
set_mark ((n, at) ∷ marks) name epoch =
    let rest = set_mark marks name epoch in if n == name then (n, epoch) ∷ marks else (n, at) ∷ rest

-- `epoch - marks[name] < interval`, on integers.
abbrev pub is_recent : Option ℕ → ℕ → ℕ → Bool
is_recent none epoch interval = false
is_recent (some at) epoch interval = ltb epoch (at + interval)

-- The marks that are left, and whether a patrol is made.
unfoldable pub maybe_patrol : Option ℕ → String → ℕ → Marks → Marks × Bool
unfolding mark set_mark
maybe_patrol variable name epoch marks =
    if is_recent (mark marks name) epoch (patrol_interval variable)
    then (marks, false)
    else (set_mark marks name epoch, true)

mark-set_mark_same :
    (marks : Marks) (name : String) (epoch : ℕ) → mark (set_mark marks name epoch) name ≡ some epoch
unfolding mark set_mark
mark-set_mark_same [] name epoch = rw (beq_refl name) refl
mark-set_mark_same ((n, at) ∷ marks) name epoch =
    ground (arith, mark-set_mark_same marks name epoch, beq_refl name)

mark-set_mark_other :
    (marks : Marks) (name other : String) (epoch : ℕ)
    → (other == name) ≡ false
    → mark (set_mark marks other epoch) name ≡ mark marks name
unfolding mark set_mark
mark-set_mark_other [] name other epoch h = rw h refl
mark-set_mark_other ((n, at) ∷ marks) name other epoch h =
    ground (arith, mark-set_mark_other marks name other epoch h, eq_iff n other, eq_iff n name)

-- Calls for any tunnels, one after the other; the patrols of `name` that they make are counted.
abbrev pub Call : Type 0
Call = String × ℕ

unfoldable pub patrols : Option ℕ → String → Marks → List Call → ℕ
patrols variable name marks [] = 0
patrols variable name marks ((other, epoch) ∷ calls) =
    let (left, made) = maybe_patrol variable other epoch marks in
    (if made && other == name then 1 else 0) + patrols variable name left calls

abbrev pub AllBefore : ℕ → List Call → Type 0
AllBefore bound [] = Unit
AllBefore bound ((name, epoch) ∷ calls) = (epoch < bound) × AllBefore bound calls

mark-maybe_patrol :
    (variable : Option ℕ) (name other : String) (epoch at : ℕ) (marks : Marks)
    → mark marks name ≡ some at
    → epoch < at + patrol_interval variable
    → (mark (maybe_patrol variable other epoch marks).0 name ≡ some at)
      × (((maybe_patrol variable other epoch marks).1 && other == name) ≡ false)
unfolding maybe_patrol
mark-maybe_patrol variable name other epoch at marks h early =
    ground (arith, mark-set_mark_other marks name other epoch, eq_iff other name)

patrols-marked :
    (variable : Option ℕ) (name : String) (at : ℕ) (marks : Marks) (calls : List Call)
    → mark marks name ≡ some at
    → AllBefore (at + patrol_interval variable) calls
    → patrols variable name marks calls ≡ 0
unfolding patrols
patrols-marked variable name at marks [] h all = refl
patrols-marked variable name at marks ((other, epoch) ∷ calls) h (early, all) =
    let (kept, unmade) = mark-maybe_patrol variable name other epoch at marks h early in
    let left = (maybe_patrol variable other epoch marks).0 in
    rw unmade (omega (arith, patrols-marked variable name at left calls kept all))

mark-made :
    (variable : Option ℕ) (name : String) (epoch : ℕ) (marks : Marks)
    → (maybe_patrol variable name epoch marks).1 ≡ true
    → mark (maybe_patrol variable name epoch marks).0 name ≡ some epoch
unfolding maybe_patrol
mark-made variable name epoch marks made = ground (arith, mark-set_mark_same marks name epoch)

-- After a patrol of a tunnel, no call for any tunnel makes another patrol of it before the interval
-- has passed.
pub patrols-maybe_patrol :
    (variable : Option ℕ) (name : String) (epoch : ℕ) (marks : Marks) (calls : List Call)
    → (maybe_patrol variable name epoch marks).1 ≡ true
    → AllBefore (epoch + patrol_interval variable) calls
    → patrols variable name marks ((name, epoch) ∷ calls) ≡ 1
unfolding patrols
patrols-maybe_patrol variable name epoch marks calls made all =
    let left = (maybe_patrol variable name epoch marks).0 in
    rw made (
      rw (beq_refl name) (
        omega (
          arith,
          patrols-marked variable name epoch left calls (mark-made variable name epoch marks made)
              all,
        )))

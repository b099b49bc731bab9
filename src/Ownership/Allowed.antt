-- ===== src/Ownership/Allowed.antt =====
-- When a tunnel may be resumed, in words and as a test.
use dual_tmux.Prelude.{
  String, ◌+◌, ◌<◌, ◌≡◌, ◌≢◌, refl, sym, ◌⊎◌, inl, inr, Bool, true, false, not, ◌&&◌, ◌||◌, arith,
  Bool-cases, eq_iff,
}
use dual_tmux.Prelude.{if◌then◌else◌, nonempty, nat_beq, ◌==◌, string_eq}
use dual_tmux.Occupancy.Resume.{LeaseState, foreign, free, expired, local, owned}
use dual_tmux.Ownership.Takeover.{
  WriterStatus, unknown, single, duplicate, Facts, is_known, trigger_supported, bullet_supported,
  is_foreign, is_stale,
}

abbrev pub is_single : WriterStatus → Bool
is_single single = true
is_single _ = false

-- No side has a second or an unknown writer or a conflicting snapshot.
abbrev clean : Facts → Bool
clean f =
    is_single f.trigger.writer
    && is_single f.bullet.writer
    && not f.trigger.conflicts
    && not f.bullet.conflicts

abbrev pub is_mine : LeaseState → Bool
is_mine local = true
is_mine owned = true
is_mine _ = false

-- What the facts allow, whether the pair is frozen or not.
abbrev pub may_take : Facts → Bool
may_take f =
    if is_foreign f.lease
    then (trigger_supported f && bullet_supported f) && (clean f || is_stale f)
    else clean f

-- A resume of a frozen pair is safe if both sides are clean; a tunnel that another Client holds also
-- needs sessions that can be carried over, and may then be dirty if its evidence is stale.
abbrev pub may_resume : Facts → Bool
may_resume f = (nonempty f.trigger.session_id && nonempty f.bullet.session_id) && may_take f

-- Each side has one known writer and no conflicting snapshot.
pub record IsClean (f : Facts) : Type 0 where
  pub trigger_writer : f.trigger.writer ≡ single
  pub bullet_writer : f.bullet.writer ≡ single
  pub trigger_snapshot : f.trigger.conflicts ≡ false
  pub bullet_snapshot : f.bullet.conflicts ≡ false

-- There is no evidence, or it is older than three minutes.
abbrev pub IsStale : Facts → Type 0
IsStale f = (f.sampled_at ≡ 0) ⊎ (f.sampled_at + 180 < f.now)

-- A tool whose sessions can be carried over; a side that names none runs opencode.
abbrev pub IsAgent : String → Type 0
IsAgent tool =
    (tool ≡ "") ⊎ (tool ≡ "opencode") ⊎ (tool ≡ "codex") ⊎ (tool ≡ "claude") ⊎ (tool ≡ "abc")

-- When a resume may take place: both sides are bound; a tunnel that no other Client holds is clean;
-- and one that another Client holds has tools that can be carried over, and is clean or known only
-- from stale evidence.
pub record MayResume (f : Facts) : Type 0 where
  pub trigger : f.trigger.session_id ≢ ""
  pub bullet : f.bullet.session_id ≢ ""
  pub here : (f.lease ≡ foreign) ⊎ IsClean f
  pub there :
      (f.lease ≢ foreign)
      ⊎ (IsAgent f.trigger.tool
          × (IsAgent f.bullet.tool ⊎ (f.server ≢ ""))
          × (IsClean f ⊎ IsStale f))

is_single-eq : (w : WriterStatus) → is_single w ≡ true → w ≡ single
is_single-eq single h = refl
is_single-eq unknown h = cc
is_single-eq duplicate h = cc

is_single_of : {w : WriterStatus} → w ≡ single → is_single w ≡ true
is_single_of h = rw h refl

lease-cases :
    (l : LeaseState)
    → ((l ≡ foreign) × (is_foreign l ≡ true)) ⊎ ((l ≢ foreign) × (is_foreign l ≡ false))
lease-cases foreign = inl (refl, refl)
lease-cases free = inr (λ e. cc, refl)
lease-cases expired = inr (λ e. cc, refl)
lease-cases local = inr (λ e. cc, refl)
lease-cases owned = inr (λ e. cc, refl)

-- The tool is known exactly if it is one of the names.
IsAgent-is_known : (tool : String) → is_known tool ≡ true → IsAgent tool
unfolding is_known
IsAgent-is_known tool h = elim (Bool-cases (nonempty tool)) [
  | inl given ↦ elim (Bool-cases ("opencode" == tool)) [
    | inl e ↦ inr (inl (sym ((eq_iff "opencode" tool).0 e)))
    | inr a ↦ elim (Bool-cases ("codex" == tool)) [
      | inl e ↦ inr (inr (inl (sym ((eq_iff "codex" tool).0 e))))
      | inr b ↦ elim (Bool-cases ("claude" == tool)) [
        | inl e ↦ inr (inr (inr (inl (sym ((eq_iff "claude" tool).0 e)))))
        | inr c ↦ inr (inr (inr (inr (sym ((eq_iff "abc" tool).0 (ground arith))))))
      ]
    ]
  ]
  | inr empty ↦ inl ((eq_iff tool "").0 (ground arith))
]

is_known-IsAgent : (tool : String) → IsAgent tool → is_known tool ≡ true
unfolding is_known
is_known-IsAgent tool (inl h) = rw h refl
is_known-IsAgent tool (inr (inl h)) = rw h refl
is_known-IsAgent tool (inr (inr (inl h))) = rw h refl
is_known-IsAgent tool (inr (inr (inr (inl h)))) = rw h refl
is_known-IsAgent tool (inr (inr (inr (inr h)))) = rw h refl

nonempty-ne : (s : String) → nonempty s ≡ true → s ≢ ""
nonempty-ne s h e = ground (arith, eq_iff s "")

ne-nonempty : (s : String) → s ≢ "" → nonempty s ≡ true
ne-nonempty s h = ground (arith, eq_iff s "")

module _ (f : Facts) where
  clean-IsClean : clean f ≡ true → IsClean f
  clean-IsClean h = record {
    trigger_writer = is_single-eq f.trigger.writer (ground arith);
    bullet_writer = is_single-eq f.bullet.writer (ground arith);
    trigger_snapshot = ground arith;
    bullet_snapshot = ground arith;
  }

  IsClean-clean : IsClean f → clean f ≡ true
  IsClean-clean h =
      rw
        (
          is_single_of h.trigger_writer,
          is_single_of h.bullet_writer,
          h.trigger_snapshot,
          h.bullet_snapshot,
        )
        refl

  is_stale-IsStale : is_stale f ≡ true → IsStale f
  is_stale-IsStale h = elim (Bool-cases (nat_beq f.sampled_at 0)) [
    | inl e ↦ inl (ground arith)
    | inr e ↦ inr (ground arith)
  ]

  IsStale-is_stale : IsStale f → is_stale f ≡ true
  IsStale-is_stale (inl h) = ground arith
  IsStale-is_stale (inr h) = ground arith

  clean_or_stale : (clean f || is_stale f) ≡ true → IsClean f ⊎ IsStale f
  clean_or_stale h = elim (Bool-cases (clean f)) [
    | inl e ↦ inl (clean-IsClean e)
    | inr e ↦ inr (is_stale-IsStale (ground arith))
  ]

  stale_or_clean : IsClean f ⊎ IsStale f → (clean f || is_stale f) ≡ true
  stale_or_clean (inl h) = rw (IsClean-clean h) refl
  stale_or_clean (inr h) = let a = IsStale-is_stale h in ground arith

  bullet-IsAgent : bullet_supported f ≡ true → IsAgent f.bullet.tool ⊎ (f.server ≢ "")
  unfolding bullet_supported
  bullet-IsAgent h = elim (Bool-cases (is_known f.bullet.tool)) [
    | inl e ↦ inl (IsAgent-is_known f.bullet.tool e)
    | inr e ↦ inr (nonempty-ne f.server (ground arith))
  ]

  IsAgent-bullet : IsAgent f.bullet.tool ⊎ (f.server ≢ "") → bullet_supported f ≡ true
  unfolding bullet_supported
  IsAgent-bullet (inl h) = rw (is_known-IsAgent f.bullet.tool h) refl
  IsAgent-bullet (inr h) = let a = ne-nonempty f.server h in ground arith

  pub may_resume-MayResume : may_resume f ≡ true → MayResume f
  unfolding trigger_supported
  may_resume-MayResume h =
      let trigger = nonempty-ne f.trigger.session_id (ground arith) in
      let bullet = nonempty-ne f.bullet.session_id (ground arith) in
      let taken : may_take f ≡ true = ground arith in
      elim (lease-cases f.lease) [
        | inl (l, e) ↦ record {
          trigger = trigger;
          bullet = bullet;
          here = inl l;
          there = inr (
            IsAgent-is_known f.trigger.tool (ground arith),
            bullet-IsAgent (ground arith),
            clean_or_stale (ground arith),
          );
        }
        | inr (l, e) ↦ record {
          trigger = trigger;
          bullet = bullet;
          here = inr (clean-IsClean (ground arith));
          there = inl l;
        }
      ]

  there-may_take :
      is_foreign f.lease ≡ true
      → IsAgent f.trigger.tool
      → IsAgent f.bullet.tool ⊎ (f.server ≢ "")
      → IsClean f ⊎ IsStale f
      → may_take f ≡ true
  unfolding trigger_supported
  there-may_take e a b c =
      rw (e, is_known-IsAgent f.trigger.tool a, IsAgent-bullet b, stale_or_clean c) refl

  MayResume-may_take : MayResume f → may_take f ≡ true
  MayResume-may_take m = elim (lease-cases f.lease) [
    | inl (l, e) ↦ elim m.there [
      | inl other ↦ absurd (other l)
      | inr (a, b, c) ↦ there-may_take e a b c
    ]
    | inr (l, e) ↦ elim m.here [ inl held ↦ absurd (l held) | inr c ↦ rw (e, IsClean-clean c) refl ]
  ]

  pub MayResume-may_resume : MayResume f → may_resume f ≡ true
  MayResume-may_resume m =
      rw
        (
          ne-nonempty f.trigger.session_id m.trigger,
          ne-nonempty f.bullet.session_id m.bullet,
          MayResume-may_take m,
        )
        refl

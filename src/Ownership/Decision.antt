-- ===== src/Ownership/Decision.antt =====
-- When a resume is planned, and with which steps.
use dual_tmux.Prelude.{◌≡◌, ◌∙◌, ◌⊎◌, inl, inr, true, false, ◌&&◌, [], ◌∷◌, ◌++◌, arith, Bool-cases}
use dual_tmux.Prelude.{if◌then◌else◌, string_eq}
use dual_tmux.Ownership.Takeover.{
  Facts, stop, claim, resume, takeover, snapshot, claim_step, prepare, restore, verify, plan_resume,
}
use dual_tmux.Ownership.Allowed.{
  is_single, is_mine, may_take, may_resume, MayResume, may_resume-MayResume, MayResume-may_resume,
}

takeover-action :
    (f : Facts)
    → ((takeover f).safe ≡ (is_single f.trigger.writer && is_single f.bullet.writer))
      × ((takeover f).action ≡ (
          if is_single f.trigger.writer && is_single f.bullet.writer
          then if is_mine f.lease then resume else claim
          else stop))
unfolding takeover
takeover-action f = ground arith

snapshot-action :
    (f : Facts)
    → ((snapshot f).safe ≡ may_take f)
      × ((snapshot f).action
          ≡ (if may_take f then if is_mine f.lease then resume else claim else stop))
unfolding snapshot
snapshot-action f = ground (arith, takeover-action f)

plan_resume-may_resume :
    (f : Facts)
    → ((plan_resume f).safe ≡ may_resume f)
      × ((plan_resume f).steps ≡ (
          if may_resume f
          then (if is_mine f.lease then [] else claim_step ∷ [])
            ++ (prepare ∷ restore ∷ verify ∷ [])
          else []))
unfolding plan_resume
plan_resume-may_resume f = ground (arith, snapshot-action f)

-- A resume may take place, and its plan is safe, claims the occupancy first unless this Client
-- holds it already, and then prepares, restores and verifies; or it may not, and its plan is not
-- safe and has no step. It may take place if both sides are bound, and either no other Client holds
-- the tunnel and both sides have one known writer and no conflicting snapshot; or another Client
-- holds it, the tools can be carried over, and both sides are so or the evidence is missing or
-- older than 180 seconds.
pub plan_resume-MayResume :
    (f : Facts)
    → (MayResume f
        × ((plan_resume f).safe ≡ true)
        × ((plan_resume f).steps ≡ (
            (if is_mine f.lease then [] else claim_step ∷ [])
            ++ (prepare ∷ restore ∷ verify ∷ []))))
      ⊎ ((¬ MayResume f) × ((plan_resume f).safe ≡ false) × ((plan_resume f).steps ≡ []))
plan_resume-MayResume f =
    let (safe, steps) = plan_resume-may_resume f in
    elim (Bool-cases (may_resume f)) [
      | inl e ↦ inl (may_resume-MayResume f e, safe ∙ e, rw e at steps)
      | inr e ↦ inr (λ m. cc (MayResume-may_resume f m), safe ∙ e, rw e at steps)
    ]

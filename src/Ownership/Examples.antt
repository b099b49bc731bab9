-- ===== src/Ownership/Examples.antt =====
-- A tunnel that another Client holds, with and without fresh evidence.
use dual_tmux.Prelude.{◌≡◌, refl, ◌∷◌, [], ◌++◌, ◌⊎◌, true, false}
use dual_tmux.Prelude.{if◌then◌else◌}
use dual_tmux.Occupancy.Resume.{LeaseState}
use dual_tmux.Ownership.Takeover.{
  WriterStatus, Side, Facts, trigger_supported, bullet_supported, is_known, claim_step, prepare,
  restore, verify, plan_resume,
}
use dual_tmux.Ownership.Allowed.{MayResume, is_mine}
use dual_tmux.Ownership.Decision.{plan_resume-MayResume}

abbrev side : WriterStatus → Side
side writer = record { session_id = "ses_1"; tool = "codex"; writer = writer; conflicts = false }

abbrev facts : Facts
facts = record {
  trigger = side WriterStatus.single;
  bullet = side WriterStatus.single;
  server = "server";
  lease = LeaseState.foreign;
  sampled_at = 100;
  now = 200;
}

plan_resume-MayResume_example :
    (MayResume facts
      × ((plan_resume facts).safe ≡ true)
      × ((plan_resume facts).steps ≡ (
          (if is_mine facts.lease then [] else claim_step ∷ [])
          ++ (prepare ∷ restore ∷ verify ∷ []))))
    ⊎ ((¬ MayResume facts) × ((plan_resume facts).safe ≡ false) × ((plan_resume facts).steps ≡ []))
plan_resume-MayResume_example = plan_resume-MayResume facts

-- Unknown writers stop a plan on evidence of 180 seconds, and no more on older evidence.
abbrev unknown_facts : Facts
unknown_facts = record facts {
  trigger = side WriterStatus.unknown;
  bullet = side WriterStatus.unknown;
  now = 280;
}

stops_fresh : (plan_resume unknown_facts).safe ≡ false
unfolding plan_resume trigger_supported is_known bullet_supported
stops_fresh = refl

resumes_stale : (plan_resume (record unknown_facts { now = 281 })).safe ≡ true
unfolding plan_resume trigger_supported is_known bullet_supported
resumes_stale = refl

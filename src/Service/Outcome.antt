-- ===== src/Service/Outcome.antt =====
-- How `ControlService.resume` ends once its attempt has started.
use mathlib.Core.Path.{subst}
use dual_tmux.Prelude.{
  String, ◌≡◌, refl, sym, ◌∙◌, ap, inl, inr, Bool, true, false, Option, Bool-cases,
}
use dual_tmux.Prelude.{if◌then◌else◌}
use dual_tmux.Prelude.Effect.{return, reraised, and_then-cases, handled-cases, tried-cases}
use dual_tmux.Prelude.Result.{Exn, Result, ok, err, Result-cases}
use dual_tmux.Fsm.Store.{StateStore, IsLawful}
use dual_tmux.Occupancy.Resume.{Token, acquire_for_resume}
use dual_tmux.Ownership.Takeover.{ResumePlan}
use dual_tmux.Resume.State.{preflighting, restoring, completed, rejected, failed}
use dual_tmux.Resume.Accepted.{IsSteady}
use dual_tmux.Resume.Machine.{Snapshot}
use dual_tmux.Service.Errors.{
  note, noted-ok, translate_error, ok_not_err, err_not_ok, translated-ok_inv, translated-err_inv,
}
use dual_tmux.Service.Attempt.{Tunnel, preflight, preflight_failed, acquired, not_acquired}
use dual_tmux.Service.Workers.{World, Workers}
use dual_tmux.Service.Sends.{IsHeld, IsQuiet}
use dual_tmux.Service.Reports.{
  preflight_failed-Reached, preflight-unsafe, preflight-safe, acquired-Reached,
  not_acquired-Reached,
}
use dual_tmux.Service.Endings.{IsHeld-rest, Block, finished, restore_block-Block, give_up-Failed}
use dual_tmux.Service.Resume.{
  Resuming, Progress, begun, restore_block, give_up, restore_claimed, prepare, acquire, claim,
  conclude, settle, proceed,
}

-- A plan that is not safe claims nothing.
pub acquire-unsafe :
    {J R : Type 0} (k : Workers J R) (t : Tunnel) (plan : ResumePlan) (w : World R)
    → plan.safe ≡ false
    → (e : Exn) × (acquire k t plan w ≡ (w, err e))
unfolding acquire acquire_for_resume
acquire-unsafe k t plan w s = elim (Result-cases (k.load_config w)) [
  | inl (cfg, e) ↦ rw (e, acquire) (rw (s, acquire_for_resume) (_, refl))
  | inr (x, e) ↦ rw (e, acquire) (x, refl)
]

module _ {J R : Type 0} (k : Workers J R) (st : StateStore Snapshot) where
  abbrev Ends : Resuming k st × Result Tunnel → Type 0
  Ends (c, ok t) = IsHeld c completed
  Ends (c, err e) = IsHeld c failed

  -- What `resume` has done when it returns or raises, from the point where the attempt has started.
  pub data Ending (original : Tunnel) (c : Resuming k st)
      : Resuming k st × Result Tunnel → Type 0 where
    unprepared :
        (d : Resuming k st) (e : Exn)
        → (prepare k original c.world).1 ≡ err e
        → d.world ≡ (prepare k original c.world).0
        → IsHeld d rejected
        → Ending original c (d, err e)
    unsafe :
        (d : Resuming k st) (e : Exn) (t : Tunnel) (plan : ResumePlan)
        → (prepare k original c.world).1 ≡ ok (t, plan)
        → plan.safe ≡ false
        → d.world ≡ (prepare k original c.world).0
        → IsHeld d rejected
        → Ending original c (d, err e)
    unclaimed :
        (d : Resuming k st) (x e : Exn) (t : Tunnel) (plan : ResumePlan)
        → (prepare k original c.world).1 ≡ ok (t, plan)
        → plan.safe ≡ true
        → (acquire k t plan (prepare k original c.world).0).1 ≡ err x
        → translate_error k.describe x ≡ e
        → d.world ≡ (acquire k t plan (prepare k original c.world).0).0
        → IsHeld d failed
        → Ending original c (d, err e)
    given_up :
        (d : Resuming k st) (e : Exn) (t : Tunnel) (plan : ResumePlan) (token : Token)
        → (prepare k original c.world).1 ≡ ok (t, plan)
        → plan.safe ≡ true
        → (acquire k t plan (prepare k original c.world).0).1 ≡ ok token
        → IsHeld d failed
        → Ending original c (d, err e)
    done :
        (d : Resuming k st) (outcome_data t : Tunnel) (plan : ResumePlan) (token : Token)
        → (prepare k original c.world).1 ≡ ok (t, plan)
        → plan.safe ≡ true
        → (acquire k t plan (prepare k original c.world).0).1 ≡ ok token
        → IsHeld d completed
        → Ending original c (d, ok outcome_data)
    unpushed :
        (d : Resuming k st) (e : Exn) (t : Tunnel) (plan : ResumePlan) (token : Token)
        → (w : World R) → (prepare k original c.world).1 ≡ ok (t, plan)
        → plan.safe ≡ true
        → (acquire k t plan (prepare k original c.world).0).1 ≡ ok token
        → (k.push_best_effort w).1 ≡ err e
        → IsHeld d completed
        → Ending original c (d, err e)

module _ {J R : Type 0} (k : Workers J R) (st : StateStore Snapshot) (lawful : IsLawful st)
    (steady : IsSteady st) (calm : IsQuiet k.emit) where
  with_result : {S A : Type 0} (q : S × Result A) {r : Result A} → q.1 ≡ r → q ≡ (q.0, r)
  with_result q e = ap (λ x. (q.0, x)) e

  finished-Held :
      (q : (Resuming k st × Progress) × Result Tunnel) (t : Tunnel)
      → Block k st lawful steady calm q
      → q.1 ≡ ok t
      → IsHeld q.0.0 completed
  finished-Held q t (finished c p u h) e = h
  finished-Held q t _ e = cc

  restore_claimed-Ends :
      (name : Option String) (force : Bool) (token : Token) (c : Resuming k st)
      → IsHeld c restoring
      → Ends k st (restore_claimed k st name force token c)
  unfolding restore_claimed reraised
  restore_claimed-Ends name force token c h =
      let q = restore_block k st name force token (c, begun) in
      let b = restore_block-Block k st lawful steady calm name force token c h in
      handled-cases (λ p. Ends k st (p.0.0, p.1)) q (give_up k st) (λ t e. finished-Held q t b e)
        (λ e f.
          let blk = subst (Block k st lawful steady calm) (with_result q f) b in
          let (d, held, same) = give_up-Failed k st lawful steady calm e q.0.0 q.0.1 blk in
          rw same held)

  Ends-ok :
      (q : Resuming k st × Result Tunnel) (t : Tunnel)
      → Ends k st q
      → q.1 ≡ ok t
      → IsHeld q.0 completed
  Ends-ok (c, ok u) t h e = h
  Ends-ok (c, err x) t h e = cc

  Ends-err :
      (q : Resuming k st × Result Tunnel) (e : Exn) → Ends k st q → q.1 ≡ err e → IsHeld q.0 failed
  Ends-err (c, ok u) e h f = cc
  Ends-err (c, err x) e h f = h

  module _ (name : Option String) (force : Bool) (original : Tunnel) (c : Resuming k st)
      (h : IsHeld c preflighting) where
    abbrev ready : World R
    ready = (prepare k original c.world).0

    abbrev prepared : Resuming k st
    prepared = record c { world = ready }

    unsafe-Ending :
        (t : Tunnel) (plan : ResumePlan)
        → (prepare k original c.world).1 ≡ ok (t, plan)
        → plan.safe ≡ false
        → Ending k st original c (settle k st name force t plan prepared)
    unfolding settle claim
    unsafe-Ending t plan e s =
        let P = Ending k st original c in
        let g = IsHeld-rest c c.journal ready h in
        let q = preflight st k.emit k.clock k.describe k.digest t plan prepared in
        let r =
          preflight-unsafe st steady k.emit k.clock k.describe k.digest calm prepared t plan s g in
        let (x, stopped) = acquire-unsafe k t plan q.0.world s in
        let p = acquire k t plan q.0.world in
        and_then-cases P _ _
          (λ u f.
            tried-cases P _ _ _
              (λ token i. absurd (err_not_ok k.describe p (ap (λ z. z.1) stopped) i))
              (λ y i.
                let d = record q.0 { world = p.0 } in
                (
                  d,
                  rw s refl,
                  unsafe d y t plan e s (ap (λ z. z.0) stopped ∙ r.world)
                      (IsHeld-rest q.0 q.0.journal p.0 r.held),
                )))
          (λ y f. absurd (ok_not_err k.describe q r.answer f))

    -- The end of a claimed resume.
    claimed-Ending :
        (t : Tunnel) (plan : ResumePlan) (token : Token) (d : Resuming k st)
        → (prepare k original c.world).1 ≡ ok (t, plan)
        → plan.safe ≡ true
        → (acquire k t plan ready).1 ≡ ok token
        → IsHeld d restoring
        → Ending k st original c (conclude k st name force token d)
    unfolding conclude
    claimed-Ending t plan token d e s a held =
        let P = Ending k st original c in
        let q = restore_claimed k st name force token d in
        let ends = restore_claimed-Ends name force token d held in
        and_then-cases P _ _
          (λ outcome_data f.
            let last = k.push_best_effort q.0.world in
            let over = IsHeld-rest q.0 q.0.journal last.0 (Ends-ok q outcome_data ends f) in
            and_then-cases P _ _ (λ u g. done _ outcome_data t plan token e s a over)
              (λ x g. unpushed _ x t plan token q.0.world e s a g over))
          (λ x f. given_up _ x t plan token e s a (Ends-err q x ends f))

    safe-Ending :
        (t : Tunnel) (plan : ResumePlan)
        → (prepare k original c.world).1 ≡ ok (t, plan)
        → plan.safe ≡ true
        → Ending k st original c (settle k st name force t plan prepared)
    unfolding settle claim
    safe-Ending t plan e s =
        let P = Ending k st original c in
        let g = IsHeld-rest c c.journal ready h in
        let q = preflight st k.emit k.clock k.describe k.digest t plan prepared in
        let r =
          preflight-safe st steady k.emit k.clock k.describe k.digest calm prepared t plan s g in
        let p = acquire k t plan q.0.world in
        let d = record q.0 { world = p.0 } in
        let held = IsHeld-rest q.0 q.0.journal p.0 r.held in
        let same = ap (acquire k t plan) (sym r.world) in
        and_then-cases P _ _
          (λ u f.
            tried-cases P _ _ _
              (λ token i.
                let b = acquired st k.emit k.clock k.describe k.digest token d in
                let v =
                  acquired-Reached st steady k.emit k.clock k.describe k.digest calm d token held in
                let got = ap (λ z. z.1) same ∙ translated-ok_inv k.describe p i in
                and_then-cases P _ _ (λ w j. claimed-Ending t plan token b.0 e s got v.held)
                  (λ y j. absurd (ok_not_err k.describe b v.answer j)))
              (λ y i.
                let b = not_acquired st k.emit k.clock k.describe k.digest y d in
                let v =
                  not_acquired-Reached st steady k.emit k.clock k.describe k.digest calm d y held in
                let report = note (not_acquired st k.emit k.clock k.describe k.digest y) in
                let (x, raised, shown) = translated-err_inv k.describe p i in
                (
                  b.0,
                  ap (λ x. (if x then report else return tt) d) s ∙ noted-ok b v.answer,
                  unclaimed b.0 x y t plan e s (ap (λ z. z.1) same ∙ raised) shown
                      (v.world ∙ ap (λ z. z.0) (sym same)) v.held,
                )))
          (λ y f. absurd (ok_not_err k.describe q r.answer f))

    -- A `resume` whose attempt has started, over a lawful store that never raises and an event log
    -- that raises nothing but `OSError`, ends in one of six ways. If the inputs cannot be prepared,
    -- or the plan is not safe, the attempt is rejected and nothing but the preparation has touched
    -- the world; if the claim raises, the attempt has failed and nothing more than the claim has;
    -- if what follows a claim raises, the attempt has failed; otherwise it is completed, and
    -- `resume` returns unless the last push raises.
    pub proceed-Ending : Ending k st original c (proceed k st name force original c)
    unfolding proceed
    proceed-Ending =
        let P = Ending k st original c in
        let p = prepare k original c.world in
        let g = IsHeld-rest c c.journal ready h in
        tried-cases P _ _ _
          (λ a e. elim (Bool-cases a.1.safe) [
            | inl s ↦ safe-Ending a.0 a.1 e s
            | inr s ↦ unsafe-Ending a.0 a.1 e s
          ])
          (λ x e.
            let b = preflight_failed st k.emit k.clock k.describe k.digest x prepared in
            let r =
              preflight_failed-Reached st steady k.emit k.clock k.describe k.digest calm prepared x
                g in
            (b.0, noted-ok b r.answer, unprepared b.0 x e r.world r.held))

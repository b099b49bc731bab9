-- ===== src/Service/Endings.antt =====
-- How the block of `ControlService.resume` after the claim ends.
use dual_tmux.Prelude.{String, ◌≡◌, refl, ◌∙◌, ap, inl, inr, Bool, true, false, Option}
use dual_tmux.Prelude.Effect.{and_then, inside, and_then-cases, and_then-ok, tried-cases}
use dual_tmux.Prelude.Result.{Exn, Result, ok, err}
use dual_tmux.Fsm.Store.{StateStore, IsLawful}
use dual_tmux.Occupancy.Resume.{Token, Verified}
use dual_tmux.Resume.State.{ResumeState, restoring, verifying, completed, rolling_back, failed}
use dual_tmux.Resume.Accepted.{IsSteady}
use dual_tmux.Resume.Machine.{Snapshot}
use dual_tmux.Service.Errors.{note, noted, noted-ok, translated, ok_not_err, err_not_ok}
use dual_tmux.Service.Attempt.{
  Tunnel, Running, restored, not_restored, verified, not_verified, keep_occupancy_after_failure,
}
use dual_tmux.Service.Workers.{Workers}
use dual_tmux.Service.Sends.{IsHeld, IsQuiet}
use dual_tmux.Service.Reports.{
  restored-Reached, not_restored-Reached, not_verified-Reached, keep_occupancy-Reached,
  verified-cases,
}
use dual_tmux.Service.Resume.{
  Resuming, Progress, begun, recorded, refuse, restore_block, give_up, verify,
}

abbrev after_restore : Progress
after_restore = record { restore_completed = true; rollback_started = false }

abbrev rolling : Progress
rolling = record { restore_completed = true; rollback_started = true }

-- Only the attempt counts.
pub IsHeld-rest :
    {K J W : Type 0} (c : Running K J W) {s : ResumeState} (j : J) (w : W)
    → IsHeld c s
    → IsHeld (record c { journal = j; world = w }) s
IsHeld-rest c j w h = record {
  sound = h.sound;
  state = h.state;
  name = h.name;
  client = h.client;
  installation = h.installation;
  explained = h.explained;
}

module _ {J R : Type 0} (k : Workers J R) (st : StateStore Snapshot) (lawful : IsLawful st)
    (steady : IsSteady st) (calm : IsQuiet k.emit) where
  -- Where the block can be when it returns or raises.
  pub data Block : (Resuming k st × Progress) × Result Tunnel → Type 0 where
    finished :
        (c : Resuming k st) (p : Progress) (t : Tunnel) → IsHeld c completed → Block ((c, p), ok t)
    at_restore : (c : Resuming k st) (e : Exn) → IsHeld c restoring → Block ((c, begun), err e)
    at_verify :
        (c : Resuming k st) (e : Exn) → IsHeld c verifying → Block ((c, after_restore), err e)
    rolled : (c : Resuming k st) (e : Exn) → IsHeld c rolling_back → Block ((c, rolling), err e)

  verified-Block :
      (t : Tunnel) (v : Verified) (c : Resuming k st)
      → IsHeld c verifying
      → Block (
          and_then
            (inside
              (λ d (p : Resuming k st × Progress). (d, p.1))
              (c, after_restore)
              (translated k.describe (verified st k.emit k.clock k.describe k.digest v c)))
            (λ _ p. (p, ok t)))
  verified-Block t v c h =
      let q = verified st k.emit k.clock k.describe k.digest v c in
      elim (verified-cases st steady k.emit k.clock k.describe k.digest calm c lawful v h) [
        | inl r ↦
            and_then-cases Block _ _ (λ s f. finished _ _ t r.held)
              (λ x f. absurd (ok_not_err k.describe q r.answer f))
        | inr r ↦
            and_then-cases Block _ _ (λ s f. absurd (err_not_ok k.describe q r.answer f))
              (λ x f. at_verify _ x r.held)
      ]

  recorded-Block :
      (t : Tunnel) (v : Verified) (c : Resuming k st)
      → IsHeld c verifying
      → Block (recorded k st t v (c, after_restore))
  unfolding recorded
  recorded-Block t v c h =
      and_then-cases Block _ _
        (λ u e.
          let d = record c { world = (k.save _ c.world).0 } in
          let held = IsHeld-rest c c.journal d.world h in
          and_then-cases Block _ _ (λ u f. verified-Block _ v _ (IsHeld-rest d _ d.world held))
            (λ x f. at_verify _ x (IsHeld-rest d _ d.world held)))
        (λ x e. at_verify _ x (IsHeld-rest c c.journal _ h))

  -- The handler of a refused verification.
  refused-Block :
      (c : Resuming k st) (x : Exn)
      → IsHeld c verifying
      → (q : Resuming k st × Progress) × (refuse k st x (c, after_restore) ≡ (q, ok tt))
        × Block (q, err x)
  refused-Block c x h =
      let r = not_verified-Reached st steady k.emit k.clock k.describe k.digest calm c x h in
      let q = not_verified st k.emit k.clock k.describe k.digest x c in
      ((q.0, rolling), and_then-ok _ _ (ap (λ p. p.1) (noted-ok q r.answer)), rolled _ x r.held)

  pub restore_block-Block :
      (name : Option String) (force : Bool) (token : Token) (c : Resuming k st)
      → IsHeld c restoring
      → Block (restore_block k st name force token (c, begun))
  unfolding restore_block
  restore_block-Block name force token c h =
      and_then-cases Block _ _
        (λ t e.
          let w = (k.apply_resume name force token.generation c.world).0 in
          let d = record c { world = w } in
          let q = restored st k.emit k.clock k.describe k.digest d in
          let r =
            restored-Reached st steady k.emit k.clock k.describe k.digest calm d
              (IsHeld-rest c c.journal w h) in
          let held = IsHeld-rest q.0 q.0.journal (verify k token q.0.world).0 r.held in
          and_then-cases Block _ _
            (λ s f.
              and_then-cases Block _ _
                (λ u g.
                  tried-cases Block _ _ _ (λ v i. recorded-Block t v _ held)
                    (λ x i. refused-Block _ x held))
                (λ x g. cc))
            (λ x f. absurd (ok_not_err k.describe q r.answer f)))
        (λ x e. at_restore _ x (IsHeld-rest c c.journal _ h))

  -- Keeping the occupancy after a failure was reported.
  kept-Failed :
      (q : Resuming k st × Result (Unit {0}))
      → q.1 ≡ ok tt
      → IsHeld q.0 rolling_back
      → (d : Resuming k st) × IsHeld d failed
        × (and_then q
              (λ _. note (keep_occupancy_after_failure st k.emit k.clock k.describe k.digest))
            ≡ (d, ok tt))
  kept-Failed q answer h =
      let r = keep_occupancy-Reached st steady k.emit k.clock k.describe k.digest calm q.0 h in
      let u = keep_occupancy_after_failure st k.emit k.clock k.describe k.digest q.0 in
      (u.0, r.held, and_then-ok q _ answer ∙ noted-ok u r.answer)

  -- What a block that raised leaves: an attempt in `failed`.
  pub give_up-Failed :
      (e : Exn) (c : Resuming k st) (p : Progress)
      → Block ((c, p), err e)
      → (d : Resuming k st) × IsHeld d failed × (give_up k st e (c, p) ≡ ((d, p), ok tt))
  unfolding give_up
  give_up-Failed e c p (at_restore x y h) =
      let r = not_restored-Reached st steady k.emit k.clock k.describe k.digest calm c e h in
      let u = not_restored st k.emit k.clock k.describe k.digest e c in
      let (d, held, same) = kept-Failed (noted u) (ap (λ z. z.1) (noted-ok u r.answer)) r.held in
      (d, held, ap (inside (λ a (b : Resuming k st × Progress). (a, b.1)) (c, p)) same)
  give_up-Failed e c p (at_verify x y h) =
      let r = not_verified-Reached st steady k.emit k.clock k.describe k.digest calm c e h in
      let u = not_verified st k.emit k.clock k.describe k.digest e c in
      let (d, held, same) = kept-Failed (noted u) (ap (λ z. z.1) (noted-ok u r.answer)) r.held in
      (d, held, ap (inside (λ a (b : Resuming k st × Progress). (a, b.1)) (c, p)) same)
  give_up-Failed e c p (rolled x y h) =
      let (d, held, same) = kept-Failed (c, ok tt) refl h in
      (d, held, ap (inside (λ a (b : Resuming k st × Progress). (a, b.1)) (c, p)) same)

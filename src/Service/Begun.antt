-- ===== src/Service/Begun.antt =====
-- What `ResumeAttempt.start` hands over, and what a `resume` that returns has established.
use mathlib.Core.Path.{subst}
use dual_tmux.Prelude.{String, ◌≡◌, refl, sym, ◌∙◌, ap, Bool, true, Option, none, some}
use dual_tmux.Prelude.Result.{Exn, Result, ok, err}
use dual_tmux.Fsm.Machine.{passes}
use dual_tmux.Fsm.Store.{StateStore, IsLawful}
use dual_tmux.Occupancy.Client.{AppConfig}
use dual_tmux.Occupancy.Resume.{Token}
use dual_tmux.Ownership.Takeover.{ResumePlan}
use dual_tmux.Resume.State.{ResumeState, created, preflighting, completed, processing_started}
use dual_tmux.Resume.Node.{ResumeAttemptNode, model_validate}
use dual_tmux.Resume.Event.{Payload, no_fields, validate_payload}
use dual_tmux.Resume.Chart.{apply_changes}
use dual_tmux.Resume.Accepted.{IsSteady}
use dual_tmux.Resume.Legal.{legal_preflighting}
use dual_tmux.Resume.Outcomes.{IsProved, completed-facts, proved}
use dual_tmux.Resume.Sound.{IsSound, model_validate-eq}
use dual_tmux.Resume.Machine.{Snapshot, Core, ResumeMachine, init, create, walk_log}
use dual_tmux.Service.Attempt.{Tunnel, Running, attempt_of, send_event}
use dual_tmux.Service.Workers.{Workers}
use dual_tmux.Service.Resume.{Resuming, prepare, acquire, proceed}
use dual_tmux.Service.Sends.{IsHeld, Reached, IsQuiet, send_event-Reached}
use dual_tmux.Service.Outcome.{Ending, done, proceed-Ending}
use dual_tmux.Service.Start.{started, OnHost, opened, pruned, stored, validated, configured, start}

-- A machine of a legal new node, after the first event.
module _ {J R : Type 0} (k : Workers J R) (st : StateStore Snapshot) (steady : IsSteady st)
    (calm : IsQuiet k.emit) where
  pub first-Reached :
      (n : ResumeAttemptNode) (c : Resuming k st)
      → IsHeld c created
      → Reached c preflighting
          (send_event st k.emit k.clock k.describe k.digest processing_started no_fields c)
  unfolding validate_payload apply_changes passes
  first-Reached n c h =
      send_event-Reached st k.emit k.clock k.describe k.digest calm steady processing_started
        no_fields c Payload.processing_started created preflighting h refl refl refl
        (legal_preflighting c.attempt.machine.core.context.node (k.clock c.world) h.sound.legal
          (h.sound.state ∙ h.state))
        (λ r. cc)

  module _ (prune : st.State → st.State × Option Exn) (h : OnHost k st prune) where
    abbrev Handed : Resuming k st → Type 0
    Handed c = IsHeld c preflighting × (c.world ≡ h.world)

    opened-Handed :
        (c d : Resuming k st) (q : Resuming k st × Result ResumeState)
        → Reached c preflighting q
        → c.world ≡ h.world
        → opened k st prune q ≡ started d
        → Handed d
    opened-Handed c d (e, ok s) r w same =
        let eq : e ≡ d = cc in subst Handed eq (r.held, r.world ∙ w)
    opened-Handed c d (e, err x) r w same = cc

    pruned-Handed :
        (n : ResumeAttemptNode) (m : ResumeMachine st.State) (q : st.State × Option Exn)
        (d : Resuming k st)
        → model_validate n ≡ ok n
        → n.state ≡ created
        → m.core ≡ (init n h.store).core
        → pruned k st prune n h m q ≡ started d
        → Handed d
    unfolding init walk_log
    pruned-Handed n m (store, some e) d legal fresh built same = cc
    pruned-Handed n m (store, none) d legal fresh built same =
        let c : Resuming k st = record {
          attempt = attempt_of n (record m { store = store });
          journal = h.journal;
          world = h.world;
        } in
        let held : IsHeld c created = record {
          sound =
              subst IsSound (sym built)
                (record { graph = refl; state = refl; legal = legal; path = ap ok (sym fresh) });
          state = ap (λ (x : Core). x.state) built ∙ fresh;
          name = ap (λ (x : Core). x.context.node.tunnel_name) built;
          client = ap (λ (x : Core). x.context.node.claimant_client_id) built;
          installation = ap (λ (x : Core). x.context.node.claimant_instance_id) built;
          explained = λ r. cc;
        } in
        opened-Handed c d _ (first-Reached n c held) refl same

    stored-Handed :
        (n : ResumeAttemptNode) (q : ResumeMachine st.State × Option Exn) (d : Resuming k st)
        → model_validate n ≡ ok n
        → n.state ≡ created
        → q.0.core ≡ (init n h.store).core
        → stored k st prune n h q ≡ started d
        → Handed d
    stored-Handed n (m, some e) d legal fresh built same = cc
    stored-Handed n (m, none) d legal fresh built same =
        pruned-Handed n m (prune m.store) d legal fresh built same

    validated-Handed :
        (n : ResumeAttemptNode) (r : Result ResumeAttemptNode) (d : Resuming k st)
        → model_validate n ≡ r
        → n.state ≡ created
        → validated k st prune h r ≡ started d
        → Handed d
    unfolding create
    validated-Handed n (ok v) d valid fresh same =
        let eq = model_validate-eq n valid in
        stored-Handed v (create st v h.store) d (ap model_validate (sym eq) ∙ valid)
          (ap (λ (x : ResumeAttemptNode). x.state) (sym eq) ∙ fresh) refl same
    validated-Handed n (err e) d valid fresh same = cc

    configured-Handed :
        (t : Tunnel) (r : Result AppConfig) (d : Resuming k st)
        → configured k st prune t h r ≡ started d
        → Handed d
    configured-Handed t (ok cfg) d same = validated-Handed _ _ d refl refl same
    configured-Handed t (err e) d same = cc

    -- Over a store that never raises and an event log that raises nothing but `OSError`, an attempt
    -- that `ResumeAttempt.start` returns is in `preflighting`, its machine is sound and agrees with
    -- its record, and the outside world is untouched.
    pub start-Held :
        (t : Tunnel) (c : Resuming k st)
        → start k st prune t h ≡ started c
        → IsHeld c preflighting × (c.world ≡ h.world)
    unfolding start
    start-Held t c same = configured-Handed t (k.load_config h.world) c same

-- What a completed resume rests on.
pub record IsEarned {J R : Type 0} (k : Workers J R) (st : StateStore Snapshot) (original : Tunnel)
    (c d : Resuming k st) : Type 0 where
  pub tunnel : Tunnel
  pub plan : ResumePlan
  pub token : Token
  pub prepared : (prepare k original c.world).1 ≡ ok (tunnel, plan)
  pub safe : plan.safe ≡ true
  pub claimed : (acquire k tunnel plan (prepare k original c.world).0).1 ≡ ok token
  pub state : d.attempt.machine.core.state ≡ completed
  pub facts : IsProved d.attempt.machine.core.context.node

held-IsProved :
    {K J W : Type 0} (c : Running K J W)
    → IsHeld c completed
    → IsProved c.attempt.machine.core.context.node
held-IsProved c h =
    let n = c.attempt.machine.core.context.node in
    let (token, facts) = completed-facts n h.sound.legal (h.sound.state ∙ h.state) in
    proved n _ _ refl refl token facts

ended-IsEarned :
    {J R : Type 0} (k : Workers J R) (st : StateStore Snapshot) (original outcome_data : Tunnel)
    (c : Resuming k st) (p : Resuming k st × Result Tunnel)
    → Ending k st original c p
    → p.1 ≡ ok outcome_data
    → IsEarned k st original c p.0
ended-IsEarned k st original outcome_data c p (done d t u plan token e s a h) f = record {
  tunnel = u;
  plan = plan;
  token = token;
  prepared = e;
  safe = s;
  claimed = a;
  state = h.state;
  facts = held-IsProved d h;
}
ended-IsEarned k st original outcome_data c p _ f = cc

-- Over a lawful store that never raises and an event log that raises nothing but `OSError`, a
-- `resume` that returns had prepared its inputs, had a safe plan and had claimed the tunnel; its
-- attempt is completed, with a token of its own tunnel and client, and with evidence of the token's
-- generation and of at most one writer on each side.
pub proceed_ok-IsEarned :
    {J R : Type 0} (k : Workers J R) (st : StateStore Snapshot) (name : Option String)
    (force : Bool) (original outcome_data : Tunnel) (c : Resuming k st)
    → IsLawful st
    → IsSteady st
    → IsQuiet k.emit
    → IsHeld c preflighting
    → (proceed k st name force original c).1 ≡ ok outcome_data
    → IsEarned k st original c (proceed k st name force original c).0
proceed_ok-IsEarned k st name force original outcome_data c lawful steady calm h e =
    ended-IsEarned k st original outcome_data c _
      (proceed-Ending k st lawful steady calm name force original c h) e

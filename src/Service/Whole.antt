-- ===== src/Service/Whole.antt =====
-- The whole of `ControlService.resume`: what it has done when it returns.
use dual_tmux.Prelude.{String, ◌≡◌, refl, Bool, Option}
use dual_tmux.Prelude.Result.{Exn, Result, ok, err}
use dual_tmux.Fsm.Store.{StateStore, IsLawful}
use dual_tmux.Resume.Accepted.{IsSteady}
use dual_tmux.Resume.Machine.{Snapshot}
use dual_tmux.Service.Attempt.{Tunnel}
use dual_tmux.Service.Workers.{World, Workers}
use dual_tmux.Service.Resume.{Resuming, locate, proceed}
use dual_tmux.Service.Sends.{IsQuiet}
use dual_tmux.Service.Start.{
  Started, not_started, started, OnHost, host_of, continued, found, start, resume,
}
use dual_tmux.Service.Begun.{IsEarned, start-Held, proceed_ok-IsEarned}

-- A `resume` that returned: the tunnel that was located, the attempt that was started for it, what
-- the attempt rests on, and what is left.
pub record IsResumed {J R : Type 0} (k : Workers J R) (st : StateStore Snapshot)
    (prune : st.State → st.State × Option Exn) (name : Option String) (force : Bool)
    (h h' : OnHost k st prune) : Type 0 where
  pub located : Tunnel
  pub begun : Resuming k st
  pub ended : Resuming k st
  pub found_by : (locate k name h.world).1 ≡ ok located
  pub begun_by :
      start k st prune located (record h { world = (locate k name h.world).0 }) ≡ started begun
  pub ended_by : (proceed k st name force located begun).0 ≡ ended
  pub earned : IsEarned k st located begun ended
  pub left : h' ≡ host_of ended

module _ {J R : Type 0} (k : Workers J R) (st : StateStore Snapshot)
    (prune : st.State → st.State × Option Exn) (name : Option String) (force : Bool)
    (lawful : IsLawful st) (steady : IsSteady st) (calm : IsQuiet k.emit) where
  continued-IsResumed :
      (h : OnHost k st prune) (t outcome_data : Tunnel) (w : World R)
      (s : Started st.State J (World R))
      → locate k name h.world ≡ (w, ok t)
      → start k st prune t (record h { world = w }) ≡ s
      → (continued k st prune name force t s).1 ≡ ok outcome_data
      → IsResumed k st prune name force h (continued k st prune name force t s).0
  continued-IsResumed h t outcome_data w (not_started g e) l s r = cc
  continued-IsResumed h t outcome_data w (started c) l s r =
      let (held, same) = start-Held k st steady calm prune (record h { world = w }) t c s in
      record {
        located = t;
        begun = c;
        ended = (proceed k st name force t c).0;
        found_by = rw l refl;
        begun_by = rw l s;
        ended_by = refl;
        earned = proceed_ok-IsEarned k st name force t outcome_data c lawful steady calm held r;
        left = refl;
      }

  found-IsResumed :
      (h : OnHost k st prune) (outcome_data : Tunnel) (p : World R × Result Tunnel)
      → locate k name h.world ≡ p
      → (found k st prune name force h p).1 ≡ ok outcome_data
      → IsResumed k st prune name force h (found k st prune name force h p).0
  found-IsResumed h outcome_data (w, ok t) l r = continued-IsResumed h t outcome_data w _ l refl r
  found-IsResumed h outcome_data (w, err e) l r = cc

  -- Over a lawful store that never raises and an event log that raises nothing but `OSError`, a
  -- `resume` that returns has located its tunnel and started an attempt for it, had a safe plan and
  -- claimed the tunnel before it restored it, and leaves the attempt completed, with a token of its
  -- own tunnel and client, and with evidence of the token's generation and of at most one writer on
  -- each side.
  pub resume_ok-IsResumed :
      (h : OnHost k st prune) (outcome_data : Tunnel)
      → (resume k st prune name force h).1 ≡ ok outcome_data
      → IsResumed k st prune name force h (resume k st prune name force h).0
  unfolding resume
  resume_ok-IsResumed h outcome_data r =
      found-IsResumed h outcome_data (locate k name h.world) refl r

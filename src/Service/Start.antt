-- ===== src/Service/Start.antt =====
-- `ResumeAttempt.start` of src/dual_tmux/resume_attempt.py, and the whole of
-- `ControlService.resume`.
use dual_tmux.Prelude.{String, Bool, Option, none, some, ◌<>◌}
use dual_tmux.Prelude.Effect.{Act}
use dual_tmux.Prelude.Result.{Exn, Result, ok, err}
use dual_tmux.Fsm.Store.{StateStore}
use dual_tmux.Resume.State.{ResumeState, processing_started}
use dual_tmux.Resume.Event.{no_fields}
use dual_tmux.Resume.Node.{ResumeAttemptNode, model_validate}
use dual_tmux.Resume.Machine.{Snapshot, ResumeMachine, create}
use dual_tmux.Occupancy.Client.{AppConfig}
use dual_tmux.Service.Errors.{translate_error}
use dual_tmux.Service.Attempt.{Tunnel, Running, attempt_of, new_node, send_event}
use dual_tmux.Service.Workers.{World, Workers}
use dual_tmux.Service.Resume.{Resuming, locate, proceed}

-- What there is without an attempt.
pub record Host (K J W : Type 0) : Type 0 where
  pub store : K
  pub journal : J
  pub world : W

pub data Started (K J W : Type 0) : Type 0 where
  not_started : Host K J W → Exn → Started K J W
  started : Running K J W → Started K J W

abbrev pub host_of : {K J W : Type 0} → Running K J W → Host K J W
host_of c = record { store = c.attempt.machine.store; journal = c.journal; world = c.world }

module _ {J R : Type 0} (k : Workers J R) (st : StateStore Snapshot)
    (prune : st.State → st.State × Option Exn) where
  abbrev pub OnHost : Type 0
  OnHost = Host st.State J (World R)

  abbrev pub opened : Resuming k st × Result ResumeState → Started st.State J (World R)
  opened (c, ok s) = started c
  opened (c, err e) = not_started (host_of c) e

  abbrev pub pruned :
      ResumeAttemptNode
      → OnHost
      → ResumeMachine st.State
      → st.State × Option Exn
      → Started st.State J (World R)
  pruned n h m (store, some e) = not_started (record h { store = store }) e
  pruned n h m (store, none) = opened (
      send_event st k.emit k.clock k.describe k.digest processing_started no_fields (record {
        attempt = attempt_of n (record m { store = store });
        journal = h.journal;
        world = h.world;
      }))

  abbrev pub stored :
      ResumeAttemptNode
      → OnHost
      → ResumeMachine st.State × Option Exn
      → Started st.State J (World R)
  stored n h (m, some e) = not_started (record h { store = m.store }) e
  stored n h (m, none) = pruned n h m (prune m.store)

  abbrev pub validated : OnHost → Result ResumeAttemptNode → Started st.State J (World R)
  validated h (err e) = not_started h e
  validated h (ok n) = stored n h (create st n h.store)

  abbrev pub configured : Tunnel → OnHost → Result AppConfig → Started st.State J (World R)
  configured t h (err e) = not_started h e
  configured t h (ok cfg) = validated h (
      model_validate (
        new_node cfg (k.existing_instance_id h.world) t.name ("resume-" <> k.new_id h.world)
          (k.clock h.world)))

  unfoldable pub start : Tunnel → OnHost → Started st.State J (World R)
  unfolding create send_event model_validate
  start t h = configured t h (k.load_config h.world)

  abbrev pub left_by : Resuming k st × Result Tunnel → OnHost × Result Tunnel
  left_by (c, r) = (host_of c, r)

  abbrev pub continued :
      Option String → Bool → Tunnel → Started st.State J (World R) → OnHost × Result Tunnel
  continued name force t (not_started h e) = (h, err (translate_error k.describe e))
  continued name force t (started c) = left_by (proceed k st name force t c)

  abbrev pub found :
      Option String → Bool → OnHost → World R × Result Tunnel → OnHost × Result Tunnel
  found name force h (w, err e) = (record h { world = w }, err e)
  found name force h (w, ok t) =
      let h' = record h { world = w } in continued name force t (start t h')

  unfoldable pub resume : Option String → Bool → Act OnHost Tunnel
  unfolding locate start proceed translate_error
  resume name force h = found name force h (locate k name h.world)

-- ===== src/Service/Resume.antt =====
-- `ControlService.resume` of src/dual_tmux/control.py, from the start of the attempt to its end.
use dual_tmux.Prelude.{String, Bool, true, false, not, ◌&&◌, ◌<>◌, Option, none, some}
use dual_tmux.Prelude.{if◌then◌else◌, ◌==◌, string_eq, nonempty}
use dual_tmux.Prelude.Effect.{Act, ◌>>=◌, ◌>>◌, return, check, on_error, on_part}
use dual_tmux.Prelude.Result.{Exn, Result, ok, err, control_error}
use dual_tmux.Fsm.Store.{StateStore}
use dual_tmux.Occupancy.Hub.{Files}
use dual_tmux.Occupancy.Resume.{Token, Verified, acquire_for_resume, verify_resume}
use dual_tmux.Ownership.Takeover.{ResumePlan}
use dual_tmux.Ownership.Takeover
use dual_tmux.Resume.Machine.{Snapshot}
use dual_tmux.Service.Errors.{translate, note}
use dual_tmux.Service.Attempt.{
  Tunnel, Emission, resumed, Running, preflight, preflight_failed, acquired, not_acquired, restored,
  not_restored, verified, not_verified, keep_occupancy_after_failure,
}
use dual_tmux.Service.Workers.{World, Workers, Route, RouteStatus, missing, ambiguous}

abbrev is_ambiguous : RouteStatus → Bool
is_ambiguous ambiguous = true
is_ambiguous _ = false

abbrev is_missing : RouteStatus → Bool
is_missing missing = true
is_missing _ = false

-- `bool(runtime["server"]) and (bullet["tool"] or "opencode") == "opencode"`
unfoldable pub remote_opencode : Tunnel → Bool
remote_opencode t =
    nonempty t.server
    && (if nonempty t.bullet.tool then t.bullet.tool else "opencode") == "opencode"

abbrev ambiguity : Route → Exn
ambiguity route =
    control_error "runtime_ambiguous"
      ("[err] bullet session exists in multiple remote locations ("
        <> (route.names <> "); runtime was not changed"))
      409

abbrev absence : Tunnel → Exn
absence t =
    control_error "session_missing"
      ("[err] bullet session "
        <> (t.bullet.session_id <> " missing remotely and no local persist JSON"))
      409

abbrev on_files {ℓ} : {A : Type ℓ} {R : Type 0} → (Files → Files × Result A) → Act (World R) A
on_files = on_part (λ w. w.files) (λ f w. record w { files = f })

-- How far the block after the claim has come.
pub record Progress : Type 0 where
  pub restore_completed : Bool
  pub rollback_started : Bool

abbrev pub begun : Progress
begun = record { restore_completed = false; rollback_started = false }

module _ {J R : Type 0} (k : Workers J R) where
  abbrev guarded {ℓ κ} : {S : Type ℓ} {A : Type κ} → Act S A → Act S A
  guarded = translate k.describe

  -- `except ControlError`: all that `_translate` raises but what it passes on unchanged.
  abbrev is_control_error : Exn → Bool
  is_control_error (control_error code message status) = true
  is_control_error _ = false

  abbrev resolved : Option String → World R × Result Tunnel → World R × Result Tunnel
  resolved name (w, ok t) = (w, ok t)
  resolved name (w, err e) = if is_control_error e then guarded (k.resolve name) w else (w, err e)

  -- The lookup of the tunnel, and the pull of its inputs.
  unfoldable pub locate : Option String → Act (World R) Tunnel
  locate name = do
    t ← λ w. resolved name (guarded (k.get_tunnel_readonly name) w)
    guarded (k.refresh_resume_inputs t)

  abbrev no_route : Tunnel → Tunnel × Route
  no_route t = (t, record { status = RouteStatus.not_applicable; changed = false; names = "" })

  abbrev require_snapshot : Bool → Tunnel → Route → Act (World R) (Unit {0})
  require_snapshot remote t route =
      if remote && is_missing route.status
      then (do found ← k.has_persist_snapshot t; check found (absence t))
      else return tt

  abbrev keep_route : Tunnel → Route → Act (World R) (Unit {0})
  keep_route t route =
      if route.changed
      then (do guarded (k.save t); guarded (k.write_entry t.run t.cmd); k.sync_best_effort)
      else return tt

  -- The first `try` block.
  unfoldable pub prepare : Tunnel → Act (World R) (Tunnel × ResumePlan)
  unfolding remote_opencode Takeover.plan_resume
  prepare original = do
    (t, route) ←
        (if remote_opencode original
          then guarded (k.reconcile_remote_runtime original)
          else return (no_route original))
    check (not (is_ambiguous route.status)) (ambiguity route)
    require_snapshot (remote_opencode original) t route
    keep_route t route
    guarded (k.preflight_resume_snapshots t)
    facts ← guarded (k.facts t)
    return (t, Takeover.plan_resume facts)

  -- `ownership.acquire_for_resume` and `ownership.verify_resume` on the hub's files.
  unfoldable pub acquire : Tunnel → ResumePlan → Act (World R) Token
  unfolding acquire_for_resume
  acquire t plan w = elim (k.load_config w) [
    | err e ↦ (w, err e)
    | ok cfg ↦
        on_files
          (acquire_for_resume (k.link w) cfg (k.clock w) t.name
            (record { safe = plan.safe; reason = plan.reason }))
          w
  ]

  unfoldable pub verify : Token → Act (World R) Verified
  unfolding verify_resume
  verify token w = elim (k.load_config w) [
    | err e ↦ (w, err e)
    | ok cfg ↦ on_files (verify_resume (k.link w) cfg (k.clock w) token) w
  ]

  module _ (st : StateStore Snapshot) where
    abbrev pub Resuming : Type 0
    Resuming = Running st.State J (World R)

    abbrev in_world {ℓ} : {A : Type ℓ} → Act (World R) A → Act Resuming A
    in_world = on_part (λ c. c.world) (λ w c. record c { world = w })

    abbrev outcome : Option Exn → Result (Unit {0})
    outcome none = ok tt
    outcome (some e) = err e

    abbrev kept : Resuming → J × Option Exn → Resuming × Result (Unit {0})
    kept c (journal, raised) = (record c { journal = journal }, outcome raised)

    -- `ev.emit`
    abbrev emit_event : Emission → Act Resuming (Unit {0})
    emit_event e c = kept c (k.emit e c.journal)

    abbrev first {ℓ} : {A : Type ℓ} → Act Resuming A → Act (Resuming × Progress) A
    first = on_part (λ p. p.0) (λ c p. (c, p.1))

    abbrev set_progress : Progress → Act (Resuming × Progress) (Unit {0})
    set_progress p (c, old) = ((c, p), ok tt)

    -- The `try` block after the claim: its end, the handler of a refused
    -- verification, and the whole.
    unfoldable pub recorded : Tunnel → Verified → Act (Resuming × Progress) Tunnel
    unfolding verified
    recorded t v = do
      first (in_world (k.save (record t { ownership_generation = v.generation })))
      first (emit_event (resumed t.name v.generation))
      first (guarded (verified st k.emit k.clock k.describe k.digest v))
      return (record t { ownership_generation = v.generation })

    abbrev pub refuse : Exn → Act (Resuming × Progress) (Unit {0})
    refuse e = do
      first (note (not_verified st k.emit k.clock k.describe k.digest e))
      set_progress (record { restore_completed = true; rollback_started = true })

    unfoldable pub restore_block : Option String → Bool → Token → Act (Resuming × Progress) Tunnel
    unfolding restored verify not_verified recorded
    restore_block name force token = do
      t ← first (guarded (in_world (k.apply_resume name force token.generation)))
      first (guarded (restored st k.emit k.clock k.describe k.digest))
      set_progress (record { restore_completed = true; rollback_started = false })
      v ← on_error (first (guarded (in_world (verify token)))) refuse
      recorded t v

    abbrev report_failure : Exn → Progress → Act Resuming (Unit {0})
    report_failure e p =
        if not p.restore_completed
        then note (not_restored st k.emit k.clock k.describe k.digest e)
        else if not p.rollback_started
        then note (not_verified st k.emit k.clock k.describe k.digest e)
        else return tt

    -- Its `except` block.
    unfoldable pub give_up : Exn → Act (Resuming × Progress) (Unit {0})
    unfolding not_restored not_verified keep_occupancy_after_failure
    give_up e (c, p) =
        first
          (do
            report_failure e p
            note (keep_occupancy_after_failure st k.emit k.clock k.describe k.digest))
          (c, p)

    abbrev dropped : (Resuming × Progress) × Result Tunnel → Resuming × Result Tunnel
    dropped ((c, p), r) = (c, r)

    unfoldable pub restore_claimed : Option String → Bool → Token → Act Resuming Tunnel
    unfolding restore_block give_up
    restore_claimed name force token c =
        dropped (on_error (restore_block name force token) give_up (c, begun))

    -- The claim: a plan that is not safe raises, and only a safe one reports the failure.
    unfoldable pub claim : Tunnel → ResumePlan → Act Resuming Token
    unfolding acquire not_acquired
    claim t plan = on_error (guarded (in_world (acquire t plan))) (λ e.
        if plan.safe
        then note (not_acquired st k.emit k.clock k.describe k.digest e)
        else return tt)

    -- What follows the claim, what follows the first `try` block, and all that follows the start of
    -- the attempt.
    unfoldable pub conclude : Option String → Bool → Token → Act Resuming Tunnel
    unfolding restore_claimed
    conclude name force token = do
      outcome_data ← restore_claimed name force token
      in_world k.push_best_effort
      return outcome_data

    unfoldable pub settle : Option String → Bool → Tunnel → ResumePlan → Act Resuming Tunnel
    unfolding preflight claim acquired conclude
    settle name force t plan = do
      guarded (preflight st k.emit k.clock k.describe k.digest t plan)
      token ← claim t plan
      guarded (acquired st k.emit k.clock k.describe k.digest token)
      conclude name force token

    unfoldable pub proceed : Option String → Bool → Tunnel → Act Resuming Tunnel
    unfolding prepare preflight_failed settle
    proceed name force original = do
      (t, plan) ←
          on_error (in_world (prepare original))
            (λ e. note (preflight_failed st k.emit k.clock k.describe k.digest e))
      settle name force t plan

-- ===== src/Freeze/Whole.antt =====
-- `run_freeze_attempt` from its start: a record changes only by a freeze that has bound, and not at
-- all while another Client holds the tunnel.
use mathlib.Core.Path.{subst, ap₂}
use dual_tmux.Prelude.{
  ℕ, String, ◌≡◌, ◌≢◌, refl, sym, ◌∙◌, ap, Bool, true, false, Option, none, some, arith, ◌⊎◌, inl,
  inr, Bool-cases, if◌then◌else◌, [],
}
use dual_tmux.Prelude.Result.{Exn, Result, ok, err}
use dual_tmux.Fsm.Store.{memory_store, memory_store-IsLawful}
use dual_tmux.Binding.State.{BindingState, created, proving, requested}
use dual_tmux.Binding.Node.{
  BindingAttemptNode, AgentRole, Requested, request, requested_fields, model_validate,
  validate_payload, legal_candidate,
}
use dual_tmux.Binding.Chart.{apply_changes}
use dual_tmux.Binding.Steps.{target, send-Accepted}
use dual_tmux.Binding.Sound.{IsSound, Accepted-IsSound, model_validate-eq}
use dual_tmux.Binding.Run.{send-Sent, create-IsCurrent}
use dual_tmux.Binding.Machine.{Snapshot, create, init, persist, send}
use dual_tmux.Binding.Commit.Accepted.{send_ok, state-send}
use dual_tmux.Nodes.Json.{Dict, get, merge}
use dual_tmux.Nodes.Library.{or_empty, str_or}
use dual_tmux.Freeze.Payload.{OccupancyContext, occupancy_context, side_key}
use dual_tmux.Freeze.Hook.{projection}
use dual_tmux.Freeze.Attempt.{
  Attempt, Host, Outcome, Freezing, freeze_rejected, sends, requested_of, reject, prove, drive,
  name, new_node, is_foreign, created_of, forget, started, in_context, begun, run_freeze_attempt,
}
use dual_tmux.Freeze.Missing.{memory_store-IsSteady, sends_ok, after_missing-ok}
use dual_tmux.Freeze.Ending.{IsQuiet, report-quiet, prove-Ending}

legal_proving :
    (n : BindingAttemptNode) (holder : String)
    → model_validate n ≡ ok n
    → model_validate (record n { state = proving; holder = holder })
      ≡ ok (record n { state = proving; holder = holder })
unfolding model_validate legal_candidate
legal_proving n holder h = ground arith

abbrev pub sent : Attempt → Requested → ℕ → Attempt × Result BindingState
sent m r now = send (memory_store Snapshot) m requested (requested_fields r) now

module _ (m : Attempt) (sound : IsSound m.core) (s : m.core.state ≡ created) (r : Requested)
    (now : ℕ) where
  requested_ok : (sent m r now).1 ≡ ok proving
  unfolding apply_changes validate_payload
  requested_ok =
      send_ok (memory_store Snapshot) memory_store-IsSteady m requested (requested_fields r) now
        (request r) proving sound refl (ap (λ t. target t requested) s) refl
        (legal_proving m.core.context.node _ sound.legal)

  pub state-requested : (sent m r now).0.core.state ≡ proving
  state-requested =
      state-send (memory_store Snapshot) memory_store-IsSteady m requested (requested_fields r) now
        proving sound requested_ok

  pub requested-IsSound : IsSound (sent m r now).0.core
  requested-IsSound =
      let step =
        send-Sent (memory_store Snapshot) m requested (requested_fields r) now proving
          requested_ok in
      Accepted-IsSound (send-Accepted refl sound.graph step.sent) (record {
        graph = sound.graph;
        state = sound.state;
        legal = sound.legal;
        path = sound.path;
      })

-- A machine that is created for a valid new node is sound and new.
abbrev pub made : BindingAttemptNode → Attempt
made node = (create (memory_store Snapshot) node []).0

pub created-IsSound :
    (node : BindingAttemptNode)
    → model_validate node ≡ ok node
    → node.state ≡ created
    → IsSound (made node).core × ((made node).core.state ≡ created)
unfolding create init
created-IsSound node legal fresh =
    let current =
      create-IsCurrent (memory_store Snapshot) (memory_store-IsLawful Snapshot) node.attempt_id node
        [] (made node) legal fresh refl refl in
    (current.sound, fresh)

-- The record is as before, and `True` is not returned.
pub record IsUnchanged {J O : Type 0} (h : Host J O) (p : Host J O × Result Bool) : Type 0 where
  pub target : p.0.target ≡ h.target
  pub result : p.1 ≢ ok true

-- No other Client holds the tunnel, the body has proved a session, the record is updated by the
-- projection of the working copy, and `True` is returned.
pub record IsFrozen {D J O : Type 0} (f : Freezing D J O) (side : AgentRole) (h : Host J O)
    (p : Host J O × Result Bool) : Type 0 where
  pub context : OccupancyContext
  pub read : O
  pub occupancy :
      occupancy_context f.load_config f.read_occupancy f.is_test (name f side h) h.outside
      ≡ (read, ok context)
  pub native : is_foreign f side context ≡ false
  pub working : Dict
  pub after : O
  pub body : f.body h.target read ≡ (after, ok (working, true))
  pub projected : Dict
  pub projection : projection f.lib working side context.holder h.target ≡ ok projected
  pub target : p.0.target ≡ merge h.target projected
  pub result : p.1 ≡ ok true

module _ {D J O : Type 0} (f : Freezing D J O) (quiet : IsQuiet f) (side : AgentRole) where
  requested_of-ok :
      (q : Attempt × Result BindingState) (h : Host J O) (c : OccupancyContext) (previous : String)
      {t : BindingState}
      → q.1 ≡ ok t
      → requested_of f side q h c previous ≡ (
          if is_foreign f side c
          then reject f side q.0 h c.occupancy_holder
          else prove f side q.0 h c.holder previous)
  requested_of-ok (m, ok s) h c previous e = refl
  requested_of-ok (m, err x) h c previous e = cc

  -- A rejection for a foreign holder.
  reject-quiet :
      (m : Attempt) (h : Host J O) (occupant : String)
      → IsSound m.core
      → m.core.state ≡ proving
      → let p = reject f side m h occupant in
        (p.0.1 ≡ record h {
          journal = (f.emit (freeze_rejected (name f side h) side occupant) h.journal).0;
        })
        × (p.1 ≡ ok false)
  reject-quiet m h occupant sound s =
      rw
        (after_missing-ok f side (sends m _ f.clock.proof) h _
          (sends_ok m sound s _ f.clock.proof refl))
        (rw (report-quiet f quiet side "" h) (refl, refl))

  -- A new attempt asks, and goes on if no other Client holds the tunnel.
  drive-cases :
      (P : Outcome J O → Type 0) (m : Attempt) (h : Host J O) (c : OccupancyContext)
      (previous : String)
      → IsSound m.core
      → m.core.state ≡ created
      → ((m' : Attempt)
          → IsSound m'.core
          → m'.core.state ≡ proving
          → is_foreign f side c ≡ true
          → P (reject f side m' h c.occupancy_holder))
      → ((m' : Attempt)
          → IsSound m'.core
          → m'.core.state ≡ proving
          → is_foreign f side c ≡ false
          → P (prove f side m' h c.holder previous))
      → P (drive f side m h c previous)
  unfolding drive
  drive-cases P m h c previous sound s foreign native =
      let r : Requested = record {
        holder = c.holder;
        local_mode = c.local_mode;
        occupancy_holder = c.occupancy_holder;
      } in
      let q = sent m r f.clock.request in
      let proves = state-requested m sound s r f.clock.request in
      let still = requested-IsSound m sound s r f.clock.request in
      subst P (sym (requested_of-ok q h c previous (requested_ok m sound s r f.clock.request)))
        (elim (Bool-cases (is_foreign f side c)) [
          | inl e ↦ rw e (foreign q.0 still proves e)
          | inr e ↦ rw e (native q.0 still proves e)
        ])

  -- What a freeze ends as: an unchanged record, or a frozen one.
  abbrev Ends : Host J O → Host J O × Result Bool → Type 0
  Ends h p = IsUnchanged h p ⊎ IsFrozen f side h p

  created_of-none :
      (h : Host J O) (c : OccupancyContext) (previous : String) (q : Attempt × Option Exn)
      → q.1 ≡ none
      → created_of f side h c previous q ≡ forget f side (drive f side q.0 h c previous)
  created_of-none h c previous (m, none) e = refl
  created_of-none h c previous (m, some x) e = cc

  create-none : (node : BindingAttemptNode) → (create (memory_store Snapshot) node []).1 ≡ none
  unfolding create persist
  create-none node = refl

  module _ (h : Host J O) (previous : String) (o : O) (c : OccupancyContext)
      (asked : occupancy_context f.load_config f.read_occupancy f.is_test (name f side h) h.outside
        ≡ (o, ok c)) where
    abbrev there : Host J O
    there = record h { outside = o }

    drive-Ends :
        (m : Attempt)
        → IsSound m.core
        → m.core.state ≡ created
        → Ends h (forget f side (drive f side m there c previous))
    drive-Ends m sound s =
        drive-cases (λ p. Ends h (forget f side p)) m there c previous sound s
          (λ m' still proves foreign.
            let (host, no_) = reject-quiet m' there c.occupancy_holder still proves in
            inl (record { target = ap (λ k. k.target) host; result = λ e. cc }))
          (λ m' still proves native.
            elim (prove-Ending f quiet side c.holder there previous m' still proves) [
              | inl k ↦ inl (record { target = k.target; result = k.result })
              | inr k ↦ inr (record {
                context = c;
                read = o;
                occupancy = asked;
                native = native;
                working = k.working;
                after = k.outside;
                body = k.body;
                projected = k.projected;
                projection = k.projection;
                target = k.target;
                result = k.result;
              })
            ])

    started-Ends :
        (r : Result BindingAttemptNode)
        → model_validate (new_node f side h c previous) ≡ r
        → Ends h (started f side there c previous r)
    started-Ends (err e) v = inl (record { target = refl; result = λ x. cc })
    started-Ends (ok node) v =
        let same = model_validate-eq (new_node f side h c previous) v in
        let legal : model_validate node ≡ ok node = ap model_validate (sym same) ∙ v in
        let fresh : node.state ≡ created = sym (ap (λ k. k.state) same) in
        let (sound, s) = created-IsSound node legal fresh in
        subst (Ends h) (sym (created_of-none there c previous _ (create-none node)))
          (drive-Ends (made node) sound s)

  in_context-Ends :
      (h : Host J O) (previous : String) (q : O × Result OccupancyContext)
      → occupancy_context f.load_config f.read_occupancy f.is_test (name f side h) h.outside ≡ q
      → Ends h (in_context f side h previous q)
  in_context-Ends h previous (o, err e) asked = inl (record { target = refl; result = λ x. cc })
  in_context-Ends h previous (o, ok c) asked =
      started-Ends h previous o c asked (model_validate (new_node f side h c previous)) refl

  begun-Ends : (h : Host J O) (r : Result Dict) → Ends h (begun f side h r)
  begun-Ends h (err e) = inl (record { target = refl; result = λ x. cc })
  begun-Ends h (ok info) = in_context-Ends h (str_or f.lib "" (get info "session_id")) _ refl

  -- With an event log that raises nothing, a freeze either keeps the record and does not return
  -- `True`; or no other Client holds the tunnel, the body has proved a session on the working copy,
  -- the record is updated by the projection of that copy, and it returns `True`.
  pub run_freeze_attempt-Ends :
      (h : Host J O)
      → IsUnchanged h (run_freeze_attempt f side h)
        ⊎ IsFrozen f side h (run_freeze_attempt f side h)
  unfolding run_freeze_attempt
  run_freeze_attempt-Ends h = begun-Ends h (or_empty (get h.target (side_key side)))

  started_foreign :
      (h : Host J O) (c : OccupancyContext) (previous : String) (r : Result BindingAttemptNode)
      {node : BindingAttemptNode}
      → model_validate (new_node f side h c previous) ≡ r
      → r ≡ ok node
      → is_foreign f side c ≡ true
      → started f side h c previous r ≡ (
        record h {
          journal = (f.emit (freeze_rejected (name f side h) side c.occupancy_holder) h.journal).0;
        },
        ok false,
      )
  started_foreign h c previous (err e) v legal foreign = cc
  started_foreign h c previous (ok node) v valid foreign =
      let same = model_validate-eq (new_node f side h c previous) v in
      let legal : model_validate node ≡ ok node = ap model_validate (sym same) ∙ v in
      let fresh : node.state ≡ created = sym (ap (λ k. k.state) same) in
      let (sound, s) = created-IsSound node legal fresh in
      created_of-none h c previous _ (create-none node)
      ∙ drive-cases
          (λ p. forget f side p ≡ (
            record h {
              journal =
                  (f.emit (freeze_rejected (name f side h) side c.occupancy_holder) h.journal).0;
            },
            ok false,
          ))
          (made node) h c previous sound s
          (λ m' still proves e.
            let (host, result) = reject-quiet m' h c.occupancy_holder still proves in
            ap₂ (λ a b. (a, b)) host result)
          (λ m' still proves e. cc)

  -- While the hub names another Client as the holder, a freeze of a side that is a dict, or is not
  -- there, whose attempt is valid, returns `False` with an event log that raises nothing: the body is
  -- not run, and the record and the world are as the reading of the occupancy left them.
  pub run_freeze_attempt-foreign :
      (h : Host J O) (info : Dict) (o : O) (c : OccupancyContext) (node : BindingAttemptNode)
      → or_empty (get h.target (side_key side)) ≡ ok info
      → occupancy_context f.load_config f.read_occupancy f.is_test (name f side h) h.outside
        ≡ (o, ok c)
      → model_validate (new_node f side h c (str_or f.lib "" (get info "session_id"))) ≡ ok node
      → is_foreign f side c ≡ true
      → run_freeze_attempt f side h ≡ (
        record h {
          outside = o;
          journal = (f.emit (freeze_rejected (name f side h) side c.occupancy_holder) h.journal).0;
        },
        ok false,
      )
  unfolding run_freeze_attempt
  run_freeze_attempt-foreign h info o c node known asked valid foreign =
      rw (known, asked)
        (started_foreign (record h { outside = o }) c (str_or f.lib "" (get info "session_id")) _
          refl valid foreign)

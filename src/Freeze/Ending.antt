-- ===== src/Freeze/Ending.antt =====
-- A freeze changes the record only by binding: what `prove` of Attempt leaves.
use mathlib.Core.Path.{subst}
use dual_tmux.Prelude.{
  String, ◌≡◌, ◌≢◌, refl, sym, ◌∙◌, ap, Bool, true, false, Option, none, some, ◌⊎◌, inl, inr,
  Bool-cases, Option-cases, [], ◌∷◌, if◌then◌else◌,
}
use dual_tmux.Prelude.Result.{Exn, Result, ok, err, Result-cases}
use dual_tmux.Fsm.Store.{memory_store, memory_store-IsLawful}
use dual_tmux.Service.Errors.{is_machine_error}
use dual_tmux.Binding.State.{BindingState, committing, proving, bound, failed, live_session_proven}
use dual_tmux.Binding.Chart.{Context}
use dual_tmux.Binding.Node.{BindingAttemptNode, AgentRole, LiveSessionProven, proven_fields}
use dual_tmux.Binding.Sound.{IsSound}
use dual_tmux.Binding.Machine.{Snapshot, Core, send}
use dual_tmux.Binding.Commit.{is_exception, run_hooks, commit_proven, Hook}
use dual_tmux.Binding.Commit.Outcome.{refused, decided, Ends, commit_proven-Ending}
use dual_tmux.Nodes.Json.{Dict, merge}
use dual_tmux.Nodes.Library.{Library}
use dual_tmux.Freeze.Payload.{proven_payload}
use dual_tmux.Freeze.Hook.{projection, persist_entry, execute, executed, updated as updated_by}
use dual_tmux.Freeze.Attempt.{
  Attempt, Host, Outcome, Emission, Freezing, prove, proved, commits, committed, report,
}
use dual_tmux.Freeze.Missing.{memory_store-IsSteady, missing-cases}

-- The record is as before, the attempt is not bound, and `True` is not returned.
pub record IsKept {J O : Type 0} (h : Host J O) (p : Outcome J O) : Type 0 where
  pub target : p.0.1.target ≡ h.target
  pub unbound : p.0.0.core.state ≢ bound
  pub result : p.1 ≢ ok true

-- The body has proved a session, the record is updated by the projection of the working copy, the
-- attempt is bound, and `True` is returned.
pub record IsCommitted {D J O : Type 0} (f : Freezing D J O) (side : AgentRole) (holder : String)
    (h : Host J O) (p : Outcome J O) : Type 0 where
  pub working : Dict
  pub outside : O
  pub projected : Dict
  pub body : f.body h.target h.outside ≡ (outside, ok (working, true))
  pub projection : projection f.lib working side holder h.target ≡ ok projected
  pub target : p.0.1.target ≡ merge h.target projected
  pub state : p.0.0.core.state ≡ bound
  pub result : p.1 ≡ ok true

-- The event log raises nothing.
abbrev pub IsQuiet : {D J O : Type 0} → Freezing D J O → Type 0
IsQuiet {J} f = (e : Emission) (j : J) → (f.emit e j).1 ≡ none

-- What executing the hook can do: it raises and keeps the record, or it updates the record.
pub data Executed {D O : Type 0} (lib : Library D) (working : Dict) (side : AgentRole)
    (holder : String) (target : Dict) (p : (Dict × O) × Option Exn) : Type 0 where
  raised : (e : Exn) → p.1 ≡ some e → p.0.0 ≡ target → Executed lib working side holder target p
  updated :
      (projected : Dict)
      → p.1 ≡ none
      → projection lib working side holder target ≡ ok projected
      → p.0.0 ≡ merge target projected
      → Executed lib working side holder target p

module _ {D O : Type 0} (lib : Library D) (write_text : String → String → O → O × Option Exn)
    (rstrip : String → String) (working : Dict) (side : AgentRole) (holder : String) (target : Dict)
    (o : O) where
  updated-Executed :
      (projected : Dict) (q : O × Option Exn)
      → projection lib working side holder target ≡ ok projected
      → Executed lib working side holder target
          (updated_by lib write_text rstrip target projected q)
  updated-Executed projected (o, none) h = updated projected refl h refl
  updated-Executed projected (o, some e) h = raised e refl refl

  executed-Executed :
      (r : Result Dict)
      → projection lib working side holder target ≡ r
      → Executed lib working side holder target (executed lib write_text rstrip side target o r)
  executed-Executed (err e) h = raised e refl refl
  executed-Executed (ok projected) h =
      updated-Executed projected (persist_entry lib write_text rstrip side projected o) h

module _ {D O : Type 0} (lib : Library D) (write_text : String → String → O → O × Option Exn)
    (rstrip : String → String) where
  execute-Executed :
      (working : Dict) (side : AgentRole) (holder : String) (target : Dict) (o : O)
      (node : BindingAttemptNode) (context : Context)
      → Executed lib working side holder target
          (execute lib write_text rstrip working side holder node context (target, o))
  unfolding execute
  execute-Executed working side holder target o node context =
      executed-Executed lib write_text rstrip working side holder target o
        (projection lib working side holder target) refl

-- A commit that was not bound is not being proved either.
stopped :
    (caught : Bool) {s : BindingState}
    → s ≡ (if caught then failed else committing)
    → (s ≢ proving) × (s ≢ bound)
stopped true h = (λ e. cc, λ e. cc)
stopped false h = (λ e. cc, λ e. cc)

pub run_hooks-one :
    {W : Type 0} (hook : Hook W) (core : Core) (w : W)
    → run_hooks (hook ∷ []) core w ≡ hook core.context.node core.context w
unfolding run_hooks
run_hooks-one hook core w = elim (Option-cases (hook core.context.node core.context w).1) [
  | inl e ↦ rw e refl
  | inr (x, e) ↦ rw e refl
]

module _ {D J O : Type 0} (f : Freezing D J O) (quiet : IsQuiet f) (side : AgentRole)
    (holder : String) (h : Host J O) where
  pub report-quiet :
      (m : Attempt) (g : Host J O) (e : Emission) (value : Bool)
      → report f side m g e value ≡ ((m, record g { journal = (f.emit e g.journal).0 }), ok value)
  report-quiet m g e value = rw (quiet e g.journal) refl

  -- What an exception leaves that is raised with the record kept.
  fails-IsKept :
      (payload : LiveSessionProven) (g : Host J O) (m : Attempt) (target : Dict) (o : O) (e : Exn)
      → target ≡ h.target
      → (m.core.state ≡ proving → IsSound m.core)
      → m.core.state ≢ bound
      → IsKept h (committed f side payload g ((m, (target, o)), err e))
  fails-IsKept payload g m target o e same sound unbound = elim (Bool-cases (is_machine_error e)) [
    | inl t ↦ rw t (
        missing-cases f side (IsKept h) m _ _ f.clock.report _ sound refl
          (λ m' s. rw report-quiet (record { target = same; unbound = λ x. cc; result = λ x. cc }))
          (λ s. rw report-quiet (record { target = same; unbound = unbound; result = λ x. cc })))
    | inr n ↦ rw n (record { target = same; unbound = unbound; result = λ x. cc })
  ]

  -- The outcome of the hook decides.
  decided-Ending :
      (working : Dict) (o : O)
      → f.body h.target h.outside ≡ (o, ok (working, true))
      → (payload : LiveSessionProven) (p : (Dict × O) × Option Exn)
      → (q : (Attempt × (Dict × O)) × Result BindingState)
      → Executed f.lib working side holder h.target p
      → Ends p.1 p.0 q
      → let r = committed f side payload (record h { outside = o }) q in
        IsKept h r ⊎ IsCommitted f side holder h r
  decided-Ending w o b payload (v, some x) ((m, (t, u)), ok s) ex (n, same, r) = cc
  decided-Ending w o b payload (v, some x) ((m, (t, u)), err y) (raised z a c) (n, same, r) = inl (
      fails-IsKept payload (record h { outside = o }) m t u y (ap (λ k. k.0) same ∙ c)
        (λ e. absurd ((stopped (is_exception x) n).0 e)) (stopped (is_exception x) n).1)
  decided-Ending w o b payload (v, some x) ((m, (t, u)), err y) (updated z a c d) ends = cc
  decided-Ending w o b payload (v, none) ((m, (t, u)), err y) ex (n, same, r) = cc
  decided-Ending w o b payload (v, none) ((m, (t, u)), ok s) (raised z a c) ends = cc
  decided-Ending w o b payload (v, none) ((m, (t, u)), ok s) (updated z a c d) (n, same, r) =
      rw report-quiet (
        inr (record {
          working = w;
          outside = o;
          projected = z;
          body = b;
          projection = c;
          target = ap (λ k. k.0) same ∙ d;
          state = n;
          result = refl;
        }))

  module _ (previous : String) (m : Attempt) (sound : IsSound m.core)
      (s : m.core.state ≡ proving) where
    not_bound : m.core.state ≢ bound
    not_bound e = cc

    -- What follows the commit of a payload.
    commits-Ending :
        (working : Dict) (o : O)
        → f.body h.target h.outside ≡ (o, ok (working, true))
        → (payload : LiveSessionProven)
        → let p = commits f side m (record h { outside = o }) holder working (ok payload) in
          IsKept h p ⊎ IsCommitted f side holder h p
    commits-Ending working o b payload =
        let hook = execute f.lib f.write_text f.rstrip working side holder in
        let g = record h { outside = o } in
        let st = memory_store Snapshot in
        let q =
          commit_proven st f.describe m (hook ∷ []) (proven_fields payload) (h.target, o)
            f.clock.proof f.clock.commit in
        elim (commit_proven-Ending st (memory_store-IsLawful Snapshot) memory_store-IsSteady
          f.describe m (hook ∷ []) (proven_fields payload) (h.target, o) f.clock.proof
          f.clock.commit sound s) [
            | refused e x y ↦ inl (
                subst (λ r. IsKept h (committed f side payload g r)) (sym y)
                  (fails-IsKept payload g m h.target o e refl (λ t. sound) not_bound))
            | decided x ends ↦
                let core =
                  (send st m live_session_proven (proven_fields payload) f.clock.proof).0.core in
                let p = hook core.context.node core.context (h.target, o) in
                decided-Ending working o b payload p q
                  (execute-Executed f.lib f.write_text f.rstrip working side holder h.target o
                    core.context.node core.context)
                  (subst (λ r. Ends r.1 r.0 q) (run_hooks-one hook core (h.target, o)) ends)
          ]

    proved-Ending :
        (q : O × Result (Dict × Bool))
        → f.body h.target h.outside ≡ q
        → let p = proved f side m h holder previous q in IsKept h p ⊎ IsCommitted f side holder h p
    proved-Ending (o, err e) b =
        inl (record { target = refl; unbound = not_bound; result = λ x. cc })
    proved-Ending (o, ok (working, false)) b = inl (
        missing-cases f side (IsKept h) m (record h { outside = o }) _ f.clock.proof _ (λ t. sound)
          refl (λ m' e. record { target = refl; unbound = λ x. cc; result = λ x. cc })
          (λ e. record { target = refl; unbound = not_bound; result = λ x. cc }))
    proved-Ending (o, ok (working, true)) b =
        elim (Result-cases (proven_payload f.lib working side previous)) [
          | inr (e, x) ↦
              rw x (inl (record { target = refl; unbound = not_bound; result = λ y. cc }))
          | inl (payload, x) ↦ rw x (commits-Ending working o b payload)
        ]

    -- A freeze whose attempt is proving, with an event log that raises nothing, either binds or keeps:
    -- it has had a session proved on the working copy, has updated the record by the projection of
    -- that copy, leaves the attempt bound and returns `True`; or the record is as it was, the attempt
    -- is not bound, and `True` is not returned.
    pub prove-Ending :
        let p = prove f side m h holder previous in IsKept h p ⊎ IsCommitted f side holder h p
    unfolding prove
    prove-Ending = proved-Ending (f.body h.target h.outside) refl

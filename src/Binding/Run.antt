-- ===== src/Binding/Run.antt =====
-- Runs of a binding attempt: any events with any fields, at any times, one after the other.
use mathlib.Core.Path.{subst, ap₂}
use text.Mathlib.TextPositions.{eq_refl}
use dual_tmux.Prelude.{
  ℕ, String, ◌≡◌, refl, sym, ◌∙◌, ap, inl, inr, none, some, Option, List, [], ◌∷◌,
}
use dual_tmux.Prelude.Result.{Exn, Result, ok, err, Result-cases}
use dual_tmux.Fsm.Machine
use dual_tmux.Fsm.Store.{StateStore, IsLawful}
use dual_tmux.Binding.State.{BindingState, BindingEvent, created, state_eq, event_eq}
use dual_tmux.Binding.Node.{BindingAttemptNode, Payload, Fields, model_validate, validate_payload}
use dual_tmux.Binding.Steps.{send-Accepted}
use dual_tmux.Binding.Atomic.{binding_send_error}
use dual_tmux.Binding.Sound.{IsSound, Accepted-IsSound, attempt_id-Accepted}
use dual_tmux.Binding.Machine.{
  Snapshot, Core, BindingMachine, key, init, snapshot_of, persist, finish, attempt, with_payload,
  deliver, send, create, walk_log,
}

module _ (st : StateStore Snapshot) where
  -- What a `send` that returns has done: the core accepted the payload, and the store took the
  -- snapshot of the new core.
  pub record Sent (m n : BindingMachine st.State) (event : BindingEvent) (fields : Fields) (now : ℕ)
      (s : BindingState) : Type 0 where
    pub payload : Payload
    pub valid : validate_payload event fields ≡ ok payload
    pub sent : Machine.send (with_payload st m.core payload) event (λ c. c) now ≡ (n.core, ok s)
    pub saved : persist st n.core m.store ≡ (n.store, none)

  pub send-Sent :
      (m : BindingMachine st.State) (event : BindingEvent) (fields : Fields) (now : ℕ)
      (s : BindingState)
      → (send st m event fields now).1 ≡ ok s
      → Sent m (send st m event fields now).0 event fields now s
  unfolding send
  send-Sent m event fields now s h = by_payload (validate_payload event fields) refl h
    where
      by_save :
          (p : Payload) (d : Core) (t : BindingState) (q : st.State × Option Exn)
          → validate_payload event fields ≡ ok p
          → Machine.send (with_payload st m.core p) event (λ c. c) now ≡ (d, ok t)
          → persist st d m.store ≡ q
          → (finish st m.core d t q).1 ≡ ok s
          → Sent m (finish st m.core d t q).0 event fields now s
      by_save p d t (store, none) v e f k = record { payload = p; valid = v; sent = cc; saved = f }
      by_save p d t (store, some x) v e f k = cc

      by_core :
          (p : Payload) (q : Core × Result BindingState)
          → validate_payload event fields ≡ ok p
          → Machine.send (with_payload st m.core p) event (λ c. c) now ≡ q
          → (attempt st m q).1 ≡ ok s
          → Sent m (attempt st m q).0 event fields now s
      by_core p (d, ok t) v e k = by_save p d t _ v e refl k
      by_core p (d, err x) v e k = cc

      by_payload :
          (r : Result Payload)
          → validate_payload event fields ≡ r
          → (deliver st m event now r).1 ≡ ok s
          → Sent m (deliver st m event now r).0 event fields now s
      by_payload (ok p) v k = by_core p _ v refl k
      by_payload (err e) v k = cc

  -- What a worker reports, and when.
  abbrev pub Report : Type 0
  Report = record { event : BindingEvent; fields : Fields; now : ℕ }

  -- Any reports, accepted or not.
  unfoldable pub run : BindingMachine st.State → List Report → BindingMachine st.State
  run m [] = m
  run m (r ∷ reports) = run (send st m r.event r.fields r.now).0 reports

  -- Between two events the core is sound and the store holds its snapshot.
  pub record IsCurrent (attempt_id : String) (m : BindingMachine st.State) : Type 0 where
    pub sound : IsSound m.core
    pub identity : m.core.context.node.attempt_id ≡ attempt_id
    pub stored : st.load (key attempt_id) m.store ≡ some (snapshot_of m.core)

  module _ (lawful : IsLawful st) (attempt_id : String) where
    load-persist :
        (c : Core) (s t : st.State)
        → persist st c s ≡ (t, none)
        → st.load (key c.context.node.attempt_id) t ≡ some (snapshot_of c)
    unfolding persist
    load-persist c s t h =
        let k = key c.context.node.attempt_id in
        ap (st.load k) (sym (ap (λ p. p.0) h))
        ∙ lawful.load-save k (snapshot_of c) s (ap (λ p. p.1) h) k
        ∙ rw (eq_refl k)

    -- A machine that was created for a legal new node is current.
    pub create-IsCurrent :
        (node : BindingAttemptNode) (store : st.State) (m : BindingMachine st.State)
        → model_validate node ≡ ok node
        → node.state ≡ created
        → node.attempt_id ≡ attempt_id
        → create st node store ≡ (m, none)
        → IsCurrent attempt_id m
    unfolding create init walk_log
    create-IsCurrent node store m legal fresh identity h =
        let made : m ≡ record {
          core = (init node store).core;
          store = (persist st (init node store).core store).0;
        } =
          sym (ap (λ p. p.0) h) in
        let saved : (persist st (init node store).core store).1 ≡ none = ap (λ p. p.1) h in
        subst (IsCurrent attempt_id) (sym made) (record {
          sound = record { graph = refl; state = refl; legal = legal; path = ap ok (sym fresh) };
          identity = identity;
          stored =
              ap (λ k. st.load (key k) (persist st (init node store).core store).0) (sym identity)
              ∙ load-persist (init node store).core store _ (ap₂ (λ a b. (a, b)) refl saved);
        })

    Sent-IsCurrent :
        (m n : BindingMachine st.State) {event : BindingEvent} {fields : Fields} {now : ℕ}
        {s : BindingState}
        → Sent m n event fields now s
        → IsCurrent attempt_id m
        → IsCurrent attempt_id n
    Sent-IsCurrent m n e h =
        let before : IsSound (with_payload st m.core e.payload) = record {
          graph = h.sound.graph;
          state = h.sound.state;
          legal = h.sound.legal;
          path = h.sound.path;
        } in
        let a = send-Accepted refl h.sound.graph e.sent in
        record {
          sound = Accepted-IsSound a before;
          identity = attempt_id-Accepted a ∙ h.identity;
          stored =
              ap (λ k. st.load (key k) n.store) (sym (attempt_id-Accepted a ∙ h.identity))
              ∙ load-persist n.core m.store n.store e.saved;
        }

    pub send-IsCurrent :
        (m : BindingMachine st.State) (event : BindingEvent) (fields : Fields) (now : ℕ)
        → IsCurrent attempt_id m
        → IsCurrent attempt_id (send st m event fields now).0
    send-IsCurrent m event fields now h = elim (Result-cases (send st m event fields now).1) [
      | inl (s, e) ↦ Sent-IsCurrent m _ (send-Sent m event fields now s e) h
      | inr (x, e) ↦
          subst (IsCurrent attempt_id) (sym (binding_send_error st lawful m event fields now x e)) h
    ]

    pub run-IsCurrent :
        (m : BindingMachine st.State) (reports : List Report)
        → IsCurrent attempt_id m
        → IsCurrent attempt_id (run m reports)
    unfolding run
    run-IsCurrent m [] h = h
    run-IsCurrent m (r ∷ reports) h =
        run-IsCurrent (send st m r.event r.fields r.now).0 reports
          (send-IsCurrent m r.event r.fields r.now h)

-- ===== src/Service/Sends.antt =====
-- What the reports of a `ResumeAttempt` do over a lawful store that never raises, when the event
-- log raises nothing but `OSError`.
use dual_tmux.Prelude.{ℕ, String, ◌≡◌, refl, sym, ◌∙◌, ap, Bool, true, Option, none, some, arith}
use dual_tmux.Prelude.{is_some, ◌⊎◌, inl, inr, false, Bool-cases}
use dual_tmux.Resume.Run.{send-Sent}
use dual_tmux.Resume.Atomic.{send_error}
use dual_tmux.Prelude.Result.{Exn, Result, ok, err, Result-cases}
use dual_tmux.Fsm.Machine.{passes}
use dual_tmux.Fsm.Store.{StateStore, IsLawful}
use dual_tmux.Resume.State.{ResumeState, ResumeEvent, rolling_back}
use dual_tmux.Resume.Node.{ResumeAttemptNode, model_validate}
use dual_tmux.Resume.Event.{Payload, Fields, validate_payload}
use dual_tmux.Resume.Chart.{apply_changes}
use dual_tmux.Resume.Steps.{target, guard_of, send-Accepted}
use dual_tmux.Resume.Sound.{IsSound}
use dual_tmux.Resume.Accepted.{IsSteady, send_ok, send-Moved}
use dual_tmux.Resume.Machine.{Snapshot, ResumeMachine, with_payload, send}
use dual_tmux.Service.Errors.{is_os_error, is_machine_error}
use dual_tmux.Service.Attempt.{
  Running, transition, violation, Emission, Digested, quiet, report, send_event,
}

-- A running attempt in state `s`, sound, whose record agrees with its node.
pub record IsHeld {K J W : Type 0} (c : Running K J W) (s : ResumeState) : Type 0 where
  pub sound : IsSound c.attempt.machine.core
  pub state : c.attempt.machine.core.state ≡ s
  pub name : c.attempt.machine.core.context.node.tunnel_name ≡ c.attempt.name
  pub client : c.attempt.machine.core.context.node.claimant_client_id ≡ c.attempt.claimant_client_id
  pub installation :
      c.attempt.machine.core.context.node.claimant_instance_id ≡ c.attempt.claimant_instance_id
  pub explained : s ≡ rolling_back → is_some c.attempt.machine.core.context.node.error ≡ true

-- The outcome of a report that was accepted.
pub record Reached {K J W : Type 0} (c : Running K J W) (t : ResumeState)
    (p : Running K J W × Result ResumeState) : Type 0 where
  pub answer : p.1 ≡ ok t
  pub held : IsHeld p.0 t
  pub world : p.0.world ≡ c.world

-- The outcome of a report that was refused.
pub record Refused {K J W : Type 0} (c : Running K J W) (s : ResumeState)
    (p : Running K J W × Result ResumeState) : Type 0 where
  pub reason : Exn
  pub answer : p.1 ≡ err reason
  pub held : IsHeld p.0 s
  pub world : p.0.world ≡ c.world

abbrev pub is_rolling : ResumeState → Bool
is_rolling rolling_back = true
is_rolling _ = false

some_injective : {A : Type 0} {a b : A} → some a ≡ some b → a ≡ b
some_injective h = cc

-- The event log raises nothing but `OSError`.
abbrev pub IsQuiet : {J : Type 0} → (Emission → J → J × Option Exn) → Type 0
IsQuiet {J} emit = (x : Emission) (j : J) (e : Exn) → (emit x j).1 ≡ some e → is_os_error e ≡ true

tunnel_name-apply_changes :
    (n : ResumeAttemptNode) (p : Payload) → (apply_changes n p).tunnel_name ≡ n.tunnel_name
unfolding apply_changes
tunnel_name-apply_changes n Payload.processing_started = refl
tunnel_name-apply_changes n _ = refl

client-apply_changes :
    (n : ResumeAttemptNode) (p : Payload)
    → (apply_changes n p).claimant_client_id ≡ n.claimant_client_id
unfolding apply_changes
client-apply_changes n Payload.processing_started = refl
client-apply_changes n _ = refl

installation-apply_changes :
    (n : ResumeAttemptNode) (p : Payload)
    → (apply_changes n p).claimant_instance_id ≡ n.claimant_instance_id
unfolding apply_changes
installation-apply_changes n Payload.processing_started = refl
installation-apply_changes n _ = refl

module _ {K J W : Type 0} where
  quiet_same :
      (c : Running K J W) (p : J × Option Exn) (r : Result ResumeState)
      → ((e : Exn) → p.1 ≡ some e → is_os_error e ≡ true)
      → quiet c p r ≡ (record c { journal = p.0 }, r)
  quiet_same c (j, none) r h = refl
  quiet_same c (j, some e) r h = rw (h e refl)

module _ (st : StateStore Snapshot) {J W : Type 0} (emit : Emission → J → J × Option Exn)
    (clock : W → ℕ) (describe : Exn → String) (digest : Digested → String)
    (calm : IsQuiet emit) where
  abbrev Live : Type 0
  Live = Running st.State J W

  report-Held :
      (event : ResumeEvent) (c : Live) (q : ResumeMachine st.State × Result ResumeState)
      (t : ResumeState)
      → q.1 ≡ ok t
      → IsHeld (record c { attempt = record c.attempt { machine = q.0 } }) t
      → Reached c t (report st emit clock describe digest event c q)
  report-Held event c (m, ok s) t e h =
      let d = record c { attempt = record c.attempt { machine = m } } in
      let x = transition c.attempt.name c.attempt.attempt_id event s in
      rw (quiet_same d (emit x c.journal) (ok s) (calm x c.journal)) (record {
        answer = e;
        held = record {
          sound = h.sound;
          state = h.state;
          name = h.name;
          client = h.client;
          installation = h.installation;
          explained = h.explained;
        };
        world = refl;
      })
  report-Held event c (m, err x) t e h = absurd (ground (arith, e))

  report-Refused :
      (event : ResumeEvent) (c : Live) (q : ResumeMachine st.State × Result ResumeState)
      (s : ResumeState) (x : Exn)
      → q.1 ≡ err x
      → q.0 ≡ c.attempt.machine
      → IsHeld c s
      → Refused c s (report st emit clock describe digest event c q)
  report-Refused event c (m, ok t) s x e same h = absurd (ground (arith, e))
  report-Refused event c (m, err y) s x e same h =
      let d = record c { attempt = record c.attempt { machine = m } } in
      let v = violation c.attempt.name c.attempt.attempt_id event y in
      let hushed = quiet_same d (emit v c.journal) (err y) (calm v c.journal) in
      elim (Bool-cases (is_machine_error y)) [
        | inl b ↦ rw b (rw hushed (rw same (kept_by y (emit v c.journal).0)))
        | inr b ↦ rw b (rw same (kept_by y c.journal))
      ]
    where
      kept_by : (z : Exn) (j : J) → Refused c s (record c { journal = j }, err z)
      kept_by z j = record {
        reason = z;
        answer = refl;
        held = record {
          sound = h.sound;
          state = h.state;
          name = h.name;
          client = h.client;
          installation = h.installation;
          explained = h.explained;
        };
        world = refl;
      }

  answered-Reached :
      (event : ResumeEvent) (given : Fields) (c : Live) (p : Payload) (s t : ResumeState)
      → IsHeld c s
      → validate_payload event given ≡ ok p
      → (send st c.attempt.machine event given (clock c.world)).1 ≡ ok t
      → (t ≡ rolling_back
          → is_some (apply_changes c.attempt.machine.core.context.node p).error ≡ true)
      → Reached c t (send_event st emit clock describe digest event given c)
  unfolding send_event
  answered-Reached event given c p s t h checked answer why =
      let m = c.attempt.machine in
      let now = clock c.world in
      let n = m.core.context.node in
      let moved = send-Moved st m event given now p t h.sound checked answer in
      report-Held event c (send st m event given now) t answer (record {
        sound = moved.sound;
        state = moved.state;
        name =
            ap (λ (x : ResumeAttemptNode). x.tunnel_name) moved.node
            ∙ tunnel_name-apply_changes n p
            ∙ h.name;
        client =
            ap (λ (x : ResumeAttemptNode). x.claimant_client_id) moved.node
            ∙ client-apply_changes n p
            ∙ h.client;
        installation =
            ap (λ (x : ResumeAttemptNode). x.claimant_instance_id) moved.node
            ∙ installation-apply_changes n p
            ∙ h.installation;
        explained = λ r. ap (λ (x : ResumeAttemptNode). is_some x.error) moved.node ∙ why r;
      })

  -- A report with a valid payload, an edge, a passed guard and a legal result is accepted.
  pub send_event-Reached :
      (steady : IsSteady st) (event : ResumeEvent) (given : Fields) (c : Live) (p : Payload)
      (s t : ResumeState) {v : ResumeAttemptNode}
      → IsHeld c s
      → validate_payload event given ≡ ok p
      → target s event ≡ some t
      → passes (guard_of event) (with_payload st c.attempt.machine.core p).context ≡ ok true
      → model_validate (record (apply_changes c.attempt.machine.core.context.node p) {
        state = t;
        updated_at = clock c.world;
      })
        ≡ ok v
      → (t ≡ rolling_back
          → is_some (apply_changes c.attempt.machine.core.context.node p).error ≡ true)
      → Reached c t (send_event st emit clock describe digest event given c)
  send_event-Reached steady event given c p s t h checked e passed valid why =
      let m = c.attempt.machine in
      let now = clock c.world in
      let taken = ap (λ x. target x event) h.state ∙ e in
      answered-Reached event given c p s t h checked
        (send_ok st steady m event given now p t h.sound checked taken passed valid) why

  -- A report that the diagram can only lead to `t` is accepted, or refused without a change.
  pub send_event-cases :
      (lawful : IsLawful st) (event : ResumeEvent) (given : Fields) (c : Live) (s t : ResumeState)
      → IsHeld c s
      → target s event ≡ some t
      → is_rolling t ≡ false
      → Reached c t (send_event st emit clock describe digest event given c)
        ⊎ Refused c s (send_event st emit clock describe digest event given c)
  send_event-cases lawful event given c s t h e smooth =
      let m = c.attempt.machine in
      let now = clock c.world in
      elim (Result-cases (send st m event given now).1) [
        | inl (u, answer) ↦
            let sent = send-Sent st m event given now u answer in
            let a = send-Accepted refl h.sound.graph sent.sent in
            let taken = sym a.edge_taken ∙ ap (λ x. target x event) h.state ∙ e in
            let same = some_injective taken in
            inl (
              answered-Reached event given c sent.payload s t h sent.valid (answer ∙ ap ok same)
                (λ r. cc (ap is_rolling r)))
        | inr (x, answer) ↦ inr (
            unfold send_event in
            report-Refused event c (send st m event given now) s x answer
              (send_error st lawful m event given now x answer) h)
      ]

-- ===== src/Resume/Traces.antt =====
-- The histories of a resume attempt: which events led to each state.
use mathlib.Core.List.{append-nil, append_assoc}
use mathlib.Core.Path.{subst}
use dual_tmux.Prelude.{
  ◌≤◌, ◌≡◌, refl, ap, ◌⊎◌, inl, inr, Option, none, some, List, [], ◌∷◌, ◌++◌, map, arith, ◌&&◌,
  Bool-cases, length,
}
use dual_tmux.Prelude.Result.{Result, ok, err, ◌>>=◌}
use dual_tmux.Fsm.Machine.{Entry}
use dual_tmux.Fsm.Store.{StateStore, IsLawful}
use dual_tmux.Resume.State.{
  ResumeState, created, preflighting, acquiring, restoring, verifying, completed, rejected,
  rolling_back, failed, attention, ResumeEvent, processing_started, preflight_passed,
  preflight_rejected, ownership_acquired, ownership_failed, restore_completed, restore_failed,
  verification_passed, verification_failed, rollback_completed, rollback_uncertain, state_eq,
  event_eq,
}
use dual_tmux.Resume.Steps.{target, found, find_transition-resume_graph}
use dual_tmux.Resume.Node.{ResumeAttemptNode, model_validate}
use dual_tmux.Resume.Sound.{IsSound}
use dual_tmux.Resume.Run.{Report, run, run-IsCurrent, create-IsCurrent}
use dual_tmux.Resume.Machine.{
  Snapshot, Core, Log, ResumeMachine, create, item, agreed, matches, check_item, walk_log,
}

abbrev pub claimed : List ResumeEvent
claimed = processing_started ∷ preflight_passed ∷ ownership_acquired ∷ []

-- The accepted events, in order, that can lead from `created` to a state.
abbrev pub Story : ResumeState → List ResumeEvent → Type 0
Story created es = es ≡ []
Story preflighting es = es ≡ processing_started ∷ []
Story acquiring es = es ≡ processing_started ∷ preflight_passed ∷ []
Story rejected es = es ≡ processing_started ∷ preflight_rejected ∷ []
Story restoring es = es ≡ claimed
Story verifying es = es ≡ claimed ++ (restore_completed ∷ [])
Story completed es = es ≡ claimed ++ (restore_completed ∷ verification_passed ∷ [])
Story rolling_back es =
    (es ≡ claimed ++ (restore_failed ∷ []))
    ⊎ (es ≡ claimed ++ (restore_completed ∷ verification_failed ∷ []))
Story failed es =
    (es ≡ processing_started ∷ preflight_passed ∷ ownership_failed ∷ [])
    ⊎ (es ≡ claimed ++ (restore_failed ∷ rollback_completed ∷ []))
    ⊎ (es ≡ claimed ++ (restore_completed ∷ verification_failed ∷ rollback_completed ∷ []))
Story attention es =
    (es ≡ claimed ++ (restore_failed ∷ rollback_uncertain ∷ []))
    ⊎ (es ≡ claimed ++ (restore_completed ∷ verification_failed ∷ rollback_uncertain ∷ []))

abbrev Told : Option ResumeState → List ResumeEvent → Type 0
Told none es = Unit
Told (some t) es = Story t es

more : {es fs : List ResumeEvent} (e : ResumeEvent) → es ≡ fs → es ++ (e ∷ []) ≡ fs ++ (e ∷ [])
more e h = ap (λ l. l ++ (e ∷ [])) h

Story-target :
    (s : ResumeState) (e : ResumeEvent) (es : List ResumeEvent)
    → Story s es
    → Told (target s e) (es ++ (e ∷ []))
Story-target created processing_started es h = more processing_started h
Story-target preflighting preflight_passed es h = more preflight_passed h
Story-target preflighting preflight_rejected es h = more preflight_rejected h
Story-target acquiring ownership_acquired es h = more ownership_acquired h
Story-target acquiring ownership_failed es h = inl (more ownership_failed h)
Story-target restoring restore_completed es h = more restore_completed h
Story-target restoring restore_failed es h = inl (more restore_failed h)
Story-target verifying verification_passed es h = more verification_passed h
Story-target verifying verification_failed es h = inr (more verification_failed h)
Story-target rolling_back rollback_completed es (inl h) = inr (inl (more rollback_completed h))
Story-target rolling_back rollback_completed es (inr h) = inr (inr (more rollback_completed h))
Story-target rolling_back rollback_uncertain es (inl h) = inl (more rollback_uncertain h)
Story-target rolling_back rollback_uncertain es (inr h) = inr (more rollback_uncertain h)
Story-target _ _ es h = tt

abbrev pub events : Log → List ResumeEvent
events = map (λ e. e.event)

agreed-found :
    (f : ResumeState) (to : ResumeState) (s : ResumeState) (e : ResumeEvent)
    (o : Option ResumeState) (t : ResumeState)
    → agreed (some f) (some to) s (found s e o) ≡ ok t
    → o ≡ some t
agreed-found f to s e none t h = cc
agreed-found f to s e (some u) t h = elim (Bool-cases (matches (some f) s && matches (some to) u)) [
  | inl p ↦ cc (rw p at h)
  | inr p ↦ cc (rw p at h)
]

check_item-target :
    (s : ResumeState) (e : Entry ResumeState ResumeEvent) (t : ResumeState)
    → check_item s (item e) ≡ ok t
    → target s e.event ≡ some t
unfolding check_item
check_item-target s e t h =
    agreed-found e.from e.to s e.event (target s e.event) t
      (rw (find_transition-resume_graph s e.event) at h)

-- A chain that returns has returned from its first step.
bind_returns :
    {X Y : Type 0} (step : Result X) (next : X → Result Y) {y : Y}
    → (step >>= next) ≡ ok y
    → (x : X) × (step ≡ ok x) × (next x ≡ ok y)
bind_returns (err raised) next e = cc
bind_returns (ok x) next e = (x, refl, e)

walk_log-Story :
    (s t : ResumeState) (es : List ResumeEvent) (l : Log)
    → Story s es
    → walk_log s (map item l) ≡ ok t
    → Story t (es ++ events l)
unfolding walk_log
walk_log-Story s t es [] told h =
    let same : s ≡ t = cc in subst (λ x. Story x (es ++ [])) same (rw (append-nil es) told)
walk_log-Story s t es (e ∷ l) told h =
    let (u, first, rest) = bind_returns (check_item s (item e)) (λ x. walk_log x (map item l)) h in
    let next =
      subst (λ o. Told o (es ++ (e.event ∷ []))) (check_item-target s e u first)
        (Story-target s e.event es told) in
    subst (Story t) (append_assoc es (e.event ∷ []) (events l))
      (walk_log-Story u t (es ++ (e.event ∷ [])) l next rest)

Story-IsSound : (c : Core) → IsSound c → Story c.state (events c.log)
Story-IsSound c h = walk_log-Story created c.state [] c.log refl h.path

length-Story : (s : ResumeState) (es : List ResumeEvent) → Story s es → length es ≤ 6
length-Story rolling_back es h = ground arith
length-Story _ es h = ground arith

module _ (st : StateStore Snapshot) (lawful : IsLawful st) (node : ResumeAttemptNode)
    (store : st.State) (m : ResumeMachine st.State) (legal : model_validate node ≡ ok node)
    (fresh : node.state ≡ created) (made : create st node store ≡ (m, none)) where
  pub run-IsSound : (reports : List (Report st)) → IsSound (run st m reports).core
  run-IsSound reports =
      (run-IsCurrent st lawful node.attempt_id m reports
        (create-IsCurrent st lawful node.attempt_id node store m legal fresh refl made)).sound

  -- In every run of an attempt that was created from a valid new node over a lawful store, the
  -- accepted events are those that lead to its state in the diagram: a restore comes only after a
  -- passed preflight and an acquired ownership, completion only after a restore and a passed
  -- verification, and an attempt that has acquired fails only through a rollback.
  pub run-Story :
      (reports : List (Report st))
      → Story (run st m reports).core.state (events (run st m reports).core.log)
  run-Story reports = Story-IsSound (run st m reports).core (run-IsSound reports)

  -- However many events are sent in a run of an attempt that was created from a valid new node over
  -- a lawful store, at most six are accepted.
  pub length-run : (reports : List (Report st)) → length (events (run st m reports).core.log) ≤ 6
  length-run reports = length-Story _ _ (run-Story reports)

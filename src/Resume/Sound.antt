-- ===== src/Resume/Sound.antt =====
-- What holds of a resume attempt between two events, and what its snapshot says.
use mathlib.Core.List.{map-append}
use mathlib.Core.Path.{fun_ext}
use dual_tmux.Prelude.{ℕ, ◌≡◌, refl, sym, ◌∙◌, ap, some, List, [], ◌∷◌, ◌++◌, map, arith, beq_refl}
use dual_tmux.Prelude.Result.{ok, ◌>>=◌, >>=-ok, >>=-assoc}
use dual_tmux.Resume.State.{ResumeState, ResumeEvent, created, state_eq, event_eq}
use dual_tmux.Resume.Node.{ResumeAttemptNode, model_validate}
use dual_tmux.Resume.Event.{Payload}
use dual_tmux.Resume.Chart.{apply_changes, resume_graph}
use dual_tmux.Resume.Steps.{target, entry, Accepted, find_transition-resume_graph}
use dual_tmux.Resume.Machine.{LogItem, Core, item, check_item, walk_log}

-- A node that validation returns is the node that it was given.
pub model_validate-eq :
    (n : ResumeAttemptNode) {v : ResumeAttemptNode} → model_validate n ≡ ok v → n ≡ v
unfolding model_validate
model_validate-eq n h = ground arith

attempt_id-apply_changes :
    (n : ResumeAttemptNode) (p : Payload) → (apply_changes n p).attempt_id ≡ n.attempt_id
unfolding apply_changes
attempt_id-apply_changes n Payload.processing_started = refl
attempt_id-apply_changes n _ = refl

walk_log-append :
    (s : ResumeState) (l : List LogItem) (i : LogItem)
    → walk_log s (l ++ (i ∷ [])) ≡ (walk_log s l >>= λ t. check_item t i)
unfolding walk_log
walk_log-append s [] i = >>=-ok (check_item s i)
walk_log-append s (j ∷ l) i =
    ap (λ k. check_item s j >>= k) (fun_ext (λ t. walk_log-append t l i))
    ∙ >>=-assoc (check_item s j) (λ t. walk_log t l) (λ t. check_item t i)

check_item-entry :
    (s t : ResumeState) (e : ResumeEvent) (now : ℕ)
    → target s e ≡ some t
    → check_item s (item (entry s t e now)) ≡ ok t
unfolding check_item
check_item-entry s t e now h =
    rw find_transition-resume_graph (rw h (rw (beq_refl s) (rw (beq_refl t))))

-- The facts that every operation keeps.
pub record IsSound (c : Core) : Type 0 where
  pub graph : c.graph ≡ resume_graph
  pub state : c.context.node.state ≡ c.state
  pub legal : model_validate c.context.node ≡ ok c.context.node
  pub path : walk_log created (map item c.log) ≡ ok c.state

pub Accepted-IsSound :
    {c d : Core} {p : Payload} {event : ResumeEvent} {now : ℕ} {s : ResumeState}
    → Accepted c d p event now s
    → IsSound c
    → IsSound d
Accepted-IsSound {c} {d} {p} {event} {now} {s} a h =
    let same = model_validate-eq _ a.validated in
    let last = item (entry c.state s event now) in
    record {
      graph = a.graph ∙ h.graph;
      state = sym (ap (λ (n : ResumeAttemptNode). n.state) same) ∙ sym a.state;
      legal = ap model_validate (sym same) ∙ a.validated;
      path =
          ap (λ l. walk_log created (map item l)) a.log
          ∙ ap (walk_log created) (map-append item c.log (entry c.state s event now ∷ []))
          ∙ walk_log-append created (map item c.log) last
          ∙ ap (λ r. r >>= λ t. check_item t last) h.path
          ∙ check_item-entry c.state s event now a.edge_taken
          ∙ ap ok (sym a.state);
    }

-- The attempt keeps its identity.
pub attempt_id-Accepted :
    {c d : Core} {p : Payload} {event : ResumeEvent} {now : ℕ} {s : ResumeState}
    → Accepted c d p event now s
    → d.context.node.attempt_id ≡ c.context.node.attempt_id
attempt_id-Accepted {c} {p} a =
    ap (λ (n : ResumeAttemptNode). n.attempt_id) (sym (model_validate-eq _ a.validated))
    ∙ attempt_id-apply_changes c.context.node p

-- ===== src/Resume/Legal.antt =====
-- The changes of a legal resume attempt that are legal again.
use dual_tmux.Prelude.{ℕ, String, Bool, true, ◌≡◌, refl, none, some, arith, List, []}
use dual_tmux.Prelude.Result.{Exn, Result, ok, guard, ◌>>◌}
use dual_tmux.Resume.State.{
  created, preflighting, acquiring, restoring, verifying, completed, rejected, rolling_back, failed,
  state_eq,
}
use dual_tmux.Resume.Node.{
  ResumeAttemptNode, ResumeError, OccupancyToken, model_validate, node_fields, legal_state_facts,
  token_facts, error_fields, token_fields, needs_ownership, needs_error, completed_facts, each,
  evidence_fields,
}
use dual_tmux.Resume.Chart.{token_matches}
use dual_tmux.Prelude.{
  starts_with, nonempty, leb, distinct, length, is_some, not, ◌||◌, ◌&&◌, ◌==◌, if◌then◌else◌,
  nat_eq, string_eq,
}

token_facts-matches :
    (n : ResumeAttemptNode) (t : OccupancyToken)
    → token_matches n t ≡ true
    → token_facts n (some t) ≡ ok tt
unfolding token_facts token_matches
token_facts-matches n t h = ground arith

pub validated_fields :
    (n : ResumeAttemptNode) {v : ResumeAttemptNode}
    → model_validate n ≡ ok v
    → (node_fields n ≡ true) × (legal_state_facts n ≡ ok tt)
unfolding model_validate
validated_fields n h = ground arith

validated_by :
    (n : ResumeAttemptNode)
    → node_fields n ≡ true
    → legal_state_facts n ≡ ok tt
    → model_validate n ≡ ok n
unfolding model_validate
validated_by n f g = ground arith

-- The five checks of `legal_state_facts`.
record IsLegal (n : ResumeAttemptNode) : Type 0 where
  claimed : (not (needs_ownership n.state) || is_some n.ownership_token) ≡ true
  token : token_facts n n.ownership_token ≡ ok tt
  done :
      (if n.state == completed then completed_facts n n.verification n.ownership_token else ok tt)
      ≡ ok tt
  explained : (not (needs_error n.state) || is_some n.error) ≡ true
  apart : (length (distinct n.transfer_ids) == length n.transfer_ids) ≡ true

chained :
    {a b c : Bool} (x y z : Exn) (r s : Result (Unit {0}))
    → (do guard a x; r; s; guard b y; guard c z) ≡ ok tt
    → (a ≡ true) × (r ≡ ok tt) × (s ≡ ok tt) × (b ≡ true) × (c ≡ true)
chained x y z r s h = ground arith

legal_state_facts-IsLegal : (n : ResumeAttemptNode) → legal_state_facts n ≡ ok tt → IsLegal n
unfolding legal_state_facts
legal_state_facts-IsLegal n h =
    let (a, b, c, d, e) = chained _ _ _ _ _ h in
    record { claimed = a; token = b; done = c; explained = d; apart = e }

IsLegal-legal_state_facts : (n : ResumeAttemptNode) → IsLegal n → legal_state_facts n ≡ ok tt
unfolding legal_state_facts
IsLegal-legal_state_facts n l = rw (l.claimed, l.token, l.done, l.explained, l.apart)

swap_sixth :
    (a b c d e f g h i : Bool) {x : Bool}
    → (a && b && c && d && e && f && g && h && i) ≡ true
    → x ≡ true
    → (a && b && c && d && e && x && g && h && i) ≡ true
swap_sixth a b c d e f g h i p q = ground arith

swap_seventh :
    (a b c d e f g h i : Bool) {x : Bool}
    → (a && b && c && d && e && f && g && h && i) ≡ true
    → x ≡ true
    → (a && b && c && d && e && f && x && h && i) ≡ true
swap_seventh a b c d e f g h i p q = ground arith

drop_error :
    (a b c d e f g h i : Bool)
    → (a && b && c && d && e && f && g && h && i) ≡ true
    → (a && b && c && d && e && f && g && h && true) ≡ true
drop_error a b c d e f g h i p = ground arith

node_fields-token :
    (n : ResumeAttemptNode) (t : OccupancyToken) (now : ℕ)
    → token_fields t ≡ true
    → node_fields n ≡ true
    → node_fields
        (record n { ownership_token = some t; error = none; state = restoring; updated_at = now })
      ≡ true
unfolding node_fields
node_fields-token n t now f h =
    swap_sixth (nonempty n.attempt_id) (nonempty n.idempotency_key)
      (starts_with n.tunnel_name "dt-") (nonempty n.claimant_client_id)
      (nonempty n.claimant_instance_id) (each token_fields n.ownership_token)
      (leb (length n.transfer_ids) 2) (each evidence_fields n.verification) true
      (drop_error (nonempty n.attempt_id) (nonempty n.idempotency_key)
        (starts_with n.tunnel_name "dt-") (nonempty n.claimant_client_id)
        (nonempty n.claimant_instance_id) (each token_fields n.ownership_token)
        (leb (length n.transfer_ids) 2) (each evidence_fields n.verification)
        (each error_fields n.error) h)
      f

node_fields-transfer :
    (n : ResumeAttemptNode) (now : ℕ)
    → node_fields n ≡ true
    → node_fields (record n { transfer_ids = []; state = verifying; updated_at = now }) ≡ true
unfolding node_fields
node_fields-transfer n now h =
    swap_seventh (nonempty n.attempt_id) (nonempty n.idempotency_key)
      (starts_with n.tunnel_name "dt-") (nonempty n.claimant_client_id)
      (nonempty n.claimant_instance_id) (each token_fields n.ownership_token)
      (leb (length n.transfer_ids) 2) (each evidence_fields n.verification)
      (each error_fields n.error) h refl

module _ (n : ResumeAttemptNode) (now : ℕ) (h : model_validate n ≡ ok n) where
  pub legal_preflighting :
      n.state ≡ created
      → model_validate (record n { state = preflighting; updated_at = now })
        ≡ ok (record n { state = preflighting; updated_at = now })
  unfolding model_validate node_fields legal_state_facts token_facts
  legal_preflighting s = ground arith

  pub legal_rejected :
      (e : ResumeError)
      → error_fields e ≡ true
      → n.state ≡ preflighting
      → model_validate (record n { error = some e; state = rejected; updated_at = now })
        ≡ ok (record n { error = some e; state = rejected; updated_at = now })
  unfolding model_validate node_fields legal_state_facts token_facts
  legal_rejected e g s = ground arith

  pub legal_acquiring :
      (revisions : List String)
      → n.state ≡ preflighting
      → model_validate (record n {
        expected_binding_revisions = revisions;
        error = none;
        state = acquiring;
        updated_at = now;
      })
        ≡ ok (record n {
          expected_binding_revisions = revisions;
          error = none;
          state = acquiring;
          updated_at = now;
        })
  unfolding model_validate node_fields legal_state_facts token_facts
  legal_acquiring revisions s = ground arith

  pub legal_restoring :
      (t : OccupancyToken)
      → token_fields t ≡ true
      → token_matches n t ≡ true
      → n.state ≡ acquiring
      → model_validate
          (record n { ownership_token = some t; error = none; state = restoring; updated_at = now })
        ≡ ok (record n {
          ownership_token = some t;
          error = none;
          state = restoring;
          updated_at = now;
        })
  unfolding token_facts
  legal_restoring t f g s =
      let (fields, facts) = validated_fields n h in
      let l = legal_state_facts-IsLegal n facts in
      validated_by
        (record n { ownership_token = some t; error = none; state = restoring; updated_at = now })
        (node_fields-token n t now f fields)
        (IsLegal-legal_state_facts _ (record {
          claimed = refl;
          token = token_facts-matches n t g;
          done = refl;
          explained = refl;
          apart = l.apart;
        }))

  pub legal_unclaimed :
      (e : ResumeError)
      → error_fields e ≡ true
      → n.state ≡ acquiring
      → model_validate (record n { error = some e; state = failed; updated_at = now })
        ≡ ok (record n { error = some e; state = failed; updated_at = now })
  unfolding model_validate node_fields legal_state_facts token_facts
  legal_unclaimed e g s = ground arith

  pub legal_verifying :
      n.state ≡ restoring
      → model_validate (record n { transfer_ids = []; state = verifying; updated_at = now })
        ≡ ok (record n { transfer_ids = []; state = verifying; updated_at = now })
  unfolding token_facts distinct
  legal_verifying s =
      let (fields, facts) = validated_fields n h in
      let l = legal_state_facts-IsLegal n facts in
      validated_by (record n { transfer_ids = []; state = verifying; updated_at = now })
        (node_fields-transfer n now fields)
        (IsLegal-legal_state_facts _ (record {
          claimed = rw s at l.claimed;
          token = l.token;
          done = refl;
          explained = refl;
          apart = refl;
        }))

  pub legal_rolling_back :
      (e : ResumeError)
      → error_fields e ≡ true
      → needs_ownership n.state ≡ true
      → model_validate (record n { error = some e; state = rolling_back; updated_at = now })
        ≡ ok (record n { error = some e; state = rolling_back; updated_at = now })
  unfolding model_validate node_fields legal_state_facts token_facts
  legal_rolling_back e g s = ground arith

  pub legal_failed :
      (evidence : List String)
      → is_some n.error ≡ true
      → n.state ≡ rolling_back
      → model_validate (record n { rollback_evidence = evidence; state = failed; updated_at = now })
        ≡ ok (record n { rollback_evidence = evidence; state = failed; updated_at = now })
  unfolding model_validate node_fields legal_state_facts token_facts
  legal_failed evidence g s = ground arith

-- ===== src/Connector/Examples.antt =====
-- A connector whose process has died.
use dual_tmux.Prelude.{ℕ, ◌≡◌, refl, true, false, [], ◌∷◌, arith}
use dual_tmux.Connector.Manager.{backoff_seconds, ConnectorManager, Lease, Input, step}
use dual_tmux.Connector.Backoff.{starts, run, step-lease, starts-run-failed}

abbrev manager : ConnectorManager
manager = record {
  has_process = true;
  failures = 1;
  next_start_at = 40;
  owner = "laptop";
  generation = 3;
  has_lease = true;
}

abbrev input_at : ℕ → Input
input_at now = record {
  now = now;
  installed = true;
  lease = Lease.answered true "laptop" 3;
  alive = false;
}

abbrev running : Input
running = record (input_at 100) { alive = true }

step-lease_example : (true ≡ true) × (true ≡ true) × ((step running manager).1.has_lease ≡ true)
unfolding step
step-lease_example = step-lease running manager refl

starts-run-failed_example :
    starts (run manager (input_at 100 ∷ input_at 105 ∷ input_at 114 ∷ [])) ≡ 0
unfolding backoff_seconds
starts-run-failed_example =
    starts-run-failed manager (input_at 100) (input_at 105 ∷ input_at 114 ∷ []) refl refl refl refl
      (refl, refl, omega arith, (refl, refl, omega arith, tt))

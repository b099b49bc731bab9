-- ===== src/Activity/Examples.antt =====
-- A side that works, falls silent, and is called stalled.
use dual_tmux.Prelude.{ℕ, ◌≡◌, refl, true, Option, some, none, List, [], ◌∷◌, arith}
use dual_tmux.Activity.Sample.{
  Probe, working_phase, trigger, no_evidence, stalled, state_of, last_change, sample,
}
use dual_tmux.Prelude.{String, select, ◌==◌, string_eq, if◌then◌else◌}
use dual_tmux.Activity.Source.{preferred_source, least, newest_epoch}
use dual_tmux.Activity.Newest.{IsPreferred, preferred_source-IsPreferred}
use dual_tmux.Activity.Stalled.{Unchanged, samples, samples-Unchanged}

abbrev busy : Probe
busy = record {
  pane = "op_demo";
  has_session = true;
  phase = working_phase;
  fingerprint = "f";
  command = "node";
  attached_clients = some 1;
}

abbrev rounds : List (ℕ × Option Probe)
rounds = (100, some busy) ∷ (400, none) ∷ (800, some busy) ∷ []

ends_stalled : (samples trigger "dt-demo" no_evidence rounds).state ≡ stalled
unfolding samples sample state_of last_change
ends_stalled = refl

samples-Unchanged_example :
    Unchanged (samples trigger "dt-demo" no_evidence rounds).sampled_at "" rounds
samples-Unchanged_example =
    samples-Unchanged trigger "dt-demo" no_evidence rounds
      (record { quiet = λ s. cc; past = omega arith; known = λ s. cc })
      (omega arith, omega arith, (omega arith, omega arith, (omega arith, omega arith, tt)))
      ends_stalled

-- Three sources, of which one has no tick.
abbrev ticks : String → ℕ
ticks s = if s == "tm_laptop" then 20 else if s == "tm_office" then 30 else 0

preferred_source-IsPreferred_example :
    IsPreferred
      (λ s. true)
      ticks
      "tm_laptop"
      ("tm_home" ∷ "tm_office" ∷ [])
      "tm_laptop"
      (preferred_source (λ s. true) ticks "tm_laptop" ("tm_home" ∷ "tm_office" ∷ []))
preferred_source-IsPreferred_example =
    preferred_source-IsPreferred (λ s. true) ticks "tm_laptop" ("tm_home" ∷ "tm_office" ∷ [])
      "tm_laptop" (unfold select in refl) (omega arith)

prefers_office :
    preferred_source (λ s. true) ticks "tm_laptop" ("tm_home" ∷ "tm_office" ∷ []) ≡ "tm_office"
unfolding preferred_source select least newest_epoch
prefers_office = refl

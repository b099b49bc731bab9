-- ===== src/Activity/Stalled.antt =====
-- A side is called stalled only after ten minutes without a change.
use mathlib.Core.Path.{subst}
use dual_tmux.Prelude.{
  ℕ, String, ◌+◌, ◌≤◌, ◌<◌, ◌≡◌, ◌≢◌, refl, eq_iff, Option, none, some, List, [], ◌∷◌, arith,
}
use dual_tmux.Activity.Sample.{
  stalled, Role, Evidence, Probe, stall_seconds, last_change, state_of, sample,
}

-- What the word says, and that no change is noted later than the last sample.
pub record IsTimely (e : Evidence) : Type 0 where
  pub quiet : e.state ≡ stalled → e.last_semantic_change_at + stall_seconds ≤ e.sampled_at
  pub past : e.last_semantic_change_at ≤ e.sampled_at
  pub known : e.state ≡ stalled → 0 < e.last_semantic_change_at

stalled_quiet :
    (p : Probe) (prior : Evidence) (epoch : ℕ)
    → IsTimely prior
    → prior.sampled_at ≤ epoch
    → state_of p prior epoch ≡ stalled
    → last_change p prior epoch + stall_seconds ≤ epoch
unfolding state_of last_change
stalled_quiet p prior epoch h later s = let a = h.quiet in let b = h.known in ground arith

change_past :
    (p : Probe) (prior : Evidence) (epoch : ℕ)
    → prior.last_semantic_change_at ≤ epoch
    → last_change p prior epoch ≤ epoch
unfolding last_change
change_past p prior epoch h = ground arith

change_later :
    (p : Probe) (prior : Evidence) (epoch : ℕ)
    → prior.last_semantic_change_at ≤ epoch
    → prior.last_semantic_change_at ≤ last_change p prior epoch
unfolding last_change
change_later p prior epoch h = ground arith

stalled_known :
    (p : Probe) (prior : Evidence) (epoch : ℕ) → 0 < epoch → 0 < last_change p prior epoch
unfolding last_change
stalled_known p prior epoch h = ground arith

sample-IsTimely :
    (role : Role) (name : String) (prior : Evidence) (epoch : ℕ) (probe : Option Probe)
    → IsTimely prior
    → prior.sampled_at ≤ epoch
    → 0 < epoch
    → IsTimely (sample role name prior epoch probe).0
unfolding sample
sample-IsTimely role name prior epoch none h later now = record {
  quiet = λ s. cc;
  past = omega (arith, h.past, later);
  known = λ s. cc;
}
sample-IsTimely role name prior epoch (some p) h later now = record {
  quiet = stalled_quiet p prior epoch h later;
  past = change_past p prior epoch (omega (arith, h.past, later));
  known = λ s. stalled_known p prior epoch now;
}

-- Samples one after the other, at the times of the clock.
unfoldable pub samples : Role → String → Evidence → List (ℕ × Option Probe) → Evidence
samples role name e [] = e
samples role name e ((epoch, probe) ∷ rest) =
    samples role name (sample role name e epoch probe).0 rest

-- The clock shows a time after `t` and never goes back.
abbrev pub InOrder : ℕ → List (ℕ × Option Probe) → Type 0
InOrder t [] = Unit
InOrder t ((epoch, probe) ∷ rest) = (t ≤ epoch) × (0 < epoch) × InOrder epoch rest

sampled_at-sample :
    (role : Role) (name : String) (prior : Evidence) (epoch : ℕ) (probe : Option Probe)
    → (sample role name prior epoch probe).0.sampled_at ≡ epoch
unfolding sample
sampled_at-sample role name prior epoch none = refl
sampled_at-sample role name prior epoch (some p) = refl

sample_later :
    (role : Role) (name : String) (prior : Evidence) (epoch : ℕ) (probe : Option Probe)
    → prior.last_semantic_change_at ≤ epoch
    → prior.last_semantic_change_at ≤ (sample role name prior epoch probe).0.last_semantic_change_at
unfolding sample
sample_later role name prior epoch none h = omega arith
sample_later role name prior epoch (some p) h = change_later p prior epoch h

fingerprint-sample_raised :
    (role : Role) (name : String) (prior : Evidence) (epoch : ℕ)
    → (sample role name prior epoch none).0.semantic_fingerprint ≡ prior.semantic_fingerprint
unfolding sample
fingerprint-sample_raised role name prior epoch = refl

fingerprint-sample :
    (role : Role) (name : String) (prior : Evidence) (epoch : ℕ) (p : Probe)
    → (sample role name prior epoch (some p)).0.semantic_fingerprint ≡ p.fingerprint
unfolding sample
fingerprint-sample role name prior epoch p = refl

-- A new fingerprint is noted at the time of its sample.
last_change-new :
    (role : Role) (name : String) (prior : Evidence) (epoch : ℕ) (p : Probe)
    → p.fingerprint ≢ ""
    → p.fingerprint ≢ prior.semantic_fingerprint
    → (sample role name prior epoch (some p)).0.last_semantic_change_at ≡ epoch
unfolding sample last_change
last_change-new role name prior epoch p given new =
    ground (arith, eq_iff p.fingerprint "", eq_iff p.fingerprint prior.semantic_fingerprint)

-- The evidence after some samples is timely, and no change that it notes is earlier than before.
samples_later :
    (role : Role) (name : String) (e : Evidence) (rounds : List (ℕ × Option Probe))
    → IsTimely e
    → InOrder e.sampled_at rounds
    → let f = samples role name e rounds in
      IsTimely f × (e.last_semantic_change_at ≤ f.last_semantic_change_at)
unfolding samples
samples_later role name e [] h order = (h, omega arith)
samples_later role name e ((epoch, probe) ∷ rest) h (later, now, order) =
    let s = (sample role name e epoch probe).0 in
    let timely = sample-IsTimely role name e epoch probe h later now in
    let (last, grows) =
      samples_later role name s rest timely
        (rw (sampled_at-sample role name e epoch probe) order) in
    (
      last,
      omega (arith, grows, sample_later role name e epoch probe (omega (arith, h.past, later))),
    )

-- Every sample of the rounds that showed a fingerprint other than the one before it, which was
-- `shown` at first, was taken ten minutes before `end` or earlier.
abbrev pub Unchanged : ℕ → String → List (ℕ × Option Probe) → Type 0
Unchanged end shown [] = Unit
Unchanged end shown ((epoch, none) ∷ rest) = Unchanged end shown rest
Unchanged end shown ((epoch, some p) ∷ rest) =
    (p.fingerprint ≢ "" → p.fingerprint ≢ shown → epoch + 600 ≤ end)
    × Unchanged end p.fingerprint rest

-- From evidence that is timely, or from none, and whatever the probes answer or raise: while the
-- clock does not go back and shows no 0, a side that is called stalled after the samples has shown no
-- new fingerprint in the ten minutes before the last of them. A fingerprint is new if it is not empty
-- and differs from that of the last sample that did not raise.
pub samples-Unchanged :
    (role : Role) (name : String) (e : Evidence) (rounds : List (ℕ × Option Probe))
    → IsTimely e
    → InOrder e.sampled_at rounds
    → let f = samples role name e rounds in
      (f.state ≡ stalled → Unchanged f.sampled_at e.semantic_fingerprint rounds)
unfolding samples
samples-Unchanged role name e [] h order s = tt
samples-Unchanged role name e ((epoch, none) ∷ rest) h (later, now, order) s =
    let timely = sample-IsTimely role name e epoch none h later now in
    subst
      (λ (x : String).
        Unchanged (samples role name (sample role name e epoch none).0 rest).sampled_at x rest)
      (fingerprint-sample_raised role name e epoch)
      (samples-Unchanged role name (sample role name e epoch none).0 rest timely
        (rw (sampled_at-sample role name e epoch none) order) s)
samples-Unchanged role name e ((epoch, some p) ∷ rest) h (later, now, order) s =
    let r = (sample role name e epoch (some p)).0 in
    let timely = sample-IsTimely role name e epoch (some p) h later now in
    let ordered : InOrder r.sampled_at rest =
      rw (sampled_at-sample role name e epoch (some p)) order in
    let (last, grows) = samples_later role name r rest timely ordered in
    (
      λ given new.
          let changed = last_change-new role name e epoch p given new in
          omega (arith, last.quiet s, grows, changed),
      subst (λ (x : String). Unchanged (samples role name r rest).sampled_at x rest)
          (fingerprint-sample role name e epoch p)
          (samples-Unchanged role name r rest timely ordered s),
    )

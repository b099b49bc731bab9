-- ===== src/Occupancy/Fence.antt =====
-- The generation as a fence: what a verified resume says about the other Clients.
use dual_tmux.Prelude.{
  ℕ, ◌+◌, ◌≤◌, ◌<◌, ◌≡◌, ◌∙◌, sym, refl, inl, inr, Bool-cases, String, true, false, List, [], ◌∷◌,
  arith,
}
use dual_tmux.Prelude.{◌==◌, string_eq, beq_refl, eq_iff}
use dual_tmux.Prelude.Result.{ok}
use dual_tmux.Occupancy.Hub.{
  Files, Action, read, claim, release, holder, generation, next_generation, script,
}
use dual_tmux.Occupancy.Client.{AppConfig, reached, remote, read_occupancy, claim_occupancy}
use dual_tmux.Occupancy.Resume.{Plan, Token, Verified, acquire_for_resume, verify_resume}

-- A call of another moment, by any Client: the action, the Client and the time.
abbrev pub Call : Type 0
Call = Action × String × ℕ

unfoldable pub calls : Files → List Call → Files
calls f [] = f
calls f ((action, client, now) ∷ later) = calls (script action client now f).0 later

abbrev Kept : Action → Type 0
Kept release = ⊥
Kept _ = Unit

-- No call is a release.
abbrev pub NoRelease : List Call → Type 0
NoRelease [] = Unit
NoRelease ((action, client, now) ∷ later) = Kept action × NoRelease later

abbrev ClaimsOnly : String → Action → String → Type 0
ClaimsOnly me claim client = client ≡ me
ClaimsOnly me _ client = Unit

-- Every claim is one of `me`.
abbrev pub OnlyClaims : String → List Call → Type 0
OnlyClaims me [] = Unit
OnlyClaims me ((action, client, now) ∷ later) = ClaimsOnly me action client × OnlyClaims me later

pub holder-claim : (me : String) (now : ℕ) (f : Files) → holder (script claim me now f).0 ≡ me
unfolding script holder
holder-claim me now f = ground arith

generation-claim :
    (me : String) (now : ℕ) (f : Files)
    → generation (script claim me now f).0 ≡ next_generation me f
unfolding script generation
generation-claim me now f = refl

next_generation-foreign :
    (me : String) (f : Files) → (holder f == me) ≡ false → next_generation me f ≡ generation f + 1
unfolding next_generation
next_generation-foreign me f h = ground arith

next_generation-mine :
    (me : String) (f : Files)
    → holder f ≡ me
    → 0 < generation f
    → next_generation me f ≡ generation f
unfolding next_generation
next_generation-mine me f h g = rw (h, next_generation) (rw (beq_refl me) (ground arith))

next_generation-grows : (me : String) (f : Files) → generation f ≤ next_generation me f
unfolding next_generation
next_generation-grows me f = ground arith

calls-generation : (f : Files) (l : List Call) → NoRelease l → generation f ≤ generation (calls f l)
unfolding calls script
calls-generation f [] k = omega arith
calls-generation f ((read, client, now) ∷ l) (k, ks) = calls-generation f l ks
calls-generation f ((claim, client, now) ∷ l) (k, ks) = omega (
  arith,
  calls-generation (script claim client now f).0 l ks,
  generation-claim client now f,
  next_generation-grows client f,
)
calls-generation f ((release, client, now) ∷ l) (k, ks) = elim k [ ]

-- If the generation is what it was, nobody but the holder has claimed, and he is the holder still.
fence :
    (me : String) (f : Files) (l : List Call)
    → NoRelease l
    → holder f ≡ me
    → 0 < generation f
    → generation (calls f l) ≡ generation f
    → OnlyClaims me l × (holder (calls f l) ≡ me)
unfolding calls script
fence me f [] k h g same = (tt, h)
fence me f ((read, client, now) ∷ l) (k, ks) h g same =
    let (only, held) = fence me f l ks h g same in ((tt, only), held)
fence me f ((claim, client, now) ∷ l) (k, ks) h g same =
    let next = (script claim client now f).0 in
    let above = calls-generation next l ks in
    let made = generation-claim client now f in
    elim (Bool-cases (holder f == client)) [
      | inl e ↦
          let mine : client ≡ me = sym ((eq_iff (holder f) client).0 e) ∙ h in
          let kept_generation = made ∙ next_generation-mine client f (h ∙ sym mine) g in
          let (only, held) =
            fence me next l ks (holder-claim client now f ∙ mine) (rw kept_generation g)
              (same ∙ sym kept_generation) in
          ((mine, only), held)
      | inr e ↦
          let apart : ⊥ = omega (arith, above, made, next_generation-foreign client f e, same) in
          elim apart [ ]
    ]
fence me f ((release, client, now) ∷ l) (k, ks) h g same = elim k [ ]

next_generation-positive : (me : String) (f : Files) → 0 < next_generation me f
unfolding next_generation
next_generation-positive me f = ground arith

-- What an acquisition that returns has done.
acquired :
    (cfg : AppConfig) (now : ℕ) (name : String) (plan : Plan) (f : Files) {token : Token}
    → cfg.hub_enabled ≡ true
    → (acquire_for_resume reached cfg now name plan f).1 ≡ ok token
    → ((acquire_for_resume reached cfg now name plan f).0 ≡ (script claim cfg.client now f).0)
      × (token.generation ≡ next_generation cfg.client f)
unfolding acquire_for_resume claim_occupancy remote script
acquired cfg now name plan f hub h = ground arith

-- What a verification that returns has seen.
verified :
    (cfg : AppConfig) (now : ℕ) (token : Token) (f : Files) {v : Verified}
    → cfg.hub_enabled ≡ true
    → 0 < token.generation
    → 0 < generation f
    → (verify_resume reached cfg now token f).1 ≡ ok v
    → generation f ≡ token.generation
unfolding verify_resume read_occupancy remote script
verified cfg now token f hub expected known h = ground arith

-- Between an acquisition for a resume and a verification that accepts its token, with no release
-- in between and the hub reached for both, no other Client has claimed the tunnel, and the verifying
-- Client holds it.
pub verified-exclusive :
    (cfg : AppConfig) (now later : ℕ) (name : String) (plan : Plan) (f : Files) (l : List Call)
    (token : Token) (v : Verified)
    → cfg.hub_enabled ≡ true
    → NoRelease l
    → (acquire_for_resume reached cfg now name plan f).1 ≡ ok token
    → (verify_resume reached cfg later token
        (calls (acquire_for_resume reached cfg now name plan f).0 l)).1
      ≡ ok v
    → OnlyClaims cfg.client l
      × (holder (calls (acquire_for_resume reached cfg now name plan f).0 l) ≡ cfg.client)
verified-exclusive cfg now later name plan f l token v hub k a h =
    let (files, number) = acquired cfg now name plan f hub a in
    let g = (script claim cfg.client now f).0 in
    let made = generation-claim cfg.client now f in
    let positive = next_generation-positive cfg.client f in
    let first : 0 < generation g = omega (arith, made, positive) in
    let expected : 0 < token.generation = omega (arith, number, positive) in
    let known : 0 < generation (calls g l) = omega (arith, first, calls-generation g l k) in
    let seen = verified cfg later token (calls g l) {v = v} hub expected known (rw (sym files) h) in
    rw files
      (fence cfg.client g l k (holder-claim cfg.client now f) first (seen ∙ number ∙ sym made))

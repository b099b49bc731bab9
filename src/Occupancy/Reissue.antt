-- ===== src/Occupancy/Reissue.antt =====
-- A release empties the lock, in which the generation stands.
use dual_tmux.Prelude.{ℕ, ◌≡◌, String, true, [], ◌∷◌, arith}
use dual_tmux.Prelude.{string_eq, nonempty, beq_refl}
use dual_tmux.Prelude.Result.{ok}
use dual_tmux.Occupancy.Hub.{Files, claim, release, holder, generation, next_generation, script}
use dual_tmux.Occupancy.Client.{AppConfig, reached, remote, read_occupancy}
use dual_tmux.Occupancy.Resume.{Token, verify_resume}
use dual_tmux.Occupancy.Fence.{calls}

reissued :
    (me other : String) (a b c : ℕ) (f : Files)
    → nonempty me ≡ true
    → (let g = calls f ((claim, other, a) ∷ (release, other, b) ∷ (claim, me, c) ∷ []) in
        (generation g ≡ 1) × (holder g ≡ me))
unfolding calls script next_generation holder generation
reissued me other a b c f named = ground (arith, beq_refl other)

-- A Client's verification accepts its token of generation 1 although another Client claimed and
-- released the tunnel since, if the Client has claimed it again: the generation starts anew.
pub verified-reissued :
    (cfg : AppConfig) (other : String) (a b c later : ℕ) (token : Token) (f : Files)
    → cfg.hub_enabled ≡ true
    → nonempty cfg.client ≡ true
    → token.generation ≡ 1
    → (verify_resume reached cfg later token
        (calls f ((claim, other, a) ∷ (release, other, b) ∷ (claim, cfg.client, c) ∷ []))).1
      ≡ ok (record { generation = 1; holder = cfg.client })
unfolding verify_resume read_occupancy remote script
verified-reissued cfg other a b c later token f hub named one =
    ground (arith, beq_refl cfg.client, reissued cfg.client other a b c f named)

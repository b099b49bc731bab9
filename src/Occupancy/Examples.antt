-- ===== src/Occupancy/Examples.antt =====
-- Two Clients and one tunnel.
use dual_tmux.Prelude.{◌≡◌, refl, true, none, List, [], ◌∷◌, string_eq}
use dual_tmux.Prelude.Result.{ok}
use dual_tmux.Occupancy.Hub.{
  Files, Lock, read, claim, release, holder, generation, script, next_generation,
}
use dual_tmux.Occupancy.Client.{AppConfig, reached, remote, claim_occupancy, read_occupancy}
use dual_tmux.Occupancy.Resume.{Plan, Token, acquire_for_resume, verify_resume}
use dual_tmux.Occupancy.Fence.{Call, calls, OnlyClaims, verified-exclusive}
use dual_tmux.Occupancy.Reissue.{verified-reissued}

abbrev laptop : AppConfig
laptop = record { client = "tm_laptop"; hub_enabled = true }

abbrev files : Files
files = record { occupied = none; lock = Lock.line "tm_office" 90 4 }

abbrev plan : Plan
plan = record { safe = true; reason = "occupancy_steal" }

abbrev token : Token
token = record { generation = 5; newly_acquired = true }

-- The office reads, the laptop claims again.
abbrev between : List Call
between = (read, "tm_office", 105) ∷ (claim, "tm_laptop", 106) ∷ []

verified-exclusive_example :
    OnlyClaims "tm_laptop" between
    × (holder (calls (acquire_for_resume reached laptop 100 "dt-demo" plan files).0 between)
        ≡ "tm_laptop")
unfolding acquire_for_resume verify_resume claim_occupancy read_occupancy remote script calls holder
    generation next_generation
verified-exclusive_example =
    verified-exclusive laptop 100 110 "dt-demo" plan files between token
      (record { generation = 5; holder = "tm_laptop" }) refl (tt, (tt, tt)) refl refl

abbrev first_token : Token
first_token = record { generation = 1; newly_acquired = true }

verified-reissued_example :
    (verify_resume reached laptop 110 first_token (
      calls files (
        (claim, "tm_office", 105)
        ∷ (release, "tm_office", 106)
        ∷ (claim, "tm_laptop", 107)
        ∷ []))).1
    ≡ ok (record { generation = 1; holder = "tm_laptop" })
verified-reissued_example =
    verified-reissued laptop "tm_office" 105 106 107 110 first_token files refl refl refl

-- ===== src/Occupancy/Client.antt =====
-- The functions of src/dual_tmux/occupancy.py that a Client calls.
use dual_tmux.Prelude.{ℕ, String, Bool, not, ◌&&◌}
use dual_tmux.Prelude.{if◌then◌else◌, ◌==◌, ◌<>◌, string_eq, nonempty}
use dual_tmux.Prelude.Result.{Result, ok, err, system_exit, ◌>>=◌}
use dual_tmux.Occupancy.Hub.{
  Occupied, Files, Action, read, claim, release, Reply, granted, refused, script,
}

pub record AppConfig : Type 0 where
  pub client : String
  pub hub_enabled : Bool

-- One SSH call: its output arrives, or it does not, with what stderr says last. A call without an
-- output may have run the script.
pub data Link : Type 0 where
  reached : Link
  lost : Bool → String → Link

abbrev pub local_occupancy : AppConfig → ℕ → Reply
local_occupancy cfg now = granted (record { holder = cfg.client; claimed_at = now; generation = 1 })

abbrev deliver : Link → Files → Files × Reply → Files × Result Reply
deliver reached f (g, reply) = (g, ok reply)
deliver (lost ran detail) f (g, reply) =
    (if ran then g else f, err (system_exit ("[err] hub occupancy: " <> detail)))

-- `_remote`
unfoldable pub remote : Link → Action → AppConfig → ℕ → Files → Files × Result Reply
unfolding script
remote link action cfg now f =
    if not cfg.hub_enabled
    then (f, ok (local_occupancy cfg now))
    else deliver link f (script action cfg.client now f)

abbrev accepted : String → Reply → Result Occupied
accepted action (granted o) = ok o
accepted action (refused code holder generation) =
    err (system_exit ("[err] occupancy " <> (action <> (" rejected: " <> code))))

unfoldable pub read_occupancy : Link → AppConfig → ℕ → Files → Files × Result Occupied
unfolding remote
read_occupancy link cfg now f =
    let (g, r) = remote link read cfg now f in (g, r >>= accepted "read")

unfoldable pub claim_occupancy : Link → AppConfig → ℕ → Files → Files × Result Occupied
unfolding remote
claim_occupancy link cfg now f =
    let (g, r) = remote link claim cfg now f in (g, r >>= accepted "claim")

unfoldable pub release_occupancy : Link → AppConfig → ℕ → Files → Files × Result Occupied
unfolding remote
release_occupancy link cfg now f =
    if not cfg.hub_enabled
    then (f, ok (record { holder = ""; claimed_at = now; generation = 1 }))
    else (let (g, r) = remote link release cfg now f in (g, r >>= accepted "release"))

unfoldable pub foreign_holder : Occupied → String → Bool
foreign_holder o client = nonempty o.holder && not (o.holder == client)

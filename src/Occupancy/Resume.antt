-- ===== src/Occupancy/Resume.antt =====
-- `_occupancy_lease`, `acquire_for_resume` and `verify_resume` of src/dual_tmux/ownership.py.
use dual_tmux.Prelude.{ℕ, String, Bool, true, not, ◌&&◌, Option, none, some}
use dual_tmux.Prelude.{if◌then◌else◌, nat_beq, ◌==◌, ◌<>◌, string_eq, nonempty}
use dual_tmux.Prelude.Result.{Exn, Result, ok, err, system_exit, ◌>>=◌, ◌>>◌, guard}
use dual_tmux.Occupancy.Hub.{Occupied, Files}
use dual_tmux.Occupancy.Client.{AppConfig, Link, read_occupancy, claim_occupancy, foreign_holder}

pub data LeaseState : Type 0 where
  local owned foreign free expired : LeaseState

pub record Lease : Type 0 where
  pub state : LeaseState
  pub holder : String
  pub generation : ℕ

abbrev lease_of : String → ℕ → Result Occupied → Lease
lease_of client recorded (err e) = record { state = owned; holder = client; generation = recorded }
lease_of client recorded (ok o) = record {
  state = if foreign_holder o client then foreign else if nonempty o.holder then owned else free;
  holder = if nonempty o.holder then o.holder else client;
  generation = o.generation;
}

-- `none` is a Client without a configuration; `recorded` is the generation in the binding.
unfoldable pub occupancy_lease : Link → Option AppConfig → ℕ → ℕ → Files → Lease
unfolding read_occupancy foreign_holder
occupancy_lease link none recorded now f = record {
  state = local;
  holder = "";
  generation = recorded;
}
occupancy_lease link (some cfg) recorded now f =
    if not cfg.hub_enabled
    then record { state = local; holder = cfg.client; generation = recorded }
    else lease_of cfg.client recorded (read_occupancy link cfg now f).1

pub record Plan : Type 0 where
  pub safe : Bool
  pub reason : String

abbrev pub Token : Type 0
Token = record { generation : ℕ; newly_acquired : Bool }

abbrev claimed : Files × Result Occupied → Files × Result Token
claimed (f, r) = (f, (do o ← r; ok (record { generation = o.generation; newly_acquired = true })))

abbrev rejected : String → String → Exn
rejected name reason =
    if reason == "not_a_frozen_dst"
    then system_exit (
        "[err] "
        <> ((if nonempty name then name else "tunnel")
            <> (" 尚未固化为 DST 会话对（缺少 trigger 或 bullet 的 freeze 会话）。\n"
                <> "新隧道请先运行 dt enter / dt work 进行工作，随后运行 dt freeze 固化。")))
    else system_exit ("[err] resume preflight rejected: " <> reason)

unfoldable pub acquire_for_resume :
    Link → AppConfig → ℕ → String → Plan → Files → Files × Result Token
unfolding claim_occupancy
acquire_for_resume link cfg now name plan f =
    if not plan.safe
    then (f, err (rejected name (if nonempty plan.reason then plan.reason else "unsafe")))
    else claimed (claim_occupancy link cfg now f)

abbrev pub Verified : Type 0
Verified = record { generation : ℕ; holder : String }

abbrev compare_token : String → ℕ → Occupied → Result Verified
compare_token client expected current = do
  guard (not (nonempty current.holder && not (current.holder == client)))
      (system_exit "[err] occupancy changed during resume")
  guard
      (not (
        not (nat_beq expected 0)
        && not (nat_beq current.generation 0)
        && not (nat_beq current.generation expected)))
      (system_exit "[err] occupancy generation changed during resume")
  ok (record {
    generation = if nat_beq current.generation 0 then expected else current.generation;
    holder = if nonempty current.holder then current.holder else client;
  })

unfoldable pub verify_resume : Link → AppConfig → ℕ → Token → Files → Files × Result Verified
unfolding read_occupancy
verify_resume link cfg now token f =
    if not cfg.hub_enabled
    then (f, ok (record { generation = token.generation; holder = cfg.client }))
    else (let (g, r) = read_occupancy link cfg now f in
        (g, r >>= compare_token cfg.client token.generation))

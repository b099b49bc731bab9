-- ===== src/Orphan/Examples.antt =====
-- A container with a bound agent, a leaked one and a shell.
use dual_tmux.Prelude.{◌≡◌, refl, true, false, none, some, List, [], ◌∷◌, arith, All}
use dual_tmux.Prelude.{select, string_eq}
use dual_tmux.Orphan.Scan.{Process, Tunnel, Scanned, scan, classify, is_agent_process, is_wrapper}
use dual_tmux.Orphan.Patrol.{Killed, pids, patrol}
use dual_tmux.Orphan.Safe.{targets, Spares, patrol-Spares}
use dual_tmux.Orphan.Legal.{Legal, classify-Legal}
use dual_tmux.Orphan.Interval.{maybe_patrol, patrols, patrol_interval, mark, patrols-maybe_patrol}

abbrev tunnel : Tunnel
tunnel = record {
  name = "dt-demo";
  server = "server";
  container = "box";
  session_id = "ses_1";
  auto_orphan_clean = true;
  is_dst = false;
}

abbrev rows : List Process
rows =
    record { pid = 10; age = some 4000; args = "opencode --session ses_0" }
    ∷ record { pid = 11; age = some 90; args = "opencode --session ses_1" }
    ∷ record { pid = 12; age = some 900; args = "sh -lc opencode" }
    ∷ record { pid = 13; age = some 700; args = "/usr/bin/abc run" }
    ∷ []

abbrev reply : Scanned
reply = Scanned.exited 0 rows

finds_two : pids (scan tunnel reply).orphans ≡ 10 ∷ 13 ∷ []
unfolding scan is_wrapper is_agent_process select
finds_two = refl

patrol-Spares_example :
    All
      (Spares (scan tunnel reply).legal)
      (targets (patrol false tunnel reply (Killed.remaining 0)).0)
patrol-Spares_example = patrol-Spares false tunnel reply (Killed.remaining 0)

classify-Legal_example : Legal "ses_1" rows (classify "ses_1" rows).legal
classify-Legal_example = classify-Legal "ses_1" rows

patrols-maybe_patrol_example :
    patrols none "dt-demo"
      (("dt-other", 50) ∷ [])
      (("dt-demo", 1000) ∷ ("dt-other", 4000) ∷ ("dt-demo", 4599) ∷ [])
    ≡ 1
unfolding maybe_patrol mark patrol_interval
patrols-maybe_patrol_example =
    patrols-maybe_patrol none "dt-demo" 1000 (("dt-other", 50) ∷ [])
      (("dt-other", 4000) ∷ ("dt-demo", 4599) ∷ []) refl (omega arith, (omega arith, tt))

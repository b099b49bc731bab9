-- ===== src/Service/Workers.antt =====
-- What `ControlService.resume` calls: the files, probes and commands of other modules, each as a
-- change of the outside world that may raise.
use dual_tmux.Prelude.{ℕ, String, Bool, Option}
use dual_tmux.Prelude.Effect.{Act}
use dual_tmux.Prelude.Result.{Exn, Result}
use dual_tmux.Occupancy.Hub.{Files}
use dual_tmux.Occupancy.Client.{AppConfig, Link}
use dual_tmux.Ownership.Takeover.{Facts}
use dual_tmux.Service.Attempt.{Tunnel, Emission, Digested}

-- The tunnel's two files on the hub, and everything else.
pub record World (R : Type 0) : Type 0 where
  pub files : Files
  pub rest : R

pub data RouteStatus : Type 0 where
  not_applicable healthy unavailable missing repaired ambiguous : RouteStatus

-- `names` joins the locations.
pub record Route : Type 0 where
  pub status : RouteStatus
  pub changed : Bool
  pub names : String

pub record Workers (J R : Type 0) : Type 0 where
  pub describe : Exn → String
  pub digest : Digested → String
  pub emit : Emission → J → J × Option Exn
  pub clock : World R → ℕ
  pub link : World R → Link
  pub load_config : World R → Result AppConfig
  pub existing_instance_id : World R → String
  pub new_id : World R → String
  pub get_tunnel_readonly : Option String → Act (World R) Tunnel
  pub resolve : Option String → Act (World R) Tunnel
  pub refresh_resume_inputs : Tunnel → Act (World R) Tunnel
  pub reconcile_remote_runtime : Tunnel → Act (World R) (Tunnel × Route)
  pub has_persist_snapshot : Tunnel → Act (World R) Bool
  pub save : Tunnel → Act (World R) (Unit {0})
  pub write_entry : String → String → Act (World R) (Unit {0})
  pub preflight_resume_snapshots : Tunnel → Act (World R) (Unit {0})
  pub facts : Tunnel → Act (World R) Facts
  pub apply_resume : Option String → Bool → ℕ → Act (World R) Tunnel
  pub sync_best_effort : Act (World R) (Unit {0})
  pub push_best_effort : Act (World R) (Unit {0})

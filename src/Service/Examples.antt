-- ===== src/Service/Examples.antt =====
-- One resume of a tunnel that another Client holds, over `MemoryStateStore`.
use dual_tmux.Prelude.{◌≡◌, refl, true, false, Option, none, List, [], ◌∷◌, ◌++◌}
use dual_tmux.Prelude.Effect.{Act, and_then, handled}
use dual_tmux.Prelude.Result.{Exn, ok, os_error}
use dual_tmux.Fsm.Store.{StateStore, memory_store, memory_store-IsLawful}
use dual_tmux.Occupancy.Client.{reached}
use dual_tmux.Occupancy.Hub.{line}
use dual_tmux.Occupancy.Resume.{foreign}
use dual_tmux.Ownership.Takeover.{Facts, single}
use dual_tmux.Prelude.{distinct}
use dual_tmux.Prelude.{ℕ, ◌≤◌, ◌+◌, arith, some, if◌then◌else◌, leb, All, select}
use dual_tmux.Fsm.Store.{IsLawful}
use dual_tmux.Ownership.Takeover.{trigger_supported, is_known, bullet_supported}
use dual_tmux.Resume.State.{preflighting}
use dual_tmux.Resume.Node.{
  ResumeAttemptNode, node_fields, legal_state_facts, token_facts, completed_facts,
}
use dual_tmux.Resume.Chart.{
  resume_graph, enter, preflight_stable, token_matches_claimant, verification_matches_occupancy,
}
use dual_tmux.Resume.Machine
use dual_tmux.Resume.Machine.{Snapshot, init}
use dual_tmux.Service.Attempt.{Tunnel, Emission, attempt_of, new_node}
use dual_tmux.Service.Workers.{World, Workers, healthy}
use dual_tmux.Service.Resume.{Resuming, proceed}
use dual_tmux.Service.Sends.{IsHeld}
use dual_tmux.Service.Start.{OnHost, Started, not_started, started, start, resume}
use dual_tmux.Service.Begun.{start-Held}
use dual_tmux.Service.Outcome.{Ending, proceed-Ending}
use dual_tmux.Service.Snapshots.{
  Files, Temps, Disk, Call, fsync, System, has_name, atomic_store, save, load, prune,
}
use dual_tmux.Service.Atomic.{IsReliable, atomic_store-IsLawful}
use dual_tmux.Service.Pruned.{load-prune}
use dual_tmux.Service.Whole.{IsResumed, resume_ok-IsResumed}

abbrev memory : StateStore Snapshot
memory = memory_store Snapshot

abbrev keep_all : memory.State → memory.State × Option Exn
keep_all s = (s, none)

abbrev tunnel : Tunnel
tunnel = record {
  name = "dt-demo";
  run = "run_demo";
  server = "";
  cmd = "";
  trigger = record { session_id = "t-1"; tool = "opencode"; text = "" };
  bullet = record { session_id = "b-1"; tool = "codex"; text = "" };
  ownership_generation = 1;
}

abbrev facts : Facts
facts = record {
  trigger = record { session_id = "t-1"; tool = "opencode"; writer = single; conflicts = false };
  bullet = record { session_id = "b-1"; tool = "codex"; writer = single; conflicts = false };
  server = "";
  lease = foreign;
  sampled_at = 90;
  now = 100;
}

abbrev Rest : Type 0
Rest = Unit {0}

abbrev steps {ℓ} : {A : Type ℓ} → A → Act (World Rest) A
steps a w = (w, ok a)

-- Workers that all succeed; the event log keeps every entry.
abbrev workers : Workers (List Emission) Rest
workers = record {
  describe = λ e. "refused";
  digest = λ d. "digest";
  emit = λ e j. (j ++ (e ∷ []), none);
  clock = λ w. 100;
  link = λ w. reached;
  load_config = λ w. ok (record { client = "tm_laptop"; hub_enabled = true });
  existing_instance_id = λ w. "i-1";
  new_id = λ w. "1";
  get_tunnel_readonly = λ name. steps tunnel;
  resolve = λ name. steps tunnel;
  refresh_resume_inputs = λ t. steps t;
  reconcile_remote_runtime =
      λ t. steps (t, record { status = healthy; changed = false; names = "host" });
  has_persist_snapshot = λ t. steps true;
  save = λ t. steps tt;
  write_entry = λ run cmd. steps tt;
  preflight_resume_snapshots = λ t. steps tt;
  facts = λ t. steps facts;
  apply_resume = λ name force generation. steps tunnel;
  sync_best_effort = steps tt;
  push_best_effort = steps tt;
}

abbrev host : OnHost workers memory keep_all
host = record {
  store = [];
  journal = [];
  world = record { files = record { occupied = none; lock = line "tm_office" 50 4 }; rest = tt };
}

-- The attempt that is started for the tunnel.
abbrev begun : Started memory.State (List Emission) (World Rest)
begun = start workers memory keep_all tunnel host

abbrev of_started : Started memory.State (List Emission) (World Rest) → Resuming workers memory
of_started (started c) = c
of_started (not_started h e) = record {
  attempt = attempt_of first (init first []);
  journal = h.journal;
  world = h.world;
}
  where
    first : ResumeAttemptNode
    first = new_node (record { client = "tm_laptop"; hub_enabled = true }) "i-1" "dt-demo" "1" 100

start-Held_example :
    IsHeld (of_started begun) preflighting × ((of_started begun).world ≡ host.world)
unfolding start and_then node_fields legal_state_facts token_facts distinct Machine.send
    resume_graph enter
start-Held_example =
    start-Held workers memory (λ k v s. refl) (λ x j e h. cc) keep_all host tunnel
      (of_started begun) refl

proceed-Ending_example :
    Ending workers memory tunnel
      (of_started begun)
      (proceed workers memory none false tunnel (of_started begun))
proceed-Ending_example =
    proceed-Ending workers memory (memory_store-IsLawful Snapshot) (λ k v s. refl) (λ x j e h. cc)
      none false tunnel (of_started begun) start-Held_example.0

resume_ok-IsResumed_example :
    IsResumed workers memory keep_all none false host
      (resume workers memory keep_all none false host).0
unfolding resume and_then node_fields legal_state_facts token_facts distinct Machine.send
    resume_graph enter handled trigger_supported is_known bullet_supported preflight_stable
    token_matches_claimant verification_matches_occupancy completed_facts
resume_ok-IsResumed_example =
    resume_ok-IsResumed workers memory keep_all none false (memory_store-IsLawful Snapshot)
      (λ k v s. refl) (λ x j e h. cc) host (record tunnel { ownership_generation = 5 }) refl

-- A system whose calls raise nothing but `fsync`, which fails on a directory with two snapshots.
abbrev tick : Files (Option ℕ) → ℕ
tick [] = 1
tick (x ∷ files) = 1 + tick files

abbrev above : Temps (Option ℕ) → ℕ
above [] = 0
above (x ∷ temps) = x.0 + 1 + above temps

abbrev fault : Call → Disk (Option ℕ) → Option Exn
fault fsync d = if leb 3 (tick d.files) then some (os_error "No space left on device") else none
fault _ d = none

abbrev system : System (Option ℕ) ℕ
system = record {
  digest = λ key. key;
  dumps = λ v. some v;
  loads = λ c. c;
  blank = none;
  torn = λ c. none;
  fresh = above;
  fault = fault;
  stamp = tick;
}

all_below :
    (n : ℕ) (temps : Temps (Option ℕ)) → above temps ≤ n → All (λ x. has_name n x ≡ false) temps
all_below n [] h = tt
all_below n (x ∷ temps) h = (ground arith, all_below n temps (omega arith))

reliable : IsReliable system
reliable = record {
  collision_free = λ k j e. e;
  loads-dumps = λ v. refl;
  new = λ temps. all_below (above temps) temps (omega arith);
  removable = λ d. refl;
}

atomic_store-IsLawful_example : IsLawful (atomic_store system)
atomic_store-IsLawful_example = atomic_store-IsLawful system reliable

abbrev older : Disk (Option ℕ)
older = record { files = ("resume:1", record { content = some 7; mtime = 1 }) ∷ []; temps = [] }

saves : (save system "resume:2" 8 older).1 ≡ none
unfolding save select
saves = refl

fails :
    save system "resume:3" 9 (save system "resume:2" 8 older).0
    ≡ ((save system "resume:2" 8 older).0, some (os_error "No space left on device"))
unfolding save select
fails = refl

load-prune_example : load system "resume:2" (prune 1 (save system "resume:2" 8 older).0) ≡ some 8
load-prune_example =
    load-prune system reliable 1 "resume:2" 8 older (omega arith) (omega arith, tt) saves

-- ===== src/Lib.antt =====
-- Verification of dual-tmux: who may write to a pair of agent sessions, and when.
--
-- A tunnel of dual-tmux is a pair of agent sessions, a trigger and a bullet, that one Client at a
-- time may drive. These parts of the program are modelled; all other parts are I/O, user
-- interface or glue, or wait for a model.
--
-- Fsm: datanode/fsm_core, the graph with its event index, the machine and the snapshot stores.
-- Guards and actions are functions on a context; an action gets the time at which it runs. The
-- store protocol is a record of operations (Fsm/Store), with the laws that the machines need;
-- `memory_store` is MemoryStateStore. FileStateStore is file I/O behind the same record.
--
-- Resume: datanode/runtime_fsm/resume.py, the persisted machine of one resume attempt. State,
-- Node, Event and Chart are its enums, nodes, payloads, guards and graph; Machine has `send`,
-- `create` and `restore`. Steps, Atomic, Sound, Run, Restore, Traces,
-- Outcomes, Accepted and Legal are proofs.
--
-- Binding: datanode/runtime_fsm/binding.py and BindingAttemptNode of datanode/models.py, in the
-- same layout; Commit is `commit_proven` with its hooks, callables on an outside world; a hook's
-- `SystemExit` passes the `except Exception` by.
--
-- Recovery: `observe` and `auto_rebuild_if_stalled` of src/dual_tmux/recovery.py. Each returns the
-- effects in their order: writes of the state file, events, calls of the recoverer or rebuilds.
-- What the probe and the recoverer return is given with each check.
--
-- Occupancy: the script of src/dual_tmux/occupancy.py on the hub's two files (Hub), the calls by a
-- Client (Client), and the lease, acquisition and verification of src/dual_tmux/ownership.py
-- (Resume). The file lock makes each run of the script one step; a call may lose its answer.
--
-- Ownership: the takeover decision of src/dual_tmux/ownership.py and the plan of a resume, from facts
-- that probes collect (Takeover); Allowed and Decision are proofs.
--
-- Connector: `ConnectorManager` of src/dual_tmux/daemon.py, one step of its loop at a time; what the
-- installation, the lease service and the process answer is given with each step.
--
-- Orphan: src/dual_tmux/orphan.py. Scan classifies the processes of a run point, Patrol kills,
-- Interval limits how often. What a remote command answers is given.
--
-- Service: `ControlService.resume` of src/dual_tmux/control.py and `ResumeAttempt` of
-- src/dual_tmux/resume_attempt.py, which drive the machine of Resume with what Occupancy acquires and
-- verifies and with the plan of Ownership. Errors is `_translate` and `note`, Attempt the reports of
-- the worker, Workers what `resume` calls elsewhere (each a function on the outside world that may
-- raise), Resume the order of the calls and their `except` blocks, Start the start of an attempt and
-- the whole, Snapshots the file store of the attempts, with the temporary file of a `save` and an
-- `OSError` of each of its calls. Sends, Reports, Endings, Outcome, Begun, Whole, Atomic and Pruned
-- are proofs. A method that changes state and may raise is an `Act` of
-- Prelude/Effect, composed by do blocks; the tunnel's two files on the hub are a part of the world,
-- so other Clients may change them at every call.
--
-- Nodes: datanode/models.py, datanode/adapters.py and datanode/repository.py. Json has JSON values and
-- dicts in insertion order, Library what is used of Python's library (dates are a type of its own,
-- written by `isoformat`, and those of agent clients by pydantic),
-- Model the nodes with their validators, Decode `from_legacy_tunnel`, Encode `to_legacy_tunnel`,
-- Repository `TunnelRepository` on a directory of files, Command `build_cmd` of
-- src/dual_tmux/runtime.py. Endpoint, Sides, Reads, Belongs, Over, Fresh, RoundTrip, Resave and Saved
-- are proofs.
--
-- Freeze: src/dual_tmux/binding.py with the hook of datanode/runtime_fsm/hooks.py. Payload is
-- `occupancy_context` and `proven_payload`, Hook the projection of a working copy (over Nodes), Attempt
-- `run_freeze_attempt`, which drives the machine of Binding. The body that proves a session is a
-- function on the working copy and the outside world. Missing, Ending, Whole and Binds are
-- proofs.
--
-- Ssh: `parse_ssh_target` of src/dual_tmux/sshutil.py with `_split_user_host` and `match_ssh_alias`
-- (Target), on the words of a command, which Split gets from its text; Words has the tests of a word.
-- Both are for ASCII. The blocks of the ssh
-- configuration are given. The loop's fuel is the number of words. Returns, Written and RoundTrip are
-- proofs; RoundTrip reads back what `build_cmd` of Nodes writes.
--
-- Hub: `merge_snapshot` of src/dual_tmux/hub.py (Merge) on directories (Files), and
-- `apply_local_tombstones` (Local); Step, Converge, Snapshot, Ranks, Latest and Order are proofs.
-- Times are in nanoseconds, where the code compares floats; JSON, dates and digests are given as functions of the bytes. Without tombstone
-- directories those of the sides are empty.
--
-- Activity: one round of `activity_evidence` of src/dual_tmux/activity.py for a side (Sample), from
-- what tmux answers, and the choice of a source by its tick logs (Source); Stalled and Newest are
-- proofs.
--
-- Recovery calls a resume as its recoverer, given as a function there, and Orphan asks Occupancy
-- whether another Client holds the tunnel.
--
-- Exceptions are values (Prelude/Result); a method that changes its object returns the object beside
-- the result. Times and numbers are natural; a difference of times is compared as a sum. No
-- definition needs fuel: loops are recursions on lists. Validation by pydantic is written out as the
-- tests of the fields and the validators. Texts of dates are given, not computed.
--
-- Not modelled: the log of events, except in Service, Recovery, Orphan, Activity and Freeze; Mermaid
-- output; the parsing of command output; SSH, tmux, docker and file access, except that of the
-- repository; the command line, the web panel and the Feishu bridge.
pub mod Prelude
pub mod Fsm
pub mod Resume
pub mod Binding
pub mod Recovery
pub mod Occupancy
pub mod Orphan
pub mod Service
pub mod Hub
pub mod Activity
pub mod Ownership
pub mod Connector
pub mod Nodes
pub mod Freeze
pub mod Ssh

-- ===== src/Nodes/Command.antt =====
-- `build_cmd` of src/dual_tmux/runtime.py, with the arguments of an `SshTarget` of
-- src/dual_tmux/sshutil.py.
use dual_tmux.Prelude.{
  ℕ, String, not, ◌&&◌, List, [], ◌∷◌, ◌++◌, ◌<>◌, nonempty, ◌==◌, string_eq, nat_beq,
  if◌then◌else◌,
}
use dual_tmux.Nodes.Library.{Library}

-- `" ".join(words)`
abbrev pub joined : List String → String
joined [] = ""
joined (word ∷ []) = word
joined (word ∷ words) = word <> (" " <> joined words)

abbrev pub options : List String
options =
    "ssh" ∷ "-t" ∷ "-o" ∷ "StrictHostKeyChecking=accept-new" ∷ "-o" ∷ "ServerAliveInterval=15"
    ∷ "-o" ∷ "ServerAliveCountMax=3" ∷ []

module _ {D : Type 0} (lib : Library D) where
  unfoldable pub extra_args : ℕ → List String
  extra_args port =
      if not (nat_beq port 0) && not (nat_beq port 22) then "-p" ∷ lib.digits port ∷ [] else []

  -- The host is the target's `dest`.
  unfoldable pub prefix : String → ℕ → String
  unfolding extra_args
  prefix host port = joined (options ++ (extra_args port ++ (host ∷ [])))

  unfoldable pub build_cmd : String → String → String → ℕ → String
  unfolding prefix
  build_cmd host container directory port =
      if not (nonempty host)
      then (if nonempty directory then "cd " <> lib.quote directory else "")
      else if nonempty container
      then prefix host port
        <> (" \"docker exec -it "
            <> (container <> (" bash -lc 'cd " <> (directory <> " && exec bash'\""))))
      else if nonempty directory && not (directory == "/workspace")
      then prefix host port <> (" \"cd " <> (directory <> " && exec bash\""))
      else prefix host port

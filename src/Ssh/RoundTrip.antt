-- ===== src/Ssh/RoundTrip.antt =====
-- The text that `build_cmd` writes is parsed back to the host and the port.
use dual_tmux.Prelude.{
  ℕ, String, ◌≤◌, ◌≡◌, refl, ◌∙◌, ap, ◌⊎◌, inl, inr, true, not, ◌&&◌, some, List, [], ◌∷◌, ◌++◌,
  All, nat_beq, nonempty, Bool-cases,
}
use dual_tmux.Nodes.Library.{Library}
use dual_tmux.Nodes.Command.{options, extra_args, joined, build_cmd}
use dual_tmux.Ssh.Target.{SshTarget, HostBlock, parse_ssh_target}
use dual_tmux.Ssh.Split.{split, parse_ssh_text, solid, IsWord, split-joined, digits-IsWord}
use dual_tmux.Ssh.Written.{IsPlain, IsPrinted, parse_ssh_target-options}

options-IsWord : All IsWord options
options-IsWord = (
  record { given = refl; whole = refl },
  (
    record { given = refl; whole = refl },
    (
      record { given = refl; whole = refl },
      (
        record { given = refl; whole = refl },
        (
          record { given = refl; whole = refl },
          (
            record { given = refl; whole = refl },
            (record { given = refl; whole = refl }, (record { given = refl; whole = refl }, tt)),
          ),
        ),
      ),
    ),
  ),
)

All-append : (xs ys : List String) → All IsWord xs → All IsWord ys → All IsWord (xs ++ ys)
All-append [] ys h g = g
All-append (x ∷ xs) ys (h, hs) g = (h, All-append xs ys hs g)

module _ {D : Type 0} (lib : Library D) (host : String) (port : ℕ) where
  words-IsWord :
      IsWord host
      → IsPrinted lib port
      → All IsWord (options ++ (extra_args lib port ++ (host ∷ [])))
  unfolding extra_args
  words-IsWord h printed =
      All-append options _ options-IsWord
        (elim (Bool-cases (not (nat_beq port 0) && not (nat_beq port 22))) [
          | inl e ↦ rw e (
            record { given = refl; whole = refl },
            (digits-IsWord (lib.digits port) printed.digital, (h, tt)),
          )
          | inr e ↦ rw e (h, tt)
        ])

  build_cmd-plain :
      (directory : String)
      → nonempty host ≡ true
      → (directory ≡ "") ⊎ (directory ≡ "/workspace")
      → build_cmd lib host "" directory port
        ≡ joined (options ++ (extra_args lib port ++ (host ∷ [])))
  unfolding build_cmd
  build_cmd-plain directory h (inl e) = rw (h, e) refl
  build_cmd-plain directory h (inr e) = rw (h, e) refl

  -- The command that `build_cmd` writes for a host without a container, in the default directory or
  -- none, is parsed to that host and that port. The host has no blank and is no option, the port is
  -- not 0, and its digits are printed and read as Python does.
  pub parse_ssh_text-build_cmd :
      (blocks : List HostBlock) (directory : String)
      → IsPlain host
      → solid host ≡ true
      → (directory ≡ "") ⊎ (directory ≡ "/workspace")
      → 1 ≤ port
      → IsPrinted lib port
      → (target : SshTarget) × (parse_ssh_text blocks (build_cmd lib host "" directory port)
          ≡ some target)
        × (target.dest ≡ host)
        × (target.port ≡ port)
  unfolding parse_ssh_text
  parse_ssh_text-build_cmd blocks directory plain unbroken default positive printed =
      let (target, parsed, dest, same) =
        parse_ssh_target-options lib blocks host plain port positive printed in
      let word : IsWord host = record { given = plain.given; whole = unbroken } in
      (
        target,
        ap (λ (raw : String). parse_ssh_target blocks (split raw))
              (build_cmd-plain directory plain.given default)
            ∙ ap (λ (words : List String). parse_ssh_target blocks words)
                (split-joined (options ++ (extra_args lib port ++ (host ∷ [])))
                  (words-IsWord word printed))
            ∙ parsed,
        dest,
        same,
      )

-- ===== src/Ssh/Examples.antt =====
-- Tests of the parser of ssh commands.
use dual_tmux.Prelude.{
  String, ◌≡◌, refl, none, some, List, [], ◌∷◌, if◌then◌else◌, nat_beq, true, arith, inr,
}
use dual_tmux.Nodes.Library.{Library}
use dual_tmux.Nodes.Command.{build_cmd}
use dual_tmux.Ssh.Words.{starts, starts_lower, same_lower, is_digits, number, after_eq}
use dual_tmux.Ssh.Target.{
  SshTarget, HostBlock, step, flagged, loop, conclude, arguments, parse_ssh_target, split_user_host,
}
use dual_tmux.Ssh.Split.{parse_ssh_text}
use dual_tmux.Ssh.Written.{IsPlain, IsPrinted}
use dual_tmux.Ssh.RoundTrip.{parse_ssh_text-build_cmd}

abbrev blocks : List HostBlock
blocks = record { alias = "box"; hostname = "10.0.0.1"; user = "root"; port = 2222 } ∷ []

abbrev command : List String
command = "SSH" ∷ "-oPort=2222" ∷ "-l" ∷ "root" ∷ "10.0.0.1" ∷ "ls" ∷ []

has_alias :
    parse_ssh_target blocks command
    ≡ some (record { dest = "root@10.0.0.1"; port = 2222; matched_alias = "box" })
unfolding parse_ssh_target loop arguments same_lower step starts_lower is_digits after_eq starts
    flagged conclude number
has_alias = refl

-- The port is taken from the remote command, whose words come after the host.
remote_port :
    parse_ssh_target [] ("ssh" ∷ "h1" ∷ "docker" ∷ "run" ∷ "-p" ∷ "8080" ∷ "image" ∷ [])
    ≡ some (record { dest = "h1"; port = 8080; matched_alias = "" })
unfolding parse_ssh_target loop arguments same_lower step starts_lower is_digits after_eq starts
    flagged conclude number
remote_port = refl

-- An IPv6 address in brackets.
bracketed : split_user_host "[root@::1]:22" ≡ ("root", "::1")
unfolding split_user_host starts
bracketed = refl

-- Of the library only the printing of a port matters here.
abbrev lib : Library (Unit {0})
lib = record {
  shown = λ j. "";
  digits = λ n. if nat_beq n 2222 then "2222" else "0";
  parse_int = λ s. none;
  strip = λ s. s;
  fromisoformat = λ s. none;
  isoformat = λ t. "";
  json_date = λ t. "";
  matches = λ p s. true;
  quote = λ s. s;
}

plain : IsPlain "root@h1"
unfolding starts
plain = record { given = refl; positional = refl }

printed : IsPrinted lib 2222
unfolding is_digits number
printed = record { digital = refl; valued = refl }

parse_ssh_text-build_cmd_example :
    (target : SshTarget) × (parse_ssh_text blocks (build_cmd lib "root@h1" "" "/workspace" 2222)
      ≡ some target)
    × (target.dest ≡ "root@h1")
    × (target.port ≡ 2222)
parse_ssh_text-build_cmd_example =
    parse_ssh_text-build_cmd lib "root@h1" 2222 blocks "/workspace" plain refl (inr refl)
      (omega arith) printed

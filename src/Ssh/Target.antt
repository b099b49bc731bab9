-- ===== src/Ssh/Target.antt =====
-- `SshTarget`, `parse_ssh_target`, `_split_user_host` and `match_ssh_alias` of
-- src/dual_tmux/sshutil.py. The words of the command and the blocks of the ssh configuration are
-- given. The loop is on an index, with fuel.
use Prim.Native.String.{slice, len}
use dual_tmux.Prelude.{
  ℕ, zero, suc, String, ◌+◌, Bool, not, ◌&&◌, ◌||◌, Option, none, some, List, [], ◌∷◌, ◌<>◌,
  nonempty, contains, length, ◌==◌, string_eq, nat_beq, find?, is_some, if◌then◌else◌,
}
use dual_tmux.Ssh.Words.{
  codes, starts, starts_lower, same_lower, is_digits, number, after_eq, drop_two,
}

pub record HostBlock : Type 0 where
  pub alias : String
  pub hostname : String
  pub user : String
  pub port : ℕ

pub record SshTarget : Type 0 where
  pub dest : String
  pub port : ℕ
  pub matched_alias : String

unfoldable pub stored : SshTarget → String
stored t = if nonempty t.matched_alias then t.matched_alias else t.dest

abbrev pub value_flags : List String
value_flags =
    "-p" ∷ "-P" ∷ "-o" ∷ "-l" ∷ "-i" ∷ "-F" ∷ "-J" ∷ "-c" ∷ "-L" ∷ "-R" ∷ "-D" ∷ "-E" ∷ "-S" ∷ "-W"
    ∷ "-b" ∷ "-B" ∷ "-e" ∷ "-I" ∷ "-m" ∷ "-O" ∷ "-Q" ∷ "-w" ∷ []

-- The variables of the loop.
pub record Scan : Type 0 where
  pub port : ℕ
  pub dest : String
  pub user_flag : String

abbrev pub start : Scan
start = record { port = 22; dest = ""; user_flag = "" }

-- A flag with the word after it, if there is one.
unfoldable pub flagged : String → Option String → Scan → Scan
flagged part none s = s
flagged part (some next) s =
    if (part == "-p" || part == "-P") && is_digits (codes next)
    then record s { port = number (codes next) }
    else if part == "-l"
    then record s { user_flag = next }
    else if part == "-o" && (starts_lower "port=" next && is_digits (after_eq (codes next)))
    then record s { port = number (after_eq (codes next)) }
    else s

-- One round: how far the index moves, and the variables after it.
unfoldable pub step : String → Option String → Scan → ℕ × Scan
step part next s =
    if starts_lower "-oport=" part && is_digits (after_eq (codes part))
    then (1, record s { port = number (after_eq (codes part)) })
    else if starts "-p" part && (not (part == "-p") && is_digits (drop_two (codes part)))
    then (1, record s { port = number (drop_two (codes part)) })
    else if contains value_flags part
    then (2, flagged part next s)
    else if starts "-" part
    then (1, s)
    else if nonempty s.dest
    then (1, s)
    else (1, record s { dest = part })

-- `parts[i]`, if there is one.
abbrev pub item : List String → ℕ → Option String
item [] i = none
item (part ∷ parts) zero = some part
item (part ∷ parts) (suc i) = item parts i

-- `while i < len(parts)`; `none` is an exhausted fuel.
unfoldable pub loop : ℕ → List String → ℕ → Scan → Option Scan
loop zero parts i s = elim (item parts i) [ none ↦ some s | some part ↦ none ]
loop (suc fuel) parts i s = elim (item parts i) [
  | none ↦ some s
  | some part ↦ let (k, s') = step part (item parts (i + 1)) s in loop fuel parts (i + k) s'
]

-- `dest[1:].split("]:", 1)[0]` of a bracketed destination
abbrev cut_at : String → Option ℕ → String
cut_at s none = s
cut_at s (some i) = slice s 0 i

unfoldable pub unbracket : String → String
unbracket dest =
    if starts "[" dest && is_some (find? dest "]:")
    then cut_at (slice dest 1 (len dest)) (find? (slice dest 1 (len dest)) "]:")
    else dest

abbrev at_sign : String → Option ℕ → String × String
at_sign dest none = ("", dest)
at_sign dest (some i) = (slice dest 0 i, slice dest (i + 1) (len dest))

unfoldable pub split_user_host : String → String × String
unfolding unbracket
split_user_host dest = at_sign (unbracket dest) (find? (unbracket dest) "@")

-- Whether a block is that of the host, the user and the port.
unfoldable pub is_match : String → String → ℕ → HostBlock → Bool
is_match host user port block =
    (same_lower host block.alias || (nonempty block.hostname && same_lower host block.hostname))
    && (not (
          not (nat_beq block.port 0)
          && (not (nat_beq port 22 || nat_beq port block.port) && not (nat_beq block.port port)))
        && not (nonempty user && (nonempty block.user && not (user == block.user))))

unfoldable pub find_alias : String → String → ℕ → List HostBlock → String
unfolding is_match
find_alias host user port [] = ""
find_alias host user port (block ∷ blocks) =
    let rest = find_alias host user port blocks in
    if is_match host user port block then block.alias else rest

unfoldable pub match_ssh_alias : String → String → ℕ → List HostBlock → String
unfolding find_alias
match_ssh_alias host user port blocks =
    if nonempty host then find_alias host user port blocks else ""

-- After the loop.
unfoldable pub conclude : List HostBlock → Scan → SshTarget
unfolding match_ssh_alias split_user_host
conclude blocks s =
    let (user, host) = split_user_host s.dest in
    let named = nonempty s.user_flag && not (nonempty user) in
    let user' = if named then s.user_flag else user in
    let dest = if named && nonempty host then user' <> ("@" <> host) else s.dest in
    record {
      dest = dest;
      port = if nat_beq s.port 0 then 22 else s.port;
      matched_alias = match_ssh_alias (if nonempty host then host else dest) user' s.port blocks;
    }

-- `if parts[0].lower() in {"ssh", "ssh.exe"}: parts = parts[1:]`
unfoldable pub arguments : List String → List String
arguments [] = []
arguments (part ∷ parts) =
    if same_lower part "ssh" || same_lower part "ssh.exe" then parts else part ∷ parts

abbrev concluded : List HostBlock → Option Scan → Option SshTarget
concluded blocks none = none
concluded blocks (some s) = some (conclude blocks s)

abbrev pub no_target : SshTarget
no_target = record { dest = ""; port = 22; matched_alias = "" }

-- `parse_ssh_target`, on the words of the command, with the length of them as fuel.
unfoldable pub parse_ssh_target : List HostBlock → List String → Option SshTarget
parse_ssh_target blocks [] = some no_target
parse_ssh_target blocks (part ∷ parts) =
    let words = arguments (part ∷ parts) in concluded blocks (loop (length words) words 0 start)

abbrev stored_of : Option SshTarget → Option String
stored_of none = none
stored_of (some t) = some (stored t)

unfoldable pub normalize_server : List HostBlock → List String → Option String
unfolding parse_ssh_target stored
normalize_server blocks words = stored_of (parse_ssh_target blocks words)

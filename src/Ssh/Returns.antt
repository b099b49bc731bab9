-- ===== src/Ssh/Returns.antt =====
-- The loop of `parse_ssh_target` ends.
use dual_tmux.Prelude.{ℕ, Bool, if◌then◌else◌, string_eq}
use dual_tmux.Ssh.Target.{Scan}

-- The branches of a round.
abbrev branch :
    Bool → Bool → Bool → Bool → Bool → Scan → Scan → Scan → Scan → Scan → Scan → ℕ × Scan
branch a b c d e x y z w v u =
    if a
    then (1, x)
    else if b
    then (1, y)
    else if c
    then (2, z)
    else if d
    then (1, w)
    else if e
    then (1, v)
    else (1, u)

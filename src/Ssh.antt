-- ===== src/Ssh.antt =====
-- `parse_ssh_target` of src/dual_tmux/sshutil.py: the words of an ssh command become a target.
pub mod Words
pub mod Target
pub mod Returns
pub mod Split
pub mod Written
pub mod RoundTrip
mod Examples

-- ===== src/Ssh/Written.antt =====
-- The words that `build_cmd` writes are parsed back to the host and the port.
use Prim.Native.Char.{}
use dual_tmux.Prelude.{
  ℕ, zero, suc, String, ◌+◌, ◌≤◌, ◌≡◌, refl, sym, ◌∙◌, Bool, true, false, not, ◌&&◌, Option, none,
  some, List, [], ◌∷◌, ◌++◌, map, arith, eq_iff, nat_beq, ◌==◌, string_eq, contains, nonempty,
  Bool-cases, inl, inr,
}
use dual_tmux.Ssh.Words.{
  codes, lower, prefix_of, starts, starts_lower, is_digits, number, same_lower,
}
use dual_tmux.Ssh.Target.{
  Scan, SshTarget, HostBlock, flagged, value_flags, step, item, loop, conclude, parse_ssh_target,
  arguments, start,
}
use dual_tmux.Nodes.Library.{Library}
use dual_tmux.Nodes.Command.{options, extra_args}

-- A destination that is no option.
pub record IsPlain (dest : String) : Type 0 where
  pub given : nonempty dest ≡ true
  pub positional : starts "-" dest ≡ false

prefix_of-lower :
    (p : List ℕ) (word : List ℕ)
    → prefix_of (45 ∷ []) word ≡ false
    → prefix_of (45 ∷ p) (map lower word) ≡ false
prefix_of-lower p [] h = refl
prefix_of-lower p (c ∷ word) h = ground arith

prefix_of-word :
    (p : List ℕ) (word : List ℕ)
    → prefix_of (45 ∷ []) word ≡ false
    → prefix_of (45 ∷ p) word ≡ false
prefix_of-word p [] h = refl
prefix_of-word p (c ∷ word) h = ground arith

-- The options without the name of the program.
abbrev given : List String
given =
    "-t" ∷ "-o" ∷ "StrictHostKeyChecking=accept-new" ∷ "-o" ∷ "ServerAliveInterval=15" ∷ "-o"
    ∷ "ServerAliveCountMax=3" ∷ []

abbrev dashed : List String → Bool
dashed [] = true
dashed (f ∷ flags) = starts "-" f && dashed flags

not_flag :
    (flags : List String) (word : String)
    → dashed flags ≡ true
    → starts "-" word ≡ false
    → contains flags word ≡ false
not_flag [] word h p = refl
not_flag (f ∷ flags) word h p = elim (Bool-cases (f == word)) [
  | inl e ↦
      let same : f ≡ word = (eq_iff f word).0 e in
      let dash : starts "-" f ≡ true = ground (arith) in cc
  | inr e ↦ rw e (not_flag flags word (ground (arith)) p)
]

module _ (dest : String) (h : IsPlain dest) where
  plain_lower : starts_lower "-oport=" dest ≡ false
  unfolding starts_lower starts
  plain_lower = prefix_of-lower (codes "oport=") (codes dest) h.positional

  plain_port : starts "-p" dest ≡ false
  unfolding starts
  plain_port = prefix_of-word (codes "p") (codes dest) h.positional

  plain_flag : contains value_flags dest ≡ false
  unfolding starts
  plain_flag = not_flag value_flags dest refl h.positional

  step-IsPlain :
      (next : Option String) (s : Scan)
      → nonempty s.dest ≡ false
      → step dest next s ≡ (1, record s { dest = dest })
  unfolding step
  step-IsPlain next s e = rw (plain_lower, plain_port, plain_flag, h.positional, e) refl

-- What `str` of a port is: digits of its value.
pub record IsPrinted {D : Type 0} (lib : Library D) (port : ℕ) : Type 0 where
  pub digital : is_digits (codes (lib.digits port)) ≡ true
  pub valued : number (codes (lib.digits port)) ≡ port

step-port :
    {D : Type 0} (lib : Library D) (port : ℕ) (s : Scan)
    → IsPrinted lib port
    → step "-p" (some (lib.digits port)) s ≡ (2, record s { port = port })
unfolding step flagged starts starts_lower
step-port lib port s h = rw (h.digital, h.valued) refl

-- One round of the loop.
round :
    (fuel : ℕ) (words : List String) (i : ℕ) (s : Scan) {part : String} {q : ℕ × Scan}
    → item words i ≡ some part
    → step part (item words (i + 1)) s ≡ q
    → loop (suc fuel) words i s ≡ loop fuel words (i + q.0) q.1
unfolding loop
round fuel words i s e h = rw (e, loop) (rw h refl)

step-terminal : (next : Option String) (s : Scan) → step "-t" next s ≡ (1, s)
unfolding step starts starts_lower
step-terminal next s = refl

step-option :
    (value : String) (s : Scan)
    → starts_lower "port=" value ≡ false
    → step "-o" (some value) s ≡ (2, s)
unfolding step flagged starts starts_lower
step-option value s h = rw h refl

module _ {D : Type 0} (lib : Library D) (blocks : List HostBlock) (dest : String)
    (h : IsPlain dest) where
  conclude-plain :
      (port : ℕ)
      → 1 ≤ port
      → let t = conclude blocks (record { port = port; dest = dest; user_flag = "" }) in
        (t.dest ≡ dest) × (t.port ≡ port)
  unfolding conclude
  conclude-plain port positive = ground (arith)

  -- The options before the port, which leave the variables as they are.
  loop-options :
      (rest : List String) (fuel : ℕ)
      → loop (suc (suc (suc (suc fuel)))) (given ++ rest) 0 start
        ≡ loop fuel (given ++ rest) 7 start
  unfolding starts_lower
  loop-options rest fuel =
      let words : List String = given ++ rest in
      round (suc (suc (suc fuel))) words 0 start refl (step-terminal (some "-o") start)
      ∙ round (suc (suc fuel)) words 1 start refl
          (step-option "StrictHostKeyChecking=accept-new" start refl)
      ∙ round (suc fuel) words 3 start refl (step-option "ServerAliveInterval=15" start refl)
      ∙ round fuel words 5 start refl (step-option "ServerAliveCountMax=3" start refl)

  loop_end :
      (fuel : ℕ) (words : List String) (i : ℕ) (s : Scan)
      → item words i ≡ none
      → loop fuel words i s ≡ some s
  unfolding loop
  loop_end zero words i s h = rw (h, loop) refl
  loop_end (suc fuel) words i s h = rw (h, loop) refl

  loop-default : loop 8 (given ++ (dest ∷ [])) 0 start ≡ some (record start { dest = dest })
  loop-default =
      loop-options (dest ∷ []) 4
      ∙ round 3 (given ++ (dest ∷ [])) 7 start refl (step-IsPlain dest h none start refl)
      ∙ loop_end 3 (given ++ (dest ∷ [])) 8 _ refl

  loop-port :
      (port : ℕ)
      → IsPrinted lib port
      → loop 10 (given ++ ("-p" ∷ lib.digits port ∷ dest ∷ [])) 0 start
        ≡ some (record { port = port; dest = dest; user_flag = "" })
  loop-port port printed =
      let words : List String = given ++ ("-p" ∷ lib.digits port ∷ dest ∷ []) in
      loop-options ("-p" ∷ lib.digits port ∷ dest ∷ []) 6
      ∙ round 5 words 7 start refl (step-port lib port start printed)
      ∙ round 4 words 9 (record start { port = port }) refl
          (step-IsPlain dest h none (record start { port = port }) refl)
      ∙ loop_end 4 words 10 _ refl

  pub parse_ssh_target-options :
      (port : ℕ)
      → 1 ≤ port
      → IsPrinted lib port
      → (target : SshTarget) × (parse_ssh_target blocks
            (options ++ (extra_args lib port ++ (dest ∷ [])))
          ≡ some target)
        × (target.dest ≡ dest)
        × (target.port ≡ port)
  unfolding parse_ssh_target arguments same_lower extra_args
  parse_ssh_target-options port positive printed =
      elim (Bool-cases (not (nat_beq port 0) && not (nat_beq port 22))) [
        | inl e ↦
            let s : Scan = record { port = port; dest = dest; user_flag = "" } in
            (
              conclude blocks s,
              rw e (rw (loop-port port printed) refl),
              (conclude-plain port positive).0,
              (conclude-plain port positive).1,
            )
        | inr e ↦
            let usual : port ≡ 22 = ground (arith) in
            (
              conclude blocks (record start { dest = dest }),
              rw e (rw loop-default refl),
              (conclude-plain 22 (omega arith)).0,
              (conclude-plain 22 (omega arith)).1 ∙ sym usual,
            )
      ]

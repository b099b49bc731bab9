-- ===== src/Orphan/Legal.antt =====
-- Which process of a run point is the legal writer.
use mathlib.Core.Path.{subst}
use dual_tmux.Prelude.{
  ◌≤◌, ◌≡◌, ◌≢◌, refl, sym, ap, ◌∙◌, ◌⊎◌, inl, inr, String, Bool, true, false, Option, none, some,
  List, [], ◌∷◌, arith, select, All, All-map,
}
use dual_tmux.Prelude.{if◌then◌else◌, leb, nat_eq}
use dual_tmux.Orphan.Scan.{
  Process, classify, is_agent, has_age, is_bound, pool_of, age_of, youngest,
}

-- The process is one of the list.
abbrev pub IsAmong : Process → List Process → Type 0
IsAmong q [] = ⊥
IsAmong q (p ∷ pool) = (q ≡ p) ⊎ IsAmong q pool

-- The process is a youngest one of the pool; there is none in an empty pool.
abbrev pub Youngest : Option Process → List Process → Type 0
Youngest none pool = pool ≡ []
Youngest (some q) pool = IsAmong q pool × All (λ p. age_of q ≤ age_of p) pool

youngest-Youngest : (pool : List Process) → Youngest (youngest pool) pool
unfolding youngest
youngest-Youngest [] = refl
youngest-Youngest (p ∷ pool) = by_rest (youngest pool) (youngest-Youngest pool)
  where
    below :
        (q : Process)
        → age_of p ≤ age_of q
        → All (λ x. age_of q ≤ age_of x) pool
        → All (λ x. age_of p ≤ age_of x) pool
    below q h all =
        All-map (λ x. age_of q ≤ age_of x) (λ x. age_of p ≤ age_of x) (λ x g. omega (arith, h, g))
          pool all

    chosen :
        (q : Process) (b : Bool)
        → leb (age_of p) (age_of q) ≡ b
        → Youngest (some q) pool
        → Youngest (if b then some p else some q) (p ∷ pool)
    chosen q true e (m, h) = (inl refl, (omega arith, below q (ground arith) h))
    chosen q false e (m, h) = (inr m, (ground arith, h))

    by_rest :
        (r : Option Process)
        → Youngest r pool
        → Youngest
            (elim r [
              | none ↦ some p
              | some q ↦ if leb (age_of p) (age_of q) then some p else some q
            ])
            (p ∷ pool)
    by_rest none h = (inl refl, (omega arith, rw h tt))
    by_rest (some q) h = chosen q _ refl h

-- What a selection has is in the list and passes the test, and what passes is in it.
IsAmong-select :
    (keep : Process → Bool) (q : Process) (rows : List Process)
    → IsAmong q (select keep rows)
    → IsAmong q rows × (keep q ≡ true)
unfolding select
IsAmong-select keep q [] h = absurd h
IsAmong-select keep q (p ∷ rows) h = by_test (λ m. IsAmong-select keep q rows m) (keep p) refl h
  where
    by_test :
        (IsAmong q (select keep rows) → IsAmong q rows × (keep q ≡ true))
        → (b : Bool) → keep p ≡ b
        → IsAmong q (if b then p ∷ select keep rows else select keep rows)
        → IsAmong q (p ∷ rows) × (keep q ≡ true)
    by_test rest true e (inl same) = (inl same, ap keep same ∙ e)
    by_test rest true e (inr later) = let (m, k) = rest later in (inr m, k)
    by_test rest false e later = let (m, k) = rest later in (inr m, k)

All-of-select :
    (P : Process → Type 0) (keep : Process → Bool) (rows : List Process)
    → All P (select keep rows)
    → All (λ p. keep p ≡ true → P p) rows
unfolding select
All-of-select P keep [] h = tt
All-of-select P keep (p ∷ rows) h = by_test (λ g. All-of-select P keep rows g) (keep p) refl h
  where
    by_test :
        (All P (select keep rows) → All (λ x. keep x ≡ true → P x) rows)
        → (b : Bool) → keep p ≡ b
        → All P (if b then p ∷ select keep rows else select keep rows)
        → All (λ x. keep x ≡ true → P x) (p ∷ rows)
    by_test rest true e (h, hs) = (λ k. h, rest hs)
    by_test rest false e hs = (λ k. cc, rest hs)

-- `P` holds of every agent of known age.
abbrev pub Each : (Process → Type 0) → List Process → Type 0
Each P rows = All (λ p. is_agent p ≡ true → has_age p ≡ true → P p) rows

All-Each :
    (P : Process → Type 0) (rows : List Process)
    → All P (select has_age (select is_agent rows))
    → Each P rows
All-Each P rows h =
    All-of-select (λ p. has_age p ≡ true → P p) is_agent rows
      (All-of-select P has_age (select is_agent rows) h)

-- An agent of known age that is a legal writer: it names the bound session and no other that names it
-- is younger, or none names it and no other is younger.
pub record IsLegal (session_id : String) (rows : List Process) (q : Process) : Type 0 where
  pub listed : IsAmong q rows
  pub agent : is_agent q ≡ true
  pub aged : has_age q ≡ true
  pub youngest :
      ((is_bound session_id q ≡ true)
        × Each (λ p. is_bound session_id p ≡ true → age_of q ≤ age_of p) rows)
      ⊎ (Each (λ p. is_bound session_id p ≢ true) rows × Each (λ p. age_of q ≤ age_of p) rows)

abbrev pub Legal : String → List Process → Option Process → Type 0
Legal session_id rows none = Each (λ p. ⊥) rows
Legal session_id rows (some q) = IsLegal session_id rows q

module _ (session_id : String) (rows : List Process) where
  abbrev aged_agents : List Process
  aged_agents = select has_age (select is_agent rows)

  listed_agent :
      (q : Process)
      → IsAmong q aged_agents
      → IsAmong q rows × (is_agent q ≡ true) × (has_age q ≡ true)
  listed_agent q h =
      let (m, aged) = IsAmong-select has_age q (select is_agent rows) h in
      let (n, agent) = IsAmong-select is_agent q rows m in (n, agent, aged)

  unbound :
      select (is_bound session_id) aged_agents ≡ [] → Each (λ p. is_bound session_id p ≢ true) rows
  unbound e = All-Each _ rows (
      All-of-select (λ p. ⊥) (is_bound session_id) aged_agents
        (subst (λ (l : List Process). All (λ p. ⊥) l) (sym e) tt))

  by_pool :
      (bound : List Process) (o : Option Process)
      → select (is_bound session_id) aged_agents ≡ bound
      → Youngest o (elim bound [ [] ↦ aged_agents | p ∷ more ↦ p ∷ more ])
      → Legal session_id rows o
  by_pool [] none e h =
      All-Each (λ p. ⊥) rows (subst (λ (l : List Process). All (λ p. ⊥) l) (sym h) tt)
  by_pool [] (some q) e (m, least) =
      let (n, agent, aged) = listed_agent q m in
      record {
        listed = n;
        agent = agent;
        aged = aged;
        youngest = inr (unbound e, All-Each (λ p. age_of q ≤ age_of p) rows least);
      }
  by_pool (b ∷ bound) none e h = cc
  by_pool (b ∷ bound) (some q) e (m, least) =
      let there = subst (λ (l : List Process). IsAmong q l) (sym e) m in
      let (k, names) = IsAmong-select (is_bound session_id) q aged_agents there in
      let (n, agent, aged) = listed_agent q k in
      record {
        listed = n;
        agent = agent;
        aged = aged;
        youngest = inl (
          names,
          All-Each _ rows (
              All-of-select (λ p. age_of q ≤ age_of p) (is_bound session_id) aged_agents
                (subst (λ (l : List Process). All (λ p. age_of q ≤ age_of p) l) (sym e) least)),
        );
      }

  -- The legal writer of a run point is an agent of known age. It names the bound session, and no such
  -- agent that names it is younger; or none of them names it, and none of them is younger. There is
  -- no legal writer only if there is no agent of known age.
  pub classify-Legal : Legal session_id rows (classify session_id rows).legal
  unfolding classify
  classify-Legal =
      by_pool (select (is_bound session_id) aged_agents) (youngest (pool_of session_id aged_agents))
        refl (youngest-Youngest (pool_of session_id aged_agents))

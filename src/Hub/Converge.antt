-- ===== src/Hub/Converge.antt =====
-- The loop of the merge over the names: every name is resolved once and then stays.
use mathlib.Core.Path.{subst}
use dual_tmux.Prelude.{
  String, ◌≡◌, refl, ◌∙◌, ap, inl, inr, true, Option, List, [], ◌∷◌, Bool-cases,
}
use dual_tmux.Prelude.{if◌then◌else◌, ◌==◌, string_eq, contains}
use dual_tmux.Hub.Merge.{Reader, Merging, copies, merge_name, merge_names, merge_entries}
use dual_tmux.Hub.Step.{resolved, after, copies-merge_name, Agrees, after-Agrees, resolved-Agrees}

module _ (reader : Reader) where
  -- A round keeps what is agreed on any name.
  merge_name-Agrees :
      (name k : String) (m : Merging) (live tomb : Option String)
      → Agrees (copies k m) live tomb
      → Agrees (copies k (merge_name reader name m)) live tomb
  merge_name-Agrees name k m live tomb h =
      rw (copies-merge_name reader name k m) (elim (Bool-cases (name == k)) [
        | inl e ↦
            let same = resolved-Agrees reader (copies k m) live tomb h in
            rw e (
              subst (λ r. Agrees (after reader (copies k m)) r.0 r.1) same
                (after-Agrees reader (copies k m)))
        | inr e ↦ rw e h
      ])

  pub merge_names-Agrees :
      (ns : List String) (k : String) (m : Merging) (live tomb : Option String)
      → Agrees (copies k m) live tomb
      → Agrees (copies k (merge_names reader ns m)) live tomb
  unfolding merge_names
  merge_names-Agrees [] k m live tomb h = h
  merge_names-Agrees (n ∷ ns) k m live tomb h =
      merge_names-Agrees ns k (merge_name reader n m) live tomb
        (merge_name-Agrees n k m live tomb h)

  -- A name of the list is resolved.
  pub merge_names-Resolves :
      (ns : List String) (k : String) (m : Merging)
      → contains ns k ≡ true
      → Agrees
          (copies k (merge_names reader ns m))
          (resolved reader (copies k m)).0
          (resolved reader (copies k m)).1
  unfolding merge_names
  merge_names-Resolves [] k m h = cc
  merge_names-Resolves (n ∷ ns) k m h = elim (Bool-cases (n == k)) [
    | inl e ↦
        merge_names-Agrees ns k (merge_name reader n m) _ _
          (rw (copies-merge_name reader n k m) (rw e (after-Agrees reader (copies k m))))
    | inr e ↦
        let later : contains ns k ≡ true = rw e at h in
        let same : copies k (merge_name reader n m) ≡ copies k m =
          copies-merge_name reader n k m
          ∙ ap (λ b. if b then after reader (copies k m) else copies k m) e in
        subst
          (λ c.
            Agrees (copies k (merge_names reader ns (merge_name reader n m))) (resolved reader c).0
              (resolved reader c).1)
          same (merge_names-Resolves ns k (merge_name reader n m) later)
  ]

  pub copies-merge_entries :
      (es : List String) (k : String) (m : Merging)
      → copies k (merge_entries reader es m) ≡ copies k m
  unfolding merge_entries
  copies-merge_entries [] k m = refl
  copies-merge_entries (e ∷ es) k m = copies-merge_entries es k _

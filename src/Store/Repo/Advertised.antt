-- ===== src/Store/Repo/Advertised.antt =====
-- VisibleRefs: the references that a git client is shown are those of the visible commits.
use git_simulator.Base.{
  String, Bool-cases, true, false, ◌==◌, ◌≡◌, refl, sym, ◌∙◌, ap, none, some, Option-cases, inl,
  inr, List, [], ◌∷◌, ℤ, string_eq, lookup, lookup-insert, arith, eq_iff, subst, str_eq_refl, ◌⊎◌,
}
use git_simulator.Store.Git.{Git, GitLaws, hash}
use git_simulator.Store.Refs.{BranchState, resolve, is_due}
use git_simulator.Store.Repo.{
  Repo, settle, settle_branch, settle_all, visible_commit, visible_refs, head_ref,
}
use git_simulator.Store.Repo.Branches.{shown, visible_commit-shown, branches-settle}
use git_simulator.Store.Repo.Race.{shown-resolve}
use git_simulator.Store.Repo.Sync.{IsSynced}
use git_simulator.Store.Repo.Calls.{visible_refs-IsSynced}

resolve-again :
    (now : ℤ) (bs : BranchState)
    → (resolve now (resolve now bs).0).1 ≡ (resolve now bs).0.visible_sha
unfolding resolve
resolve-again now bs = elim (Bool-cases (is_due now bs)) [
  | inl due ↦ rw due (ground (arith, str_eq_refl ""))
  | inr early ↦ rw (early, early) refl
]

module _ (g : Git) (now : ℤ) (b : String) where
  -- The branch is there, and nothing of it is due.
  record Settled (r : Repo g) : Type 0 where
    state : BranchState
    found : lookup b r.branches ≡ some state
    current : (resolve now state).1 ≡ state.visible_sha

  found_other :
      (b' : String) (bs' : BranchState) (r : Repo g)
      → (b' == b) ≡ false
      → lookup b (settle g now b' bs' r).2.branches ≡ lookup b r.branches
  found_other b' bs' r ne =
      ap (lookup b) (branches-settle g now b' bs' r)
      ∙ lookup-insert b' b (resolve now bs').0 r.branches
      ∙ rw ne refl

  found_self :
      (b' : String) (bs' : BranchState) (r : Repo g)
      → (b' == b) ≡ true
      → lookup b (settle g now b' bs' r).2.branches ≡ some (resolve now bs').0
  found_self b' bs' r e =
      ap (lookup b) (branches-settle g now b' bs' r)
      ∙ lookup-insert b' b (resolve now bs').0 r.branches
      ∙ rw e refl

  resolved-Settled :
      (bs : BranchState) (r : Repo g) → lookup b r.branches ≡ some (resolve now bs).0 → Settled r
  resolved-Settled bs r h = record {
    state = (resolve now bs).0;
    found = h;
    current = resolve-again now bs;
  }

  same_branch :
      (b' : String) (bs' : BranchState) (r : Repo g)
      → lookup b' r.branches ≡ some bs'
      → (b' == b) ≡ true
      → lookup b r.branches ≡ some bs'
  same_branch b' bs' r at e = subst (λ k. lookup k r.branches ≡ some bs') ((eq_iff b' b).0 e) at

  settle_branch-Settled :
      (b' : String) (r : Repo g)
      → Settled r
      → Settled (settle_branch g now b' (lookup b' r.branches) r)
  unfolding settle_branch
  settle_branch-Settled b' r s = elim (Option-cases (lookup b' r.branches)) [
    | inl p ↦ rw p s
    | inr (bs', p) ↦ rw p (elim (Bool-cases (b' == b)) [
      | inl e ↦ resolved-Settled bs' _ (found_self b' bs' r e)
      | inr e ↦ record {
        state = s.state;
        found = found_other b' bs' r e ∙ s.found;
        current = s.current;
      }
    ])
  ]

  -- The branch's own round settles it.
  settle_branch-own :
      (b' : String) (bs : BranchState) (r : Repo g)
      → (b' == b) ≡ true
      → lookup b r.branches ≡ some bs
      → Settled (settle_branch g now b' (lookup b' r.branches) r)
  unfolding settle_branch
  settle_branch-own b' bs r e at = elim (Option-cases (lookup b' r.branches)) [
    | inl p ↦ absurd (missing p)
    | inr (bs', p) ↦ rw p (resolved-Settled bs' _ (found_self b' bs' r e))
  ]
    where
      missing : lookup b' r.branches ≡ none → ⊥
      missing p =
          let q : lookup b r.branches ≡ none =
            subst (λ k. lookup k r.branches ≡ none) ((eq_iff b' b).0 e) p in
          cc

  settle_branch-shown :
      (b' : String) (r : Repo g)
      → shown g now (lookup b (settle_branch g now b' (lookup b' r.branches) r).branches)
        ≡ shown g now (lookup b r.branches)
  unfolding settle_branch
  settle_branch-shown b' r = elim (Option-cases (lookup b' r.branches)) [
    | inl p ↦ rw p refl
    | inr (bs', p) ↦ rw p (elim (Bool-cases (b' == b)) [
      | inl e ↦
          ap (shown g now) (found_self b' bs' r e)
          ∙ shown-resolve g now now bs' (omega arith)
          ∙ ap (shown g now) (sym (same_branch b' bs' r p e))
      | inr e ↦ ap (shown g now) (found_other b' bs' r e)
    ])
  ]

  settle_branch-found :
      (b' : String) (bs : BranchState) (r : Repo g)
      → lookup b r.branches ≡ some bs
      → (bs₁ : BranchState) × (lookup b (settle_branch g now b' (lookup b' r.branches) r).branches
          ≡ some bs₁)
  unfolding settle_branch
  settle_branch-found b' bs r at = elim (Option-cases (lookup b' r.branches)) [
    | inl p ↦ rw p (bs, at)
    | inr (bs', p) ↦ rw p (elim (Bool-cases (b' == b)) [
      | inl e ↦ ((resolve now bs').0, found_self b' bs' r e)
      | inr e ↦ (bs, found_other b' bs' r e ∙ at)
    ])
  ]

  settle_all-shown :
      (bs : List (String × BranchState)) (r : Repo g)
      → shown g now (lookup b (settle_all g (λ _. now) bs r).branches)
        ≡ shown g now (lookup b r.branches)
  unfolding settle_all
  settle_all-shown [] r = refl
  settle_all-shown ((b', _) ∷ bs) r = settle_all-shown bs _ ∙ settle_branch-shown b' r

  settle_all-Settled :
      (bs : List (String × BranchState)) (r : Repo g) (st : BranchState)
      → lookup b r.branches ≡ some st
      → Settled r ⊎ ((x : BranchState) × (lookup b bs ≡ some x))
      → Settled (settle_all g (λ _. now) bs r)
  unfolding settle_all lookup
  settle_all-Settled [] r st at (inl s) = s
  settle_all-Settled [] r st at (inr (x, h)) = cc
  settle_all-Settled ((b', _) ∷ bs) r st at (inl s) =
      let (st₁, at₁) = settle_branch-found b' st r at in
      settle_all-Settled bs _ st₁ at₁ (inl (settle_branch-Settled b' r s))
  settle_all-Settled ((b', w) ∷ bs) r st at (inr (x, h)) =
      let (st₁, at₁) = settle_branch-found b' st r at in
      elim (Bool-cases (b' == b)) [
        | inl e ↦ settle_all-Settled bs _ st₁ at₁ (inl (settle_branch-own b' st r e at))
        | inr e ↦ settle_all-Settled bs _ st₁ at₁ (inr (x, rw e at h))
      ]

module _ (g : Git) (laws : GitLaws g) (now : ℤ) (b : String) (r : Repo g) (bs : BranchState)
    (there : lookup b r.branches ≡ some bs) (synced : IsSynced g r) where
  abbrev refreshed : Repo g
  refreshed = settle_all g (λ _. now) r.branches r

  settled : Settled g now b refreshed
  settled = settle_all-Settled g now b r.branches r bs there (inr (bs, there))

  advertised-settled :
      g.reference refreshed.storer (head_ref b)
      ≡ some (hash (g.new_hash (resolve now settled.state).1))
  unfolding visible_refs
  advertised-settled =
      ((visible_refs-IsSynced g laws (λ _. now) r synced).shows b settled.state settled.found).0
      ∙ ap (λ sha. some (hash (g.new_hash sha))) (sym settled.current)

  -- When the storer agrees with the branches, then after VisibleRefs at some time the reference of
  -- each branch, which a git client is shown, is the commit that VisibleCommit returns at that time.
  pub visible_refs-visible_commit :
      g.reference (visible_refs g (λ _. now) r).1.storer (head_ref b)
      ≡ some (hash (g.new_hash (visible_commit g now b r).0.0))
  unfolding visible_refs
  visible_refs-visible_commit =
      advertised-settled
      ∙ ap (λ o. some (hash (g.new_hash o.0)))
          (ap (shown g now) (sym settled.found)
            ∙ settle_all-shown g now b r.branches r
            ∙ sym (visible_commit-shown g now b r))

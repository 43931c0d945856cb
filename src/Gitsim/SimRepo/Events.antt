-- ===== src/Gitsim/SimRepo/Events.antt =====
-- The push events of a handle: what the webhook of a commit says was pushed.
use git_simulator.Base.{
  ℕ, suc, String, ◌==◌, ◌≡◌, refl, ap, ◌∙◌, Bool, Bool-cases, true, false, if◌then◌else◌, Option,
  none, some, List, ℤ, pos, string_eq, lookup, insert, lookup-insert, lookup-insert_self, inl, inr,
}
use git_simulator.Core.Errors.{Result, ok, ok_inj, Result-cases}
use git_simulator.Core.Content.{ContentProvider}
use git_simulator.Store.Git.{Git, GitLaws}
use git_simulator.Store.Repo
use git_simulator.Store.Repo.{Repo, add_commit}
use git_simulator.Store.Repo.Race.{visible-push, seen_after}
use git_simulator.Gitsim.Options.{PushConfig}
use git_simulator.Gitsim.SimRepo.{
  SimRepo, default_branch, get_or_empty, build_event, visible_commit, push_with, recorded, readings,
}

get_or_empty-found :
    (key v : String) (m : List (String × String)) → lookup key m ≡ some v → get_or_empty key m ≡ v
get_or_empty-found key v m h = ap (λ (o : Option String). elim o [ none ↦ "" | some x ↦ x ]) h

module _ (g : Git) (clock : ℕ → ℤ) (content : ContentProvider) where
  abbrev read : String → SimRepo g → SimRepo g
  read b r = (visible_commit g clock content b r).1

  -- The commit of a push, and the handle before the maps are written.
  abbrev made : PushConfig → SimRepo g → Result String × Repo g
  made cfg r =
      let r₁ = read cfg.branch r in
      add_commit g (readings g clock content r₁.tick) content cfg.branch cfg.delay r₁.repo

  -- What a push that succeeds leaves.
  record Pushed (cfg : PushConfig) (r : SimRepo g) (sha : String) (r' : SimRepo g) : Type 0 where
    commit : (made cfg r).0 ≡ ok sha
    repo : r'.repo ≡ (made cfg r).1
    branches : r'.sha_branch ≡ insert sha cfg.branch r.sha_branch
    prevs :
        r'.prev_sha ≡ insert cfg.branch (visible_commit g clock content cfg.branch r).0.0 r.prev_sha

  push-Pushed :
      (cfg : PushConfig) (r : SimRepo g) (sha : String)
      → (push_with g clock content cfg r).0 ≡ ok sha
      → Pushed cfg r sha (push_with g clock content cfg r).1
  unfolding push_with visible_commit recorded
  push-Pushed cfg r sha h = elim (Result-cases (made cfg r).0) [
    | inr (e, p) ↦ let h' = rw p at h in cc
    | inl (a, p) ↦
        let same : a ≡ sha = ok_inj (rw p at h) in
        rw p (record {
          commit = p ∙ ap ok same;
          repo = refl;
          branches = ap (λ x. insert x cfg.branch r.sha_branch) same;
          prevs = refl;
        })
  ]

  module _ (cfg : PushConfig) (named : (cfg.branch == "") ≡ false) where
    event-of_maps :
        (sha : String) (r' : SimRepo g)
        → lookup sha r'.sha_branch ≡ some cfg.branch
        → ((build_event g sha "" r').branch ≡ cfg.branch)
          × ((build_event g sha "" r').before ≡ get_or_empty cfg.branch r'.prev_sha)
    unfolding build_event
    event-of_maps sha r' known =
        let is_branch = get_or_empty-found sha cfg.branch r'.sha_branch known in
        (
          ap (λ (b : String). if b == "" then default_branch g r' else b) is_branch ∙ rw named,
          ap (λ b. get_or_empty b r'.prev_sha) is_branch,
        )

    -- The event of a commit, right after its push: its branch, the commit that was visible before the
    -- push, and the commit.
    pub build_event-push_with :
        (r : SimRepo g) (sha : String)
        → (push_with g clock content cfg r).0 ≡ ok sha
        → ((build_event g sha "" (push_with g clock content cfg r).1).branch ≡ cfg.branch)
          × ((build_event g sha "" (push_with g clock content cfg r).1).before
              ≡ (visible_commit g clock content cfg.branch r).0.0)
          × ((build_event g sha "" (push_with g clock content cfg r).1).after ≡ sha)
    unfolding build_event
    build_event-push_with r sha h =
        let p = push-Pushed cfg r sha h in
        let seen = (visible_commit g clock content cfg.branch r).0.0 in
        let (branch, before) =
          event-of_maps sha (push_with g clock content cfg r).1
            (rw (p.branches) (lookup-insert_self sha cfg.branch r.sha_branch)) in
        (
          branch,
          before
              ∙ get_or_empty-found cfg.branch seen _
                  (rw (p.prevs) (lookup-insert_self cfg.branch seen r.prev_sha)),
          refl,
        )

    -- Of two pushes to a branch, the first without a delay: whatever the second one's delay, the event of
    -- the first commit that is built after both says that the branch moved from this commit to itself.
    pub build_event_after_two_pushes :
        GitLaws g
        → (delay : ℤ) (r : SimRepo g) (first second : String) → cfg.delay ≡ pos 0
        → (push_with g clock content cfg r).0 ≡ ok first
        → (push_with g clock content
            (record cfg { delay = delay })
            (push_with g clock content cfg r).1).0
          ≡ ok second
        → ((build_event g first ""
              (push_with g clock content
                (record cfg { delay = delay })
                (push_with g clock content cfg r).1).1).before
            ≡ first)
          × ((build_event g first ""
                (push_with g clock content
                  (record cfg { delay = delay })
                  (push_with g clock content cfg r).1).1).after
              ≡ first)
    unfolding build_event visible_commit
    build_event_after_two_pushes laws delay r first second zero_delay h₁ h₂ =
        let cfg₂ : PushConfig = record cfg { delay = delay } in
        let r₁ = (push_with g clock content cfg r).1 in
        let p = push-Pushed cfg r first h₁ in
        let q = push-Pushed cfg₂ r₁ second h₂ in
        let start = read cfg.branch r in
        let t = clock r₁.tick in
        let shown : (Repo.visible_commit g t cfg.branch r₁.repo).0 ≡ (first, true) =
          ap (λ (x : Repo g). (Repo.visible_commit g t cfg.branch x).0) p.repo
          ∙ visible-push g laws (readings g clock content start.tick) content cfg.branch cfg.delay
              start.repo first p.commit t
          ∙ ap
              (λ d.
                seen_after t (clock (suc (suc start.tick))) d
                  (Repo.visible_commit g (clock start.tick) cfg.branch start.repo).0 (first, true))
              zero_delay in
        let known : lookup first (push_with g clock content cfg₂ r₁).1.sha_branch
            ≡ some cfg.branch =
          rw
            (
              q.branches,
              p.branches,
              lookup-insert second first cfg.branch (insert first cfg.branch r.sha_branch),
              lookup-insert_self first cfg.branch r.sha_branch,
            )
            (elim (Bool-cases (second == first)) [ inl e ↦ rw e | inr e ↦ rw e ]) in
        (
          (event-of_maps first (push_with g clock content cfg₂ r₁).1 known).1
              ∙ get_or_empty-found cfg.branch first _ (
                  rw (q.prevs) (
                    lookup-insert_self cfg.branch (visible_commit g clock content cfg.branch r₁).0.0
                      r₁.prev_sha
                    ∙ ap (λ (x : String × Bool). some x.0) shown)),
          refl,
        )

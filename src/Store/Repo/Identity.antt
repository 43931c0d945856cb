-- ===== src/Store/Repo/Identity.antt =====
-- No call changes a repository's identity or its default branch.
use git_simulator.Base.{
  ℕ, suc, String, ◌≡◌, refl, ◌∙◌, Bool, Option, none, some, List, [], ◌∷◌, ℤ, lookup, Option-cases,
  inl, inr, arith, string_eq,
}
use git_simulator.Core.Errors.{Result-cases}
use git_simulator.Core.Content.{Files, ContentProvider}
use git_simulator.Store.Git.{Git}
use git_simulator.Store.Refs.{BranchState}
use git_simulator.Store.Repo.{
  Repo, Readings, settle, publish, store_commit, commit_on, context_of, add_commit, visible_commit,
  settle_branch, settle_all, visible_refs,
}
use git_simulator.Store.Repo.Tags.{add_tag, tag_on, tag_target}
use git_simulator.Store.Repo.Calls.{Call, adds_commit, reads_commit, reads_refs, adds_tag, step}

module _ (g : Git) where
  -- r.Identity() and r.DefaultBranch()
  abbrev pub frame : Repo g → String × String × String × String
  frame r = (r.host, r.owner, r.name, r.default_branch)

  settle-frame :
      (now : ℤ) (b : String) (bs : BranchState) (r : Repo g)
      → frame (settle g now b bs r).2 ≡ frame r
  unfolding settle
  settle-frame now b bs r = ground arith

  publish-frame :
      (now delay : ℤ) (b sha : String) (bs : BranchState) (r : Repo g)
      → frame (publish g now delay b sha bs r) ≡ frame r
  unfolding publish
  publish-frame now delay b sha bs r = ground arith

  store_commit-frame :
      (t : Readings) (b : String) (delay : ℤ) (parent : String) (bs : BranchState) (files : Files)
      (r : Repo g)
      → frame (store_commit g t b delay parent bs files r).1 ≡ frame r
  unfolding store_commit
  store_commit-frame t b delay parent bs files r = ground arith

  commit_on-frame :
      (t : Readings) (content : ContentProvider) (b : String) (delay : ℤ) (parent : String)
      (bs : BranchState) (r : Repo g)
      → frame (commit_on g t content b delay parent bs r).1 ≡ frame r
  unfolding commit_on
  commit_on-frame t content b delay parent bs r =
      elim (Result-cases (content (context_of g r b parent (suc bs.commit_index)))) [
        | inr (e, p) ↦ rw p
        | inl (files, p) ↦ rw p (store_commit-frame t b delay parent bs files r)
      ]

  add_commit-frame :
      (t : Readings) (content : ContentProvider) (b : String) (delay : ℤ) (r : Repo g)
      → frame (add_commit g t content b delay r).1 ≡ frame r
  unfolding add_commit
  add_commit-frame t content b delay r = elim (Option-cases (lookup b r.branches)) [
    | inl p ↦ rw p
    | inr (bs, p) ↦
        let (parent, bs', r') = settle g t.at_resolve b bs r in
        rw p (commit_on-frame t content b delay parent bs' r' ∙ settle-frame t.at_resolve b bs r)
  ]

  visible_commit-frame :
      (now : ℤ) (b : String) (r : Repo g) → frame (visible_commit g now b r).1 ≡ frame r
  unfolding visible_commit
  visible_commit-frame now b r = elim (Option-cases (lookup b r.branches)) [
    | inl p ↦ rw p
    | inr (bs, p) ↦ rw p (settle-frame now b bs r)
  ]

  settle_branch-frame :
      (now : ℤ) (b : String) (o : Option BranchState) (r : Repo g)
      → frame (settle_branch g now b o r) ≡ frame r
  unfolding settle_branch
  settle_branch-frame now b none r = refl
  settle_branch-frame now b (some bs) r = settle-frame now b bs r

  settle_all-frame :
      (bs : List (String × BranchState)) (now : ℕ → ℤ) (r : Repo g)
      → frame (settle_all g now bs r) ≡ frame r
  unfolding settle_all
  settle_all-frame [] now r = refl
  settle_all-frame ((b, _) ∷ rest) now r =
      settle_all-frame rest (λ n. now (suc n)) (settle_branch g (now 0) b (lookup b r.branches) r)
      ∙ settle_branch-frame (now 0) b (lookup b r.branches) r

  tag_on-frame :
      (now : ℤ) (name : String) (annotated : Bool) (sha : String) (r : Repo g)
      → frame (tag_on g now name annotated sha r).1 ≡ frame r
  unfolding tag_on
  tag_on-frame now name annotated sha r =
      elim (Result-cases (tag_target g annotated now name sha r.storer).0) [
        | inr (e, p) ↦ rw p
        | inl (target, p) ↦ rw p (ground arith)
      ]

  add_tag-frame :
      (at_resolve at_tag : ℤ) (name b : String) (annotated : Bool) (r : Repo g)
      → frame (add_tag g at_resolve at_tag name b annotated r).1 ≡ frame r
  unfolding add_tag
  add_tag-frame at_resolve at_tag name b annotated r = elim (Option-cases (lookup b r.branches)) [
    | inl p ↦ rw p
    | inr (bs, p) ↦ rw p (tag_on-frame at_tag name annotated _ _ ∙ settle-frame at_resolve b bs r)
  ]

  -- Whatever a call does, the repository stays the one it was.
  pub step-frame : (c : Call) (r : Repo g) → frame (step g c r) ≡ frame r
  unfolding step visible_refs
  step-frame (adds_commit t content b delay) r = add_commit-frame t content b delay r
  step-frame (reads_commit now b) r = visible_commit-frame now b r
  step-frame (reads_refs now) r = settle_all-frame r.branches now r
  step-frame (adds_tag at_resolve at_tag name b annotated) r =
      add_tag-frame at_resolve at_tag name b annotated r

-- ===== src/Store/Repo/Grows.antt =====
-- No call on a repository takes an object away from its storer.
use git_simulator.Base.{
  String, Bool, true, false, ℤ, ℕ, suc, Option, none, some, Option-cases, List, [], ◌∷◌, inl, inr,
  string_eq, lookup, is_zero, Bool-cases,
}
use git_simulator.Core.Errors.{Result-cases}
use git_simulator.Core.Content.{Files, ContentProvider}
use git_simulator.Store.Git.{Git, Target, hash}
use git_simulator.Store.Refs.{BranchState, resolve, is_due}
use git_simulator.Store.Objects.{ObjectLaws, Grew, Grows, grows_rules}
use git_simulator.Store.Commit.{new_commit}
use git_simulator.Store.Commit.Grows.{new_commit-Grows}
use git_simulator.Store.Repo.{
  Repo, Readings, settle, sync_ref, publish, store_commit, commit_on, add_commit, visible_commit,
  settle_branch, settle_all, visible_refs, context_of, message_of, tag_ref,
}
use git_simulator.Store.Repo.Tags.{add_tag, tag_on, put_tag, tag_target, store_tag}
use git_simulator.Store.Repo.Calls.{
  Call, adds_commit, reads_commit, reads_refs, adds_tag, step, run,
}

module _ (g : Git) (laws : ObjectLaws g) where
  -- What the repository's storer holds is in the other's.
  abbrev pub RepoGrew : Repo g → Repo g → Type 0
  RepoGrew r r' = Grew g laws r.storer r'.storer

  pub set_reference-Grew :
      (n : String) (t : Target g.Hash) (s : g.State) → Grew g laws s (g.set_reference n t s).1
  set_reference-Grew n t s h o there = rw (laws.object-set_reference n t s h) there

  pub settle-Grew :
      (now : ℤ) (b : String) (bs : BranchState) (r : Repo g) → RepoGrew r (settle g now b bs r).2
  unfolding settle resolve sync_ref
  settle-Grew now b bs r = elim (Bool-cases (is_due now bs)) [
    | inl due ↦ rw due (set_reference-Grew _ _ _)
    | inr early ↦ rw early (λ h o there. there)
  ]

  pub publish-Grew :
      (now delay : ℤ) (b sha : String) (bs : BranchState) (r : Repo g)
      → RepoGrew r (publish g now delay b sha bs r)
  unfolding publish sync_ref
  publish-Grew now delay b sha bs r = elim (Bool-cases (is_zero delay)) [
    | inl now' ↦ rw now' (set_reference-Grew _ _ _)
    | inr later ↦ rw later (λ h o there. there)
  ]

  store_commit-Grew :
      (t : Readings) (b : String) (delay : ℤ) (parent : String) (bs : BranchState) (files : Files)
      (r : Repo g)
      → RepoGrew r (store_commit g t b delay parent bs files r).1
  unfolding store_commit
  store_commit-Grew t b delay parent bs files r =
      let msg = message_of g (suc bs.commit_index) b in
      let grew = (new_commit-Grows g laws parent files msg t.at_commit).at r.storer in
      elim (Result-cases (new_commit g parent files msg t.at_commit r.storer).0) [
        | inr (e, p) ↦ rw p grew
        | inl (sha, p) ↦
            rw p (λ h o there. publish-Grew t.at_schedule delay b sha bs _ h o (grew h o there))
      ]

  commit_on-Grew :
      (t : Readings) (content : ContentProvider) (b : String) (delay : ℤ) (parent : String)
      (bs : BranchState) (r : Repo g)
      → RepoGrew r (commit_on g t content b delay parent bs r).1
  unfolding commit_on
  commit_on-Grew t content b delay parent bs r =
      elim (Result-cases (content (context_of g r b parent (suc bs.commit_index)))) [
        | inr (e, p) ↦ rw p (λ h o there. there)
        | inl (files, p) ↦ rw p (store_commit-Grew t b delay parent bs files r)
      ]

  pub add_commit-Grew :
      (t : Readings) (content : ContentProvider) (b : String) (delay : ℤ) (r : Repo g)
      → RepoGrew r (add_commit g t content b delay r).1
  unfolding add_commit
  add_commit-Grew t content b delay r = elim (Option-cases (lookup b r.branches)) [
    | inl p ↦ rw p (λ h o there. there)
    | inr (bs, p) ↦ rw p (λ h o there.
        let (parent, bs', r') = settle g t.at_resolve b bs r in
        commit_on-Grew t content b delay parent bs' r' h o
          (settle-Grew t.at_resolve b bs r h o there))
  ]

  visible_commit-Grew :
      (now : ℤ) (b : String) (r : Repo g) → RepoGrew r (visible_commit g now b r).1
  unfolding visible_commit
  visible_commit-Grew now b r = elim (Option-cases (lookup b r.branches)) [
    | inl p ↦ rw p (λ h o there. there)
    | inr (bs, p) ↦ rw p (settle-Grew now b bs r)
  ]

  settle_branch-Grew :
      (now : ℤ) (b : String) (o : Option BranchState) (r : Repo g)
      → RepoGrew r (settle_branch g now b o r)
  unfolding settle_branch
  settle_branch-Grew now b none r = λ h o there. there
  settle_branch-Grew now b (some bs) r = settle-Grew now b bs r

  settle_all-Grew :
      (bs : List (String × BranchState)) (now : ℕ → ℤ) (r : Repo g)
      → RepoGrew r (settle_all g now bs r)
  unfolding settle_all
  settle_all-Grew [] now r = λ h o there. there
  settle_all-Grew ((b, _) ∷ rest) now r = λ h o there.
      settle_all-Grew rest (λ n. now (suc n)) _ h o
        (settle_branch-Grew (now 0) b (lookup b r.branches) r h o there)

  store_tag-Grows : (e : g.Encoded) → Grows g laws (store_tag g e)
  unfolding store_tag
  store_tag-Grows e = record { at = laws.object_kept e }

  pub tag_target-Grows :
      (annotated : Bool) (now : ℤ) (name sha : String)
      → Grows g laws (tag_target g annotated now name sha)
  unfolding tag_target
  tag_target-Grows false now name sha = search grows_rules
  tag_target-Grows true now name sha = search (grows_rules, store_tag-Grows)

  put_tag-Grew :
      (name : String) (annotated : Bool) (sha : String) (target : g.Hash) (r : Repo g)
      → RepoGrew r (put_tag g name annotated sha target r).1
  unfolding put_tag
  put_tag-Grew name annotated sha target r =
      elim (Result-cases (g.set_reference (tag_ref name) (hash target) r.storer).0) [
        | inr (e, p) ↦ rw p (set_reference-Grew _ _ _)
        | inl (u, p) ↦ rw p (set_reference-Grew _ _ _)
      ]

  tag_on-Grew :
      (now : ℤ) (name : String) (annotated : Bool) (sha : String) (r : Repo g)
      → RepoGrew r (tag_on g now name annotated sha r).1
  unfolding tag_on
  tag_on-Grew now name annotated sha r =
      let grew = (tag_target-Grows annotated now name sha).at r.storer in
      elim (Result-cases (tag_target g annotated now name sha r.storer).0) [
        | inr (e, p) ↦ rw p grew
        | inl (target, p) ↦
            rw p (λ h o there. put_tag-Grew name annotated sha target _ h o (grew h o there))
      ]

  add_tag-Grew :
      (at_resolve at_tag : ℤ) (name b : String) (annotated : Bool) (r : Repo g)
      → RepoGrew r (add_tag g at_resolve at_tag name b annotated r).1
  unfolding add_tag
  add_tag-Grew at_resolve at_tag name b annotated r = elim (Option-cases (lookup b r.branches)) [
    | inl p ↦ rw p (λ h o there. there)
    | inr (bs, p) ↦ rw p (λ h o there.
        tag_on-Grew at_tag name annotated _ _ h o (settle-Grew at_resolve b bs r h o there))
  ]

  pub step-Grew : (c : Call) (r : Repo g) → RepoGrew r (step g c r)
  unfolding step visible_refs
  step-Grew (adds_commit t content b delay) r = add_commit-Grew t content b delay r
  step-Grew (reads_commit now b) r = visible_commit-Grew now b r
  step-Grew (reads_refs now) r = settle_all-Grew r.branches now r
  step-Grew (adds_tag at_resolve at_tag name b annotated) r =
      add_tag-Grew at_resolve at_tag name b annotated r

  pub run-Grew : (cs : List Call) (r : Repo g) → RepoGrew r (run g cs r)
  unfolding run
  run-Grew [] r = λ h o there. there
  run-Grew (c ∷ cs) r = λ h o there. run-Grew cs (step g c r) h o (step-Grew c r h o there)

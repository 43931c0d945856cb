-- ===== src/Store/Repo/Clones.antt =====
-- Whatever calls a new repository serves, git clients can clone each branch with all its commits.
use git_simulator.Base.{
  String, Bool, false, ◌==◌, ◌≡◌, ◌∙◌, refl, sym, ℤ, ℕ, suc, Option, Option-cases, none, some,
  some_inj, List, [], ◌∷◌, inl, inr, string_eq, lookup, arith, subst, Bool-cases,
}
use git_simulator.Core.Errors.{ok, ok_inj, Result-cases}
use git_simulator.Core.Content.{Files, ContentProvider}
use git_simulator.Store.Git.{Git, GitLaws, hash, symbolic}
use git_simulator.Store.Refs.{BranchState}
use git_simulator.Store.Objects.{ObjectLaws, Grew}
use git_simulator.Store.Commit.{build_commit}
use git_simulator.Store.Commit.Effects.{build_commit-nonempty}
use git_simulator.Store.Commit.Commits.{build_commit-CommitOf}
use git_simulator.Store.Repo.{
  Repo, settle, visible_commit, settle_branch, settle_all, visible_refs, head_ref, tag_ref,
}
use git_simulator.Store.Repo.Init.{new_repo, seed_repo, fresh_branch, initial_repo, initial_context}
use git_simulator.Store.Repo.New.{point_repo-eq}
use git_simulator.Store.Repo.Tags.{add_tag, tag_on, put_tag, tag_target}
use git_simulator.Store.Repo.Grows.{set_reference-Grew, tag_target-Grows}
use git_simulator.Store.Repo.History.{
  Ancestry, first, Held, IsHeld, kept-IsHeld, settle-IsHeld, add_commit-IsHeld, Ancestry-later,
}
use git_simulator.Store.Repo.Calls.{
  Call, adds_commit, reads_commit, reads_refs, adds_tag, step, run, new_repo-run-IsSynced,
}

module _ (g : Git) (objects : ObjectLaws g) where
  visible_commit-IsHeld :
      (now : ℤ) (b : String) (r : Repo g)
      → IsHeld g objects r
      → IsHeld g objects (visible_commit g now b r).1
  unfolding visible_commit
  visible_commit-IsHeld now b r v = elim (Option-cases (lookup b r.branches)) [
    | inl p ↦ rw p v
    | inr (bs, p) ↦ rw p (settle-IsHeld g objects now b bs r v p)
  ]

  settle_branch-IsHeld :
      (now : ℤ) (b : String) (o : Option BranchState) (r : Repo g)
      → lookup b r.branches ≡ o
      → IsHeld g objects r
      → IsHeld g objects (settle_branch g now b o r)
  unfolding settle_branch
  settle_branch-IsHeld now b none r found v = v
  settle_branch-IsHeld now b (some bs) r found v = settle-IsHeld g objects now b bs r v found

  settle_all-IsHeld :
      (bs : List (String × BranchState)) (now : ℕ → ℤ) (r : Repo g)
      → IsHeld g objects r
      → IsHeld g objects (settle_all g now bs r)
  unfolding settle_all
  settle_all-IsHeld [] now r v = v
  settle_all-IsHeld ((b, _) ∷ rest) now r v =
      settle_all-IsHeld rest (λ n. now (suc n)) _ (settle_branch-IsHeld (now 0) b _ r refl v)

  put_tag-IsHeld :
      (name : String) (annotated : Bool) (sha : String) (target : g.Hash) (r : Repo g)
      → IsHeld g objects r
      → IsHeld g objects (put_tag g name annotated sha target r).1
  unfolding put_tag
  put_tag-IsHeld name annotated sha target r v =
      let kept =
        kept-IsHeld g objects _ r
          (set_reference-Grew g objects (tag_ref name) (hash target) r.storer) v in
      elim (Result-cases (g.set_reference (tag_ref name) (hash target) r.storer).0) [
        | inr (e, p) ↦ rw p kept
        | inl (u, p) ↦ rw p kept
      ]

  pub tag_on-IsHeld :
      (now : ℤ) (name : String) (annotated : Bool) (sha : String) (r : Repo g)
      → IsHeld g objects r
      → IsHeld g objects (tag_on g now name annotated sha r).1
  unfolding tag_on
  tag_on-IsHeld now name annotated sha r v =
      let kept =
        kept-IsHeld g objects _ r ((tag_target-Grows g objects annotated now name sha).at r.storer)
          v in
      elim (Result-cases (tag_target g annotated now name sha r.storer).0) [
        | inr (e, p) ↦ rw p kept
        | inl (target, p) ↦ rw p (put_tag-IsHeld name annotated sha target _ kept)
      ]

  add_tag-IsHeld :
      (at_resolve at_tag : ℤ) (name b : String) (annotated : Bool) (r : Repo g)
      → IsHeld g objects r
      → IsHeld g objects (add_tag g at_resolve at_tag name b annotated r).1
  unfolding add_tag
  add_tag-IsHeld at_resolve at_tag name b annotated r v =
      elim (Option-cases (lookup b r.branches)) [
        | inl p ↦ rw p v
        | inr (bs, p) ↦
            let (sha, _, r') = settle g at_resolve b bs r in
            rw p (
              tag_on-IsHeld at_tag name annotated sha r'
                (settle-IsHeld g objects at_resolve b bs r v p))
      ]

  module _ (laws : GitLaws g) where
    step-IsHeld : (c : Call) (r : Repo g) → IsHeld g objects r → IsHeld g objects (step g c r)
    unfolding step visible_refs
    step-IsHeld (adds_commit t content b delay) r v =
        add_commit-IsHeld g objects laws t content b delay r v
    step-IsHeld (reads_commit now b) r v = visible_commit-IsHeld now b r v
    step-IsHeld (reads_refs now) r v = settle_all-IsHeld r.branches now r v
    step-IsHeld (adds_tag at_resolve at_tag name b annotated) r v =
        add_tag-IsHeld at_resolve at_tag name b annotated r v

    pub run-IsHeld :
        (cs : List Call) (r : Repo g) → IsHeld g objects r → IsHeld g objects (run g cs r)
    unfolding run
    run-IsHeld [] r v = v
    run-IsHeld (c ∷ cs) r v = run-IsHeld cs (step g c r) (step-IsHeld c r v)

    initial_repo-IsHeld :
        (host owner name branch sha : String) (s : g.State)
        → (sha == "") ≡ false
        → Ancestry g objects s sha
        → IsHeld g objects (initial_repo g host owner name branch sha s)
    unfolding lookup
    initial_repo-IsHeld host owner name branch sha s ne a b bs found =
        elim (Bool-cases (branch == b)) [
          | inr e ↦ let nothing = rw e at found in absurd (cc)
          | inl e ↦
              let same : fresh_branch g sha ≡ bs = some_inj (rw e at found) in
              subst (Held g objects s) same
                (record { nonempty = ne; visible = a; pending = λ p. absurd (cc) })
        ]

    seed_repo-IsHeld :
        (now : ℤ) (host owner name branch : String) (files : Files) (s : g.State) (r : Repo g)
        → (seed_repo g now host owner name branch files s).0 ≡ ok r
        → IsHeld g objects r
    unfolding seed_repo
    seed_repo-IsHeld now host owner name branch files s r h =
        elim (Result-cases (build_commit g "" files "initial commit" now s).0) [
          | inr (e, p) ↦ absurd (ground arith)
          | inl (sha, p) ↦
              let u = (build_commit g "" files "initial commit" now s).1 in
              let made =
                build_commit-CommitOf g objects laws "" files "initial commit" now s u sha
                  (λ i. (p i, u)) in
              let branch_ref = hash (g.new_hash sha) in
              let u' = (g.set_reference (head_ref branch) branch_ref u).1 in
              let head = symbolic (head_ref branch) in
              let grew : Grew g objects u (g.set_reference "HEAD" head u').1 = λ h o it.
                set_reference-Grew g objects "HEAD" head u' h o
                  (set_reference-Grew g objects (head_ref branch) branch_ref u h o it) in
              subst (IsHeld g objects)
                (ok_inj (sym (point_repo-eq g laws host owner name branch sha u) ∙ rw p at h))
                (initial_repo-IsHeld host owner name branch sha _
                  (build_commit-nonempty g laws "" files "initial commit" now s sha p)
                  (Ancestry-later g objects u _ sha grew (first files "initial commit" now made)))
        ]

    pub new_repo-IsHeld :
        (now : ℤ) (content : ContentProvider) (host owner name branch : String) (r : Repo g)
        → new_repo g now content host owner name branch ≡ ok r
        → IsHeld g objects r
    unfolding new_repo
    new_repo-IsHeld now content host owner name branch r h =
        elim (Result-cases (content (initial_context g host owner name branch))) [
          | inr (e, p) ↦ absurd (ground arith)
          | inl (files, p) ↦
              seed_repo-IsHeld now host owner name branch files _ r (rw (p, new_repo) at h)
        ]

    -- What a clone of a branch needs: its reference is a commit, and the commit, its files and all
    -- its ancestors with theirs are in the storer.
    pub record IsClonable (r : Repo g) (b : String) (bs : BranchState) : Type 0 where
      pub reference : g.reference r.storer (head_ref b) ≡ some (hash (g.new_hash bs.visible_sha))
      pub history : Ancestry g objects r.storer bs.visible_sha

    -- After any calls on a repository that newRepo has made, the reference of each branch leads to
    -- its visible commit, and the commit, its files and all its ancestors are in the storer.
    pub new_repo-run-IsClonable :
        (now : ℤ) (content : ContentProvider) (host owner name branch : String) (r : Repo g)
        → new_repo g now content host owner name branch ≡ ok r
        → (cs : List Call) (b : String) (bs : BranchState)
        → lookup b (run g cs r).branches ≡ some bs
        → IsClonable (run g cs r) b bs
    new_repo-run-IsClonable now content host owner name branch r made cs b bs found =
        let synced = new_repo-run-IsSynced g laws now content host owner name branch r made cs in
        let held = run-IsHeld cs r (new_repo-IsHeld now content host owner name branch r made) in
        record { reference = (synced.shows b bs found).0; history = (held b bs found).visible }

-- ===== src/Store/Repo/Calls.antt =====
-- Sequences of calls on one repository: after any of them the references agree with the branches.
use git_simulator.Base.{
  String, Bool, true, false, ◌≡◌, sym, refl, eq_iff, none, some, List, [], ◌∷◌, ℤ, ℕ, suc,
  string_eq, lookup, heads-ne-tags, head-ne-tags, fun_ext, arith, Option, Option-cases, inl, inr,
}
use git_simulator.Core.Errors.{ok, Result-cases}
use git_simulator.Core.Exec.{Keeps, keeps_rules}
use git_simulator.Core.Content.{ContentProvider}
use git_simulator.Store.Git.{Git, GitLaws, Target, hash}
use git_simulator.Store.Refs.{BranchState}
use git_simulator.Store.Repo.{
  Repo, Readings, settle_all, settle_branch, add_commit, visible_commit, visible_refs, head_ref,
  tag_ref,
}
use git_simulator.Store.Repo.Tags.{add_tag, tag_on, put_tag, tag_target, store_tag}
use git_simulator.Store.Repo.Init.{new_repo}
use git_simulator.Store.Repo.Sync.{
  IsSynced, settle-IsSynced, stored-IsSynced, add_commit-IsSynced, visible_commit-IsSynced,
}
use git_simulator.Store.Repo.New.{new_repo-IsSynced}

-- One call, with the readings of the clock and the answers of the content provider that it gets.
pub data Call : Type 0 where
  adds_commit : Readings → ContentProvider → String → ℤ → Call
  reads_commit : ℤ → String → Call
  reads_refs : (ℕ → ℤ) → Call
  adds_tag : ℤ → ℤ → String → String → Bool → Call

module _ (g : Git) where
  unfoldable pub step : Call → Repo g → Repo g
  step (adds_commit t content branch delay) r = (add_commit g t content branch delay r).1
  step (reads_commit now branch) r = (visible_commit g now branch r).1
  step (reads_refs now) r = (visible_refs g now r).1
  step (adds_tag at_resolve at_tag name branch annotated) r =
      (add_tag g at_resolve at_tag name branch annotated r).1

  unfoldable pub run : List Call → Repo g → Repo g
  unfolding step
  run [] r = r
  run (c ∷ cs) r = run cs (step c r)

  module _ (laws : GitLaws g) where
    settle_branch-IsSynced :
        (now : ℤ) (b : String) (o : Option BranchState) (r : Repo g)
        → lookup b r.branches ≡ o
        → IsSynced g r
        → IsSynced g (settle_branch g now b o r)
    unfolding settle_branch
    settle_branch-IsSynced now b none r found v = v
    settle_branch-IsSynced now b (some bs) r found v = settle-IsSynced g laws now b bs r v found

    settle_all-IsSynced :
        (bs : List (String × BranchState)) (now : ℕ → ℤ) (r : Repo g)
        → IsSynced g r
        → IsSynced g (settle_all g now bs r)
    unfolding settle_all
    settle_all-IsSynced [] now r v = v
    settle_all-IsSynced ((b, _) ∷ rest) now r v =
        settle_all-IsSynced rest (λ n. now (suc n)) _ (settle_branch-IsSynced (now 0) b _ r refl v)

    store_tag-Keeps : (e : g.Encoded) → Keeps g.reference (store_tag g e)
    unfolding store_tag
    store_tag-Keeps e = record { at = λ s. fun_ext (laws.reference-set_encoded_object e s) }

    tag_target-Keeps :
        (annotated : Bool) (now : ℤ) (name sha : String)
        → Keeps g.reference (tag_target g annotated now name sha)
    unfolding tag_target
    tag_target-Keeps false now name sha = search keeps_rules
    tag_target-Keeps true now name sha = search (keeps_rules, store_tag-Keeps)

    -- A reference of a tag is no reference of a branch, and not HEAD.
    set_tag-IsSynced :
        (name : String) (target : Target g.Hash) (r : Repo g)
        → IsSynced g r
        → IsSynced g (record r { storer = (g.set_reference (tag_ref name) target r.storer).1 })
    set_tag-IsSynced name target r v = record {
      shows = λ b bs h. ground (
        arith,
        laws.reference-set_reference (tag_ref name) (head_ref b) target r.storer,
        eq_iff (tag_ref name) (head_ref b),
        λ (e : tag_ref name ≡ head_ref b). heads-ne-tags b name (sym e),
        v.shows b bs,
      );
      head = ground (
        arith,
        laws.reference-set_reference (tag_ref name) "HEAD" target r.storer,
        eq_iff (tag_ref name) "HEAD",
        λ (e : tag_ref name ≡ "HEAD"). head-ne-tags name (sym e),
        v.head,
      );
    }

    put_tag-IsSynced :
        (name : String) (annotated : Bool) (sha : String) (target : g.Hash) (r : Repo g)
        → IsSynced g r
        → IsSynced g (put_tag g name annotated sha target r).1
    unfolding put_tag
    put_tag-IsSynced name annotated sha target r v =
        let w = set_tag-IsSynced name (hash target) r v in
        rw (laws.set_reference_ok (tag_ref name) (hash target) r.storer)
          (record { shows = w.shows; head = w.head })

    tag_on-IsSynced :
        (now : ℤ) (name : String) (annotated : Bool) (sha : String) (r : Repo g)
        → IsSynced g r
        → IsSynced g (tag_on g now name annotated sha r).1
    unfolding tag_on
    tag_on-IsSynced now name annotated sha r v =
        let kept =
          stored-IsSynced g laws (tag_target g annotated now name sha r.storer).1 r
            (λ m i. (tag_target-Keeps annotated now name sha).at r.storer i m) v in
        elim (Result-cases (tag_target g annotated now name sha r.storer).0) [
          | inr (e, p) ↦ rw p kept
          | inl (target, p) ↦ rw p (put_tag-IsSynced name annotated sha target _ kept)
        ]

    add_tag-IsSynced :
        (at_resolve at_tag : ℤ) (name b : String) (annotated : Bool) (r : Repo g)
        → IsSynced g r
        → IsSynced g (add_tag g at_resolve at_tag name b annotated r).1
    unfolding add_tag
    add_tag-IsSynced at_resolve at_tag name b annotated r v =
        elim (Option-cases (lookup b r.branches)) [
          | inl p ↦ rw p v
          | inr (bs, p) ↦ rw p (
              tag_on-IsSynced at_tag name annotated _ _
                (settle-IsSynced g laws at_resolve b bs r v p))
        ]

    pub visible_refs-IsSynced :
        (now : ℕ → ℤ) (r : Repo g) → IsSynced g r → IsSynced g (visible_refs g now r).1
    unfolding visible_refs
    visible_refs-IsSynced now r v = settle_all-IsSynced r.branches now r v

    pub step-IsSynced : (c : Call) (r : Repo g) → IsSynced g r → IsSynced g (step c r)
    unfolding step
    step-IsSynced (adds_commit t content b delay) r v =
        add_commit-IsSynced g laws t content b delay r v
    step-IsSynced (reads_commit now b) r v = visible_commit-IsSynced g laws now b r v
    step-IsSynced (reads_refs now) r v = visible_refs-IsSynced now r v
    step-IsSynced (adds_tag at_resolve at_tag name b annotated) r v =
        add_tag-IsSynced at_resolve at_tag name b annotated r v

    pub run-IsSynced : (cs : List Call) (r : Repo g) → IsSynced g r → IsSynced g (run cs r)
    unfolding run
    run-IsSynced [] r v = v
    run-IsSynced (c ∷ cs) r v = run-IsSynced cs (step c r) (step-IsSynced c r v)

    -- A new repository is in step, and so it stays, whatever calls it serves: the reference of each
    -- branch is its visible commit, and HEAD is the default branch.
    pub new_repo-run-IsSynced :
        (now : ℤ) (content : ContentProvider) (host owner name branch : String) (r : Repo g)
        → new_repo g now content host owner name branch ≡ ok r
        → (cs : List Call) → IsSynced g (run cs r)
    new_repo-run-IsSynced now content host owner name branch r made cs =
        run-IsSynced cs r (new_repo-IsSynced g laws now content host owner name branch r made)

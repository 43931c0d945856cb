-- ===== src/Store/Repo/Commits.antt =====
-- AddCommit writes the commit that it announces, and no later call takes it away.
use git_simulator.Base.{
  String, ℕ, ◌≡◌, ap, sym, ◌∙◌, ℤ, suc, Option-cases, some, List, inl, inr, string_eq, lookup,
  arith, refl, subst,
}
use git_simulator.Core.Errors.{ok, Result-cases, ok_inj}
use git_simulator.Core.Content.{Files, ContentProvider}
use git_simulator.Store.Git.{Git, GitLaws}
use git_simulator.Store.Refs.{BranchState, resolve}
use git_simulator.Store.Objects.{ObjectLaws, Grew}
use git_simulator.Store.Commit.{new_commit}
use git_simulator.Store.Commit.Commits.{CommitOf, CommitOf-later, new_commit-CommitOf}
use git_simulator.Store.Repo.{
  Repo, Readings, settle, sync_ref, publish, store_commit, commit_on, add_commit, context_of,
  message_of,
}
use git_simulator.Store.Repo.Grows.{publish-Grew, run-Grew}
use git_simulator.Store.Repo.Calls.{Call, run}

module _ (g : Git) where
  pub context_of-settle :
      (now : ℤ) (b : String) (bs : BranchState) (r : Repo g) (parent : String) (n : ℕ)
      → context_of g (settle g now b bs r).2 b parent n ≡ context_of g r b parent n
  unfolding settle resolve sync_ref
  context_of-settle now b bs r parent n = ground arith

  commit_index-resolve :
      (now : ℤ) (bs : BranchState) → (resolve now bs).0.commit_index ≡ bs.commit_index
  unfolding resolve
  commit_index-resolve now bs = ground arith

  pub visible-settle :
      (now : ℤ) (b : String) (bs : BranchState) (r : Repo g)
      → (settle g now b bs r).0 ≡ (resolve now bs).1
  unfolding settle
  visible-settle now b bs r = refl

  pub commit_index-settle :
      (now : ℤ) (b : String) (bs : BranchState) (r : Repo g)
      → (settle g now b bs r).1.commit_index ≡ bs.commit_index
  unfolding settle
  commit_index-settle now b bs r = commit_index-resolve now bs

module _ (g : Git) (objects : ObjectLaws g) (laws : GitLaws g) where
  store_commit-CommitOf :
      (t : Readings) (b : String) (delay : ℤ) (parent : String) (bs : BranchState) (files : Files)
      (r : Repo g) (sha : String)
      → (store_commit g t b delay parent bs files r).0 ≡ ok sha
      → CommitOf g objects
          (store_commit g t b delay parent bs files r).1.storer
          sha
          parent
          files
          (message_of g (suc bs.commit_index) b)
          t.at_commit
  unfolding store_commit
  store_commit-CommitOf t b delay parent bs files r sha h =
      elim (Result-cases (new_commit g parent files msg t.at_commit r.storer).0) [
        | inr (e, p) ↦ let failed = rw p at h in absurd (cc)
        | inl (c, p) ↦
            let same : c ≡ sha = ok_inj (rw p at h) in
            let made =
              new_commit-CommitOf g objects laws parent files msg t.at_commit r.storer c p in
            rw p (
              subst
                (λ x.
                  CommitOf g objects (publish g t.at_schedule delay b c bs (stored r)).storer x
                    parent files msg t.at_commit)
                same
                (CommitOf-later g objects _ _ c parent files msg t.at_commit
                  (publish-Grew g objects t.at_schedule delay b c bs (stored r)) made))
      ]
    where
      msg : String
      msg = message_of g (suc bs.commit_index) b

      stored : Repo g → Repo g
      stored r = record r { storer = (new_commit g parent files msg t.at_commit r.storer).1 }

  -- The commit that a call has written: the files are what the content provider gave for it.
  pub record Written (t : Readings) (content : ContentProvider) (b parent : String) (n : ℕ)
      (sha : String) (r : Repo g) (s : g.State) : Type 0 where
    pub files : Files
    pub given : content (context_of g r b parent (suc n)) ≡ ok files
    pub made : CommitOf g objects s sha parent files (message_of g (suc n) b) t.at_commit

  commit_on-Written :
      (t : Readings) (content : ContentProvider) (b : String) (delay : ℤ) (parent : String)
      (bs : BranchState) (r : Repo g) (sha : String)
      → (commit_on g t content b delay parent bs r).0 ≡ ok sha
      → Written t content b parent bs.commit_index sha r
          (commit_on g t content b delay parent bs r).1.storer
  unfolding commit_on
  commit_on-Written t content b delay parent bs r sha h =
      elim (Result-cases (content (context_of g r b parent (suc bs.commit_index)))) [
        | inr (e, p) ↦ let failed = rw p at h in absurd (cc)
        | inl (files, p) ↦ record {
          files = files;
          given = p;
          made = rw p (store_commit-CommitOf t b delay parent bs files r sha (rw p at h));
        }
      ]

  Written-settle :
      (t : Readings) (content : ContentProvider) (b : String) (bs : BranchState) (sha : String)
      (r : Repo g) (s : g.State)
      → let (parent, bs', r') = settle g t.at_resolve b bs r in
        Written t content b parent bs'.commit_index sha r' s
        → Written t content b (resolve t.at_resolve bs).1 bs.commit_index sha r s
  Written-settle t content b bs sha r s w =
      let (parent, bs', r') = settle g t.at_resolve b bs r in
      let w' =
        subst (λ n. Written t content b (resolve t.at_resolve bs).1 n sha r' s)
          (commit_index-settle g t.at_resolve b bs r)
          (subst (λ q. Written t content b q bs'.commit_index sha r' s)
            (visible-settle g t.at_resolve b bs r) w) in
      record {
        files = w'.files;
        given = ap content (sym (context_of-settle g t.at_resolve b bs r _ _)) ∙ w'.given;
        made = w'.made;
      }

  Written-later :
      (t : Readings) (content : ContentProvider) (b parent : String) (n : ℕ) (sha : String)
      (r : Repo g) (s s' : g.State)
      → Grew g objects s s'
      → Written t content b parent n sha r s
      → Written t content b parent n sha r s'
  Written-later t content b parent n sha r s s' grew w = record {
    files = w.files;
    given = w.given;
    made =
        CommitOf-later g objects s s' sha parent w.files (message_of g (suc n) b) t.at_commit grew
          w.made;
  }

  add_commit-Written :
      (t : Readings) (content : ContentProvider) (b : String) (delay : ℤ) (r : Repo g)
      (sha : String)
      → (add_commit g t content b delay r).0 ≡ ok sha
      → (bs : BranchState) × (lookup b r.branches ≡ some bs)
        × Written t content b
            (resolve t.at_resolve bs).1
            bs.commit_index
            sha
            r
            (add_commit g t content b delay r).1.storer
  unfolding add_commit
  add_commit-Written t content b delay r sha h = elim (Option-cases (lookup b r.branches)) [
    | inl p ↦ let failed = rw p at h in absurd (cc)
    | inr (bs, p) ↦
        let (parent, bs', r') = settle g t.at_resolve b bs r in
        (
          bs,
          p,
          rw p (
              Written-settle t content b bs sha r _
                (commit_on-Written t content b delay parent bs' r' sha (rw p at h))),
        )
  ]

  -- The new commit stands on the commit that was visible on the branch.
  pub record Added (t : Readings) (content : ContentProvider) (b sha : String) (r : Repo g)
      (s : g.State) : Type 0 where
    pub before : BranchState
    pub found : lookup b r.branches ≡ some before
    pub written : Written t content b (resolve t.at_resolve before).1 before.commit_index sha r s

  -- When AddCommit succeeds, then after any later calls its SHA names a commit whose parent is the
  -- commit that was visible at the call, whose message has the next number, and whose tree has
  -- exactly the files that the content provider gave for it.
  pub add_commit-run-Added :
      (t : Readings) (content : ContentProvider) (b : String) (delay : ℤ) (r : Repo g)
      (sha : String)
      → (add_commit g t content b delay r).0 ≡ ok sha
      → (cs : List Call)
      → Added t content b sha r (run g cs (add_commit g t content b delay r).1).storer
  add_commit-run-Added t content b delay r sha h cs =
      let r' = (add_commit g t content b delay r).1 in
      let (bs, found, w) = add_commit-Written t content b delay r sha h in
      record {
        before = bs;
        found = found;
        written = Written-later t content b _ _ sha r r'.storer _ (run-Grew g objects cs r') w;
      }

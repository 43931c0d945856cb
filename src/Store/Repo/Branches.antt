-- ===== src/Store/Repo/Branches.antt =====
-- What the calls of a repository do to its branches, whatever the storer holds.
use git_simulator.Base.{
  String, Bool, false, not, ◌≡◌, ap, ◌∙◌, ◌==◌, if◌then◌else◌, none, some, ℤ, ◌+ℤ◌, string_eq,
  lookup, insert, lookup-insert_self, arith, is_zero, suc, Option, Option-cases, inl, inr, pos,
}
use git_simulator.Core.Errors.{Error, ok, err, Result-cases}
use git_simulator.Core.Content.{Files, ContentProvider}
use git_simulator.Store.Git.{Git, GitLaws}
use git_simulator.Store.Refs.{BranchState, resolve}
use git_simulator.Store.Commit.Effects.{new_commit-nonempty}
use git_simulator.Store.Repo.{
  Repo, Readings, settle, publish, store_commit, commit_on, context_of, message_of, add_commit,
  visible_commit,
}

module _ (g : Git) where
  pub branches-settle :
      (now : ℤ) (b : String) (bs : BranchState) (r : Repo g)
      → (settle g now b bs r).2.branches ≡ insert b (resolve now bs).0 r.branches
  unfolding settle
  branches-settle now b bs r = ground arith

  pub settle-found :
      (now : ℤ) (b : String) (bs : BranchState) (r : Repo g)
      → lookup b (settle g now b bs r).2.branches ≡ some (settle g now b bs r).1
  unfolding settle
  settle-found now b bs r =
      ap (lookup b) (branches-settle now b bs r)
      ∙ lookup-insert_self b (resolve now bs).0 r.branches

  -- The state that `publish` gives the branch.
  abbrev pub published : ℤ → ℤ → String → BranchState → BranchState
  published now delay sha bs =
      if is_zero delay
      then record {
        visible_sha = sha;
        pending_sha = "";
        promote_at = pos 0;
        commit_index = suc bs.commit_index;
      }
      else record bs {
        pending_sha = sha;
        promote_at = now +ℤ delay;
        commit_index = suc bs.commit_index;
      }

  pub branches-publish :
      (now delay : ℤ) (b sha : String) (bs : BranchState) (r : Repo g)
      → (publish g now delay b sha bs r).branches ≡ insert b (published now delay sha bs) r.branches
  unfolding publish
  branches-publish now delay b sha bs r = ground arith

  -- What a reader at time `now` is told about a branch.
  abbrev pub shown : ℤ → Option BranchState → String × Bool
  shown now none = ("", false)
  shown now (some bs) = let sha = (resolve now bs).1 in (sha, not (sha == ""))

  pub visible_commit-shown :
      (now : ℤ) (b : String) (r : Repo g)
      → (visible_commit g now b r).0 ≡ shown now (lookup b r.branches)
  unfolding visible_commit
  visible_commit-shown now b r = elim (Option-cases (lookup b r.branches)) [
    | inl p ↦ rw p
    | inr (bs, p) ↦ rw p
  ]

  module _ (laws : GitLaws g) where
    -- What a successful AddCommit has done.
    pub record Committed (t : Readings) (b : String) (delay : ℤ) (r : Repo g) (sha : String)
        (r' : Repo g) : Type 0 where
      pub before : BranchState
      pub found : lookup b r.branches ≡ some before
      pub after :
          r'.branches
          ≡ insert b
              (published t.at_schedule delay sha (resolve t.at_resolve before).0)
              (insert b (resolve t.at_resolve before).0 r.branches)
      pub nonempty : (sha == "") ≡ false

    store_commit-ok :
        (t : Readings) (b : String) (delay : ℤ) (parent : String) (bs : BranchState) (files : Files)
        (r : Repo g) (sha : String)
        → (store_commit g t b delay parent bs files r).0 ≡ ok sha
        → ((store_commit g t b delay parent bs files r).1.branches
            ≡ insert b (published t.at_schedule delay sha bs) r.branches)
          × ((sha == "") ≡ false)
    unfolding store_commit
    store_commit-ok t b delay parent bs files r sha h = ground (
      arith,
      new_commit-nonempty g laws parent files (message_of g (suc bs.commit_index) b) t.at_commit
          r.storer sha,
    )

    commit_on-ok :
        (t : Readings) (content : ContentProvider) (b : String) (delay : ℤ) (parent : String)
        (bs : BranchState) (r : Repo g) (sha : String)
        → (commit_on g t content b delay parent bs r).0 ≡ ok sha
        → ((commit_on g t content b delay parent bs r).1.branches
            ≡ insert b (published t.at_schedule delay sha bs) r.branches)
          × ((sha == "") ≡ false)
    unfolding commit_on
    commit_on-ok t content b delay parent bs r sha h =
        elim (Result-cases (content (context_of g r b parent (suc bs.commit_index)))) [
          | inr (e, p) ↦ ground arith
          | inl (files, p) ↦ rw p (store_commit-ok t b delay parent bs files r sha (rw p at h))
        ]

    pub add_commit-ok :
        (t : Readings) (content : ContentProvider) (b : String) (delay : ℤ) (r : Repo g)
        (sha : String)
        → (add_commit g t content b delay r).0 ≡ ok sha
        → Committed t b delay r sha (add_commit g t content b delay r).1
    unfolding add_commit
    add_commit-ok t content b delay r sha h = elim (Option-cases (lookup b r.branches)) [
      | inl p ↦ ground arith
      | inr (bs, p) ↦ rw p (committed bs p)
    ]
      where
        committed :
            (bs : BranchState)
            → lookup b r.branches ≡ some bs
            → let (parent, bs', r') = settle g t.at_resolve b bs r in
              Committed t b delay r sha (commit_on g t content b delay parent bs' r').1
        committed bs p =
            let (parent, bs', r') = settle g t.at_resolve b bs r in
            let done = commit_on-ok t content b delay parent bs' r' sha (rw p at h) in
            record {
              before = bs;
              found = p;
              after =
                  done.0
                  ∙ ap (insert b (published t.at_schedule delay sha bs'))
                      (branches-settle t.at_resolve b bs r);
              nonempty = done.1;
            }

    -- What a failed AddCommit has done.
    pub data Failed (now : ℤ) (b : String) (r r' : Repo g) : Type 0 where
      missing : lookup b r.branches ≡ none → r' ≡ r → Failed now b r r'
      settled :
          (bs : BranchState)
          → lookup b r.branches ≡ some bs
          → r'.branches ≡ insert b (resolve now bs).0 r.branches
          → Failed now b r r'

    store_commit-err :
        (t : Readings) (b : String) (delay : ℤ) (parent : String) (bs : BranchState) (files : Files)
        (r : Repo g) (e : Error)
        → (store_commit g t b delay parent bs files r).0 ≡ err e
        → (store_commit g t b delay parent bs files r).1.branches ≡ r.branches
    unfolding store_commit
    store_commit-err t b delay parent bs files r e h = ground arith

    commit_on-err :
        (t : Readings) (content : ContentProvider) (b : String) (delay : ℤ) (parent : String)
        (bs : BranchState) (r : Repo g) (e : Error)
        → (commit_on g t content b delay parent bs r).0 ≡ err e
        → (commit_on g t content b delay parent bs r).1.branches ≡ r.branches
    unfolding commit_on
    commit_on-err t content b delay parent bs r e h =
        elim (Result-cases (content (context_of g r b parent (suc bs.commit_index)))) [
          | inr (e', p) ↦ rw p
          | inl (files, p) ↦ rw p (store_commit-err t b delay parent bs files r e (rw p at h))
        ]

    pub add_commit-err :
        (t : Readings) (content : ContentProvider) (b : String) (delay : ℤ) (r : Repo g) (e : Error)
        → (add_commit g t content b delay r).0 ≡ err e
        → Failed t.at_resolve b r (add_commit g t content b delay r).1
    unfolding add_commit
    add_commit-err t content b delay r e h = elim (Option-cases (lookup b r.branches)) [
      | inl p ↦ missing p (rw p)
      | inr (bs, p) ↦ settled bs p (rw p (unchanged bs p))
    ]
      where
        unchanged :
            (bs : BranchState)
            → lookup b r.branches ≡ some bs
            → let (parent, bs', r') = settle g t.at_resolve b bs r in
              (commit_on g t content b delay parent bs' r').1.branches
              ≡ insert b (resolve t.at_resolve bs).0 r.branches
        unchanged bs p =
            let (parent, bs', r') = settle g t.at_resolve b bs r in
            commit_on-err t content b delay parent bs' r' e (rw p at h)
            ∙ branches-settle t.at_resolve b bs r

-- ===== src/Store/Repo/Sync.antt =====
-- The references of the storer agree with the branches, whatever calls a repository has served.
use text.Mathlib.TextLemmas.{append_cancel_left}
use git_simulator.Base.{
  String, false, ◌≡◌, ap, sym, refl, ◌==◌, eq_iff, some, Option-cases, ℤ, string_eq, lookup, insert,
  lookup-insert, head-ne-heads, arith, is_zero, pos, Bool-cases, inl, inr, suc,
}
use git_simulator.Store.Git.{Git, GitLaws, hash, symbolic}
use git_simulator.Store.Refs.{BranchState, resolve, is_due, promoted}
use git_simulator.Core.Errors.{Result-cases}
use git_simulator.Core.Content.{Files, ContentProvider}
use git_simulator.Store.Commit.{new_commit}
use git_simulator.Store.Commit.Effects.{new_commit-Keeps, new_commit-nonempty}
use git_simulator.Store.Repo.Branches.{settle-found}
use git_simulator.Store.Repo.{
  Repo, Readings, head_ref, settle, sync_ref, publish, store_commit, commit_on, add_commit,
  visible_commit, context_of, message_of,
}

pub head_ref_inj : (a b : String) → head_ref a ≡ head_ref b → a ≡ b
head_ref_inj a b = append_cancel_left "refs/heads/" a b

pub head_ref-eq : (a b : String) → (head_ref a == head_ref b) ≡ (a == b)
head_ref-eq a b = ground (
  arith,
  eq_iff a b,
  eq_iff (head_ref a) (head_ref b),
  head_ref_inj a b,
  ap head_ref {x = a} {y = b},
)

module _ (g : Git) where
  -- The reference of a branch is its visible commit, which is never the empty text.
  abbrev pub Shows : Repo g → String → BranchState → Type 0
  Shows r b bs =
      (g.reference r.storer (head_ref b) ≡ some (hash (g.new_hash bs.visible_sha)))
      × ((bs.visible_sha == "") ≡ false)

  pub record IsSynced (r : Repo g) : Type 0 where
    pub shows : (b : String) (bs : BranchState) → lookup b r.branches ≡ some bs → Shows r b bs
    pub head : g.reference r.storer "HEAD" ≡ some (symbolic (head_ref r.default_branch))

  module _ (laws : GitLaws g) where
    -- A branch that is written with its reference.
    written-IsSynced :
        (b : String) (bs : BranchState) (r : Repo g)
        → IsSynced r
        → (bs.visible_sha == "") ≡ false
        → IsSynced (sync_ref g b bs.visible_sha (record r { branches = insert b bs r.branches }))
    unfolding sync_ref
    written-IsSynced b bs r v ne = record {
      shows = λ j x h. ground (
        arith,
        lookup-insert b j bs r.branches,
        head_ref-eq b j,
        eq_iff b j,
        laws.reference-set_reference (head_ref b) (head_ref j) (hash (g.new_hash bs.visible_sha))
            r.storer,
        v.shows j x,
      );
      head = ground (
        arith,
        laws.reference-set_reference (head_ref b) "HEAD" (hash (g.new_hash bs.visible_sha))
            r.storer,
        eq_iff (head_ref b) "HEAD",
        λ (e : head_ref b ≡ "HEAD"). head-ne-heads b (sym e),
        v.head,
      );
    }

    -- A branch that keeps its visible commit needs no reference.
    kept-IsSynced :
        (b : String) (old bs : BranchState) (r : Repo g)
        → IsSynced r
        → lookup b r.branches ≡ some old
        → bs.visible_sha ≡ old.visible_sha
        → IsSynced (record r { branches = insert b bs r.branches })
    kept-IsSynced b old bs r v found e = record {
      shows = λ j x h.
          ground
            (arith, lookup-insert b j bs r.branches, eq_iff b j, v.shows b old found, v.shows j x);
      head = v.head;
    }

    pub settle-IsSynced :
        (now : ℤ) (b : String) (bs : BranchState) (r : Repo g)
        → IsSynced r
        → lookup b r.branches ≡ some bs
        → IsSynced (settle g now b bs r).2
    unfolding settle resolve
    settle-IsSynced now b bs r v found = elim (Bool-cases (is_due now bs)) [
      | inl due ↦ rw due (written-IsSynced b (promoted bs) r v (ground arith))
      | inr early ↦ rw early (kept-IsSynced b bs bs r v found refl)
    ]

    pub publish-IsSynced :
        (now delay : ℤ) (b sha : String) (bs : BranchState) (r : Repo g)
        → IsSynced r
        → lookup b r.branches ≡ some bs
        → (sha == "") ≡ false
        → IsSynced (publish g now delay b sha bs r)
    unfolding publish
    publish-IsSynced now delay b sha bs r v found ne = elim (Bool-cases (is_zero delay)) [
      | inl now' ↦ rw now' (
          written-IsSynced b
            (record {
              visible_sha = sha;
              pending_sha = "";
              promote_at = pos 0;
              commit_index = suc bs.commit_index;
            })
            r v ne)
      | inr later ↦ rw later (kept-IsSynced b bs _ r v found refl)
    ]

    pub stored-IsSynced :
        (s : g.State) (r : Repo g)
        → ((m : String) → g.reference s m ≡ g.reference r.storer m)
        → IsSynced r
        → IsSynced (record r { storer = s })
    stored-IsSynced s r same v = record {
      shows = λ b bs h. ground (arith, same (head_ref b), v.shows b bs h);
      head = ground (arith, same "HEAD", v.head);
    }

    store_commit-IsSynced :
        (t : Readings) (b : String) (delay : ℤ) (parent : String) (bs : BranchState) (files : Files)
        (r : Repo g)
        → IsSynced r
        → lookup b r.branches ≡ some bs
        → IsSynced (store_commit g t b delay parent bs files r).1
    unfolding store_commit
    store_commit-IsSynced t b delay parent bs files r v found =
        let kept =
          stored-IsSynced _ r
            (λ m i. (new_commit-Keeps g laws parent files msg t.at_commit).at r.storer i m) v in
        elim (Result-cases (new_commit g parent files msg t.at_commit r.storer).0) [
          | inr (e, p) ↦ rw p kept
          | inl (sha, p) ↦ rw p (
              publish-IsSynced t.at_schedule delay b sha bs _ kept found
                (new_commit-nonempty g laws parent files msg t.at_commit r.storer sha p))
        ]
      where
        msg : String
        msg = message_of g (suc bs.commit_index) b

    commit_on-IsSynced :
        (t : Readings) (content : ContentProvider) (b : String) (delay : ℤ) (parent : String)
        (bs : BranchState) (r : Repo g)
        → IsSynced r
        → lookup b r.branches ≡ some bs
        → IsSynced (commit_on g t content b delay parent bs r).1
    unfolding commit_on
    commit_on-IsSynced t content b delay parent bs r v found =
        elim (Result-cases (content (context_of g r b parent (suc bs.commit_index)))) [
          | inr (e, p) ↦ rw p v
          | inl (files, p) ↦ rw p (store_commit-IsSynced t b delay parent bs files r v found)
        ]

    pub add_commit-IsSynced :
        (t : Readings) (content : ContentProvider) (b : String) (delay : ℤ) (r : Repo g)
        → IsSynced r
        → IsSynced (add_commit g t content b delay r).1
    unfolding add_commit
    add_commit-IsSynced t content b delay r v = elim (Option-cases (lookup b r.branches)) [
      | inl p ↦ rw p v
      | inr (bs, p) ↦ rw p (
          commit_on-IsSynced t content b delay _ _ _ (settle-IsSynced t.at_resolve b bs r v p)
            (settle-found g t.at_resolve b bs r))
    ]

    pub visible_commit-IsSynced :
        (now : ℤ) (b : String) (r : Repo g) → IsSynced r → IsSynced (visible_commit g now b r).1
    unfolding visible_commit
    visible_commit-IsSynced now b r v = elim (Option-cases (lookup b r.branches)) [
      | inl p ↦ rw p v
      | inr (bs, p) ↦ rw p (settle-IsSynced now b bs r v p)
    ]

-- ===== src/Store/Repo/History.antt =====
-- What a branch shows can be cloned: the commit, its files and all its ancestors are in the storer.
use git_simulator.Base.{
  String, false, ◌==◌, ◌≡◌, sym, ◌∙◌, ℤ, suc, Option-cases, some, some_inj, inl, inr, string_eq,
  lookup, insert, lookup-insert, arith, subst, is_zero, Bool-cases,
}
use git_simulator.Core.Errors.{Result-cases}
use git_simulator.Core.Content.{Files, ContentProvider}
use git_simulator.Store.Git.{Git, GitLaws, hash}
use git_simulator.Store.Refs.{BranchState, resolve, is_due}
use git_simulator.Store.Objects.{ObjectLaws, Grew}
use git_simulator.Store.Commit.{new_commit}
use git_simulator.Store.Commit.Effects.{new_commit-nonempty}
use git_simulator.Store.Commit.Grows.{new_commit-Grows}
use git_simulator.Store.Commit.Commits.{CommitOf, CommitOf-later, new_commit-CommitOf}
use git_simulator.Store.Repo.{
  Repo, Readings, settle, sync_ref, publish, store_commit, commit_on, add_commit, context_of,
  message_of, head_ref,
}
use git_simulator.Store.Repo.Branches.{settle-found}
use git_simulator.Store.Repo.Grows.{set_reference-Grew}

module _ (g : Git) (objects : ObjectLaws g) where
  -- The commit and all its ancestors, each with its tree of files.
  pub data Ancestry (s : g.State) : String → Type 0 where
    first :
        {sha : String} (files : Files) (msg : String) (when : ℤ)
        → CommitOf g objects s sha "" files msg when
        → Ancestry s sha
    next :
        {sha : String} (parent : String) (files : Files) (msg : String) (when : ℤ)
        → (parent == "") ≡ false
        → CommitOf g objects s sha parent files msg when
        → Ancestry s parent
        → Ancestry s sha

  pub Ancestry-later :
      (s t : g.State) (sha : String) → Grew g objects s t → Ancestry s sha → Ancestry t sha
  Ancestry-later s t sha grew (first files msg when c) =
      first files msg when (CommitOf-later g objects s t sha "" files msg when grew c)
  Ancestry-later s t sha grew (next parent files msg when ne c a) =
      next parent files msg when ne (CommitOf-later g objects s t sha parent files msg when grew c)
        (Ancestry-later s t parent grew a)

  -- What the storage has of a branch.
  pub record Held (s : g.State) (bs : BranchState) : Type 0 where
    pub nonempty : (bs.visible_sha == "") ≡ false
    pub visible : Ancestry s bs.visible_sha
    pub pending : (bs.pending_sha == "") ≡ false → Ancestry s bs.pending_sha

  abbrev pub IsHeld : Repo g → Type 0
  IsHeld r = (b : String) (bs : BranchState) → lookup b r.branches ≡ some bs → Held r.storer bs

  Held-later : (s t : g.State) (bs : BranchState) → Grew g objects s t → Held s bs → Held t bs
  Held-later s t bs grew v = record {
    nonempty = v.nonempty;
    visible = Ancestry-later s t _ grew v.visible;
    pending = λ ne. Ancestry-later s t _ grew (v.pending ne);
  }

  pub kept-IsHeld :
      (s : g.State) (r : Repo g)
      → Grew g objects r.storer s
      → IsHeld r
      → IsHeld (record r { storer = s })
  kept-IsHeld s r grew v b bs found = Held-later r.storer s bs grew (v b bs found)

  put-IsHeld :
      (s : g.State) (b : String) (bs : BranchState) (r : Repo g)
      → Grew g objects r.storer s
      → IsHeld r
      → Held s bs
      → IsHeld (record r { storer = s; branches = insert b bs r.branches })
  put-IsHeld s b bs r grew v new j x found =
      let found' = sym (lookup-insert b j bs r.branches) ∙ found in
      elim (Bool-cases (b == j)) [
        | inl e ↦ subst (Held s) (some_inj (rw e at found')) new
        | inr e ↦ Held-later r.storer s x grew (v j x (rw e at found'))
      ]

  settled-Held : (now : ℤ) (s : g.State) (bs : BranchState) → Held s bs → Held s (resolve now bs).0
  unfolding resolve
  settled-Held now s bs v = elim (Bool-cases (is_due now bs)) [
    | inr early ↦ rw early v
    | inl due ↦
        let ne : (bs.pending_sha == "") ≡ false = ground (arith, due) in
        rw due (record { nonempty = ne; visible = v.pending ne; pending = λ e. absurd (cc) })
  ]

  pub settle-IsHeld :
      (now : ℤ) (b : String) (bs : BranchState) (r : Repo g)
      → IsHeld r
      → lookup b r.branches ≡ some bs
      → IsHeld (settle g now b bs r).2
  unfolding settle sync_ref
  settle-IsHeld now b bs r v found =
      let held = settled-Held now r.storer bs (v b bs found) in
      elim (Bool-cases (resolve now bs).2) [
        | inr early ↦ rw early (put-IsHeld r.storer b (resolve now bs).0 r (λ h o it. it) v held)
        | inl due ↦
            let name = head_ref b in
            let target = hash (g.new_hash (resolve now bs).1) in
            let grew = set_reference-Grew g objects name target r.storer in
            rw due (put-IsHeld _ b (resolve now bs).0 r grew v (Held-later _ _ _ grew held))
      ]

  pub visible-resolve :
      (now : ℤ) (bs : BranchState) → (resolve now bs).1 ≡ (resolve now bs).0.visible_sha
  unfolding resolve
  visible-resolve now bs = ground arith

  visible-settle :
      (now : ℤ) (b : String) (bs : BranchState) (r : Repo g)
      → (settle g now b bs r).0 ≡ (settle g now b bs r).1.visible_sha
  unfolding settle
  visible-settle now b bs r = visible-resolve now bs

  publish-IsHeld :
      (now delay : ℤ) (b sha : String) (bs : BranchState) (r : Repo g)
      → IsHeld r
      → lookup b r.branches ≡ some bs
      → (sha == "") ≡ false
      → Ancestry r.storer sha
      → IsHeld (publish g now delay b sha bs r)
  unfolding publish sync_ref
  publish-IsHeld now delay b sha bs r v found ne a = elim (Bool-cases (is_zero delay)) [
    | inl now' ↦
        let grew = set_reference-Grew g objects (head_ref b) (hash (g.new_hash sha)) r.storer in
        rw now' (
          put-IsHeld _ b _ r grew v (record {
            nonempty = ne;
            visible = Ancestry-later _ _ sha grew a;
            pending = λ e. absurd (cc);
          }))
    | inr later ↦ rw later (
        put-IsHeld r.storer b _ r (λ h o it. it) v
          (record {
            nonempty = (v b bs found).nonempty;
            visible = (v b bs found).visible;
            pending = λ e. a;
          }))
  ]

  module _ (laws : GitLaws g) where
    store_commit-IsHeld :
        (t : Readings) (b : String) (delay : ℤ) (bs : BranchState) (files : Files) (r : Repo g)
        → IsHeld r
        → lookup b r.branches ≡ some bs
        → IsHeld (store_commit g t b delay bs.visible_sha bs files r).1
    unfolding store_commit
    store_commit-IsHeld t b delay bs files r v found =
        let parent = bs.visible_sha in
        let msg = message_of g (suc bs.commit_index) b in
        let grew = (new_commit-Grows g objects parent files msg t.at_commit).at r.storer in
        let kept = kept-IsHeld _ r grew v in
        elim (Result-cases (new_commit g parent files msg t.at_commit r.storer).0) [
          | inr (e, p) ↦ rw p kept
          | inl (sha, p) ↦
              let made =
                new_commit-CommitOf g objects laws parent files msg t.at_commit r.storer sha p in
              let held = kept b bs found in
              rw p (
                publish-IsHeld t.at_schedule delay b sha bs _ kept found
                  (new_commit-nonempty g laws parent files msg t.at_commit r.storer sha p)
                  (next parent files msg t.at_commit held.nonempty made held.visible))
        ]

    commit_on-IsHeld :
        (t : Readings) (content : ContentProvider) (b : String) (delay : ℤ) (bs : BranchState)
        (r : Repo g)
        → IsHeld r
        → lookup b r.branches ≡ some bs
        → IsHeld (commit_on g t content b delay bs.visible_sha bs r).1
    unfolding commit_on
    commit_on-IsHeld t content b delay bs r v found =
        elim (Result-cases (content (context_of g r b bs.visible_sha (suc bs.commit_index)))) [
          | inr (e, p) ↦ rw p v
          | inl (files, p) ↦ rw p (store_commit-IsHeld t b delay bs files r v found)
        ]

    pub add_commit-IsHeld :
        (t : Readings) (content : ContentProvider) (b : String) (delay : ℤ) (r : Repo g)
        → IsHeld r
        → IsHeld (add_commit g t content b delay r).1
    unfolding add_commit
    add_commit-IsHeld t content b delay r v = elim (Option-cases (lookup b r.branches)) [
      | inl p ↦ rw p v
      | inr (bs, p) ↦
          let (parent, bs', r') = settle g t.at_resolve b bs r in
          let on_visible =
            commit_on-IsHeld t content b delay bs' r' (settle-IsHeld t.at_resolve b bs r v p)
              (settle-found g t.at_resolve b bs r) in
          rw p (
            subst (λ q. IsHeld (commit_on g t content b delay q bs' r').1)
              (sym (visible-settle t.at_resolve b bs r)) on_visible)
    ]

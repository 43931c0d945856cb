-- ===== src/Store/Commit/Commits.antt =====
-- buildCommit: the commit that is found under the returned SHA.
use git_simulator.Base.{String, ◌≡◌, ap, sym, ◌∙◌, subst, some, ℤ}
use git_simulator.Core.Errors.{ok, ok_inj, wrap-ok}
use git_simulator.Core.Exec.{pure, bind-done}
use git_simulator.Core.Content.{Files}
use git_simulator.Store.Git.{Git, GitLaws, commit}
use git_simulator.Store.Objects.{ObjectLaws, Grew, as_read}
use git_simulator.Store.Commit.{
  write_object, build_tree, tree_fuel, write_commit, build_commit, new_commit, parents_of,
  signature_at,
}
use git_simulator.Store.Commit.Grows.{write_commit-Grows}
use git_simulator.Store.Commit.Contents.{TreeOf, write_object-stored, grew-done}
use git_simulator.Store.Commit.Trees.{build_tree-TreeOf}

module _ (g : Git) (laws : ObjectLaws g) where
  -- In a storage, the SHA names a commit with this parent (none, if the text is empty), message and
  -- time, whose tree has exactly these files, there and in any later storage.
  pub record CommitOf (s : g.State) (sha parent : String) (files : Files) (msg : String) (when : ℤ)
      : Type 0 where
    pub root : g.Hash
    pub stored :
        laws.object s (g.new_hash sha)
        ≡ some (
            commit root
              (parents_of g parent)
              (laws.rounded (signature_at when))
              (laws.rounded (signature_at when))
              msg)
    pub contents : TreeOf g laws s root files

  pub CommitOf-later :
      (s t : g.State) (sha parent : String) (files : Files) (msg : String) (when : ℤ)
      → Grew g laws s t
      → CommitOf s sha parent files msg when
      → CommitOf t sha parent files msg when
  CommitOf-later s t sha parent files msg when grew c = record {
    root = c.root;
    stored = grew _ _ c.stored;
    contents = λ s' later. c.contents s' (λ h o it. later h o (grew h o it));
  }

  module _ (names : GitLaws g) where
    write_commit-stored :
        (parent msg : String) (when : ℤ) (root : g.Hash) (s t : g.State) (sha : String)
        → write_commit g parent msg when root s ≡ (ok sha, t)
        → laws.object t (g.new_hash sha)
          ≡ some (
              commit root
                (parents_of g parent)
                (laws.rounded (signature_at when))
                (laws.rounded (signature_at when))
                msg)
    unfolding write_commit
    write_commit-stored parent msg when root s t sha done =
        let o = commit root (parents_of g parent) (signature_at when) (signature_at when) msg in
        let (h, u, first, last) =
          bind-done (write_object g o) (λ h. pure (g.hash_string h)) s t sha done in
        let same : h ≡ g.new_hash sha =
          sym (names.new_hash-hash_string h) ∙ ap g.new_hash (ok_inj (ap (λ x. x.0) last)) in
        subst (λ i. laws.object t i ≡ some (as_read laws.rounded o)) same
          (subst (λ v. laws.object v h ≡ some (as_read laws.rounded o)) (ap (λ x. x.1) last)
            (write_object-stored g laws o s u h first))

    pub build_commit-CommitOf :
        (parent : String) (files : Files) (msg : String) (when : ℤ) (s t : g.State) (sha : String)
        → build_commit g parent files msg when s ≡ (ok sha, t)
        → CommitOf t sha parent files msg when
    unfolding build_commit
    build_commit-CommitOf parent files msg when s t sha done =
        let (root, u, first, last) =
          bind-done (build_tree g (tree_fuel files) files) (write_commit g parent msg when) s t sha
            done in
        let grew =
          grew-done g laws (write_commit g parent msg when root) u t sha
            (write_commit-Grows g laws parent msg when root) last in
        record {
          root = root;
          stored = write_commit-stored parent msg when root u t sha last;
          contents = λ s' later.
              build_tree-TreeOf g laws (tree_fuel files) files s u root first s'
                (λ h o it. later h o (grew h o it));
        }

    pub new_commit-CommitOf :
        (parent : String) (files : Files) (msg : String) (when : ℤ) (s : g.State) (sha : String)
        → (new_commit g parent files msg when s).0 ≡ ok sha
        → CommitOf (new_commit g parent files msg when s).1 sha parent files msg when
    unfolding new_commit
    new_commit-CommitOf parent files msg when s sha h =
        let made = wrap-ok _ _ _ sha h in
        build_commit-CommitOf parent files msg when s _ sha
          (λ i. (made i, (build_commit g parent files msg when s).1))

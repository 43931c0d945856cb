-- ===== src/Store/Commit/Canonical.antt =====
-- buildCommit: the hash of a commit depends on its content alone.
use git_simulator.Base.{
  ℤ, String, ℕ, zero, suc, ◌≡◌, ◌∙◌, sym, ap, subst, inl, inr, ◌++◌, Has-append, string_eq,
}
use git_simulator.Core.Errors.{ok, ok_inj}
use git_simulator.Core.Exec.{bind-done}
use git_simulator.Core.Content.{Files}
use git_simulator.Store.Git.{Git, Object, blob, tree, commit, regular, dir}
use git_simulator.Store.Commit.{
  sort_entries, write_object, build_tree, parents_of, signature_at, write_commit, build_commit,
  tree_fuel,
}
use git_simulator.Store.Commit.Total.{Succeeds}
use git_simulator.Store.Commit.Addressed.{
  Addressed, IsMade, MadeBlob, MadeTree, MadeOf, write_object_unique, no_fuel, build_tree-MadeOf,
}
use git_simulator.Store.Commit.Unique.{Within, sort_entries_unique}
use git_simulator.Store.Commit.Apart.{Wrote-Within, parts-Apart}
use git_simulator.Store.Commit.Parted.{part_files-IsParted}
use git_simulator.Store.Commit.Same.{SameFiles, SameFiles-sym, parted, same_root, same_dir}

module _ (g : Git) (addressed : Addressed g) where
  open g use {Hash, State}

  -- The hash of a tree is that of its files alone.
  abbrev Canonical : ℕ → ℕ → Type 0
  Canonical n n' =
      (files files' : Files) (h h' : Hash)
      → SameFiles files files'
      → MadeTree g addressed n h files
      → MadeTree g addressed n' h' files'
      → h ≡ h'

  made-Within :
      (n n' : ℕ) (files files' : Files) (h h' : Hash)
      → Canonical n n'
      → SameFiles files files'
      → (m : MadeOf g addressed n files h) (m' : MadeOf g addressed n' files' h')
      → Within (m.blobs ++ m.trees) (m'.blobs ++ m'.trees)
  made-Within n n' files files' h h' below same m m' x i =
      (Has-append x m'.blobs m'.trees).1 (elim ((Has-append x m.blobs m.trees).0 i) [
        | inl j ↦ inl (
            Wrote-Within regular (MadeBlob g addressed) (MadeBlob g addressed) _ _ m.blobs m'.blobs
              m.files_of m'.files_of
              (λ name content b at made. (
                content,
                same_root files files' same name content at,
                λ b' made'. write_object_unique g addressed (blob content) b b' made made',
              ))
              x j)
        | inr j ↦ inr (
            Wrote-Within dir (MadeTree g addressed n) (MadeTree g addressed n') _ _ m.trees m'.trees
              m.dirs_of m'.dirs_of
              (λ d fs b at made.
                let (fs', at', same') = same_dir files files' same d fs at in
                (fs', at', λ b' made'. below fs fs' b b' same' made made'))
              x j)
      ])

  build_tree-Canonical : (n n' : ℕ) → Canonical n n'
  build_tree-Canonical zero n' files files' h h' same made made' =
      absurd (no_fuel g addressed files h made)
  build_tree-Canonical (suc n) zero files files' h h' same made made' =
      absurd (no_fuel g addressed files' h' made')
  build_tree-Canonical (suc n) (suc n') files files' h h' same made made' =
      let m = build_tree-MadeOf g addressed n files h made in
      let m' = build_tree-MadeOf g addressed n' files' h' made' in
      let sorted =
        sort_entries_unique (m.blobs ++ m.trees) (m'.blobs ++ m'.trees)
          (parts-Apart (parted files) (part_files-IsParted files) (MadeBlob g addressed)
            (MadeTree g addressed n) m.blobs m.trees m.files_of m.dirs_of)
          (parts-Apart (parted files') (part_files-IsParted files') (MadeBlob g addressed)
            (MadeTree g addressed n') m'.blobs m'.trees m'.files_of m'.dirs_of)
          (made-Within n n' files files' h h' (build_tree-Canonical n n') same m m')
          (made-Within n' n files' files h' h
            (λ fs fs' i i' e a b.
              sym (build_tree-Canonical n n' fs' fs i' i (SameFiles-sym fs fs' e) b a))
            (SameFiles-sym files files' same) m' m) in
      write_object_unique g addressed (tree (sort_entries (m'.blobs ++ m'.trees))) h h'
        (subst (λ es. IsMade (write_object g (tree es)) h) sorted m.whole) m'.whole

  commit_object : String → String → ℤ → Hash → Object Hash
  commit_object parent msg when root =
      commit root (parents_of g parent) (signature_at when) (signature_at when) msg

  write_commit_object :
      (parent : String) (files : Files) (msg : String) (when : ℤ) (s : State) (sha : String)
      → (build_commit g parent files msg when s).0 ≡ ok sha
      → (root : Hash) × (h : Hash) × MadeTree g addressed (tree_fuel files) root files
        × IsMade (write_object g (commit_object parent msg when root)) h
        × (sha ≡ g.hash_string h)
  unfolding build_commit write_commit commit_object
  write_commit_object parent files msg when s sha made =
      let t = (build_commit g parent files msg when s).1 in
      let done = ap (λ r. (r, t)) made in
      let (root, u, first, rest) =
        bind-done (build_tree g (tree_fuel files) files) _ s t sha done in
      let (h, w, second, last) =
        bind-done (write_object g (commit_object parent msg when root)) _ u t sha rest in
      (root, h, (s, u, first), (u, w, second), sym (ok_inj (ap (λ x. x.0) last)))

  -- Two calls of buildCommit that succeed with the same parent, files, message and time return the
  -- same hash, in whatever order the maps of files are ranged over and in whatever storage, when
  -- objects have the hash of their encoding.
  pub build_commit_unique :
      (parent : String) (files files' : Files) (msg : String) (when : ℤ) (s s' : State)
      → SameFiles files files'
      → Succeeds (build_commit g parent files msg when s).0
      → Succeeds (build_commit g parent files' msg when s').0
      → (build_commit g parent files msg when s).0 ≡ (build_commit g parent files' msg when s').0
  build_commit_unique parent files files' msg when s s' same (sha, made) (sha', made') =
      let (root, h, tree_made, commit_made, is) =
        write_commit_object parent files msg when s sha made in
      let (root', h', tree_made', commit_made', is') =
        write_commit_object parent files' msg when s' sha' made' in
      let roots =
        build_tree-Canonical (tree_fuel files) (tree_fuel files') files files' root root' same
          tree_made tree_made' in
      let commit_made'' =
        subst (λ r. IsMade (write_object g (commit_object parent msg when r)) h) roots
          commit_made in
      let hashes =
        write_object_unique g addressed (commit_object parent msg when root') h h' commit_made''
          commit_made' in
      made ∙ ap ok (is ∙ ap g.hash_string hashes ∙ sym is') ∙ sym made'

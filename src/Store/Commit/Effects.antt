-- ===== src/Store/Commit/Effects.antt =====
-- Writing a commit moves no reference, and the commit's SHA is never empty.
use git_simulator.Base.{ℕ, zero, suc, String, ◌≡◌, false, ◌==◌, fun_ext, List, [], ◌∷◌, ℤ, arith}
use git_simulator.Core.Errors.{ok, wrap-ok}
use git_simulator.Core.Exec.{Exec, pure, Keeps, Keeps-bind, Keeps-pure, keeps_rules, bind-ok}
use git_simulator.Core.Content.{Files}
use git_simulator.Store.Git.{Git, GitLaws, Object}
use git_simulator.Store.Commit.{
  build_tree, build_commit, new_commit, write_object, write_files, write_dirs, write_commit,
  tree_fuel,
}

module _ (g : Git) (laws : GitLaws g) where
  set_encoded_object-Keeps : (o : g.Encoded) → Keeps g.reference (g.set_encoded_object o)
  set_encoded_object-Keeps o = record { at = λ s. fun_ext (laws.reference-set_encoded_object o s) }

  write_object-Keeps : (o : Object g.Hash) → Keeps g.reference (write_object g o)
  unfolding write_object
  write_object-Keeps o = search (keeps_rules, set_encoded_object-Keeps)

  write_files-Keeps : (files : Files) → Keeps g.reference (write_files g files)
  unfolding write_files
  write_files-Keeps [] = search keeps_rules
  write_files-Keeps ((name, content) ∷ files) =
      Keeps-bind _ _ (write_object-Keeps _)
        (λ h. Keeps-bind _ _ (write_files-Keeps files) (λ rest. Keeps-pure _))

  write_dirs-Keeps :
      (build : Files → Exec g.State g.Hash)
      → ((files : Files) → Keeps g.reference (build files))
      → (dirs : List (String × Files)) → Keeps g.reference (write_dirs g build dirs)
  unfolding write_dirs
  write_dirs-Keeps build kept [] = search keeps_rules
  write_dirs-Keeps build kept ((name, files) ∷ dirs) =
      Keeps-bind _ _ (kept files)
        (λ h. Keeps-bind _ _ (write_dirs-Keeps build kept dirs) (λ rest. Keeps-pure _))

  build_tree-Keeps : (fuel : ℕ) (files : Files) → Keeps g.reference (build_tree g fuel files)
  unfolding build_tree
  build_tree-Keeps zero files = search keeps_rules
  build_tree-Keeps (suc fuel) files = search (
    keeps_rules,
    write_files-Keeps,
    write_dirs-Keeps (build_tree g fuel) (build_tree-Keeps fuel),
    write_object-Keeps,
  )

  write_commit-Keeps :
      (parent msg : String) (when : ℤ) (root : g.Hash)
      → Keeps g.reference (write_commit g parent msg when root)
  unfolding write_commit
  write_commit-Keeps parent msg when root = search (keeps_rules, write_object-Keeps)

  pub build_commit-Keeps :
      (parent : String) (files : Files) (msg : String) (when : ℤ)
      → Keeps g.reference (build_commit g parent files msg when)
  unfolding build_commit
  build_commit-Keeps parent files msg when =
      search (keeps_rules, build_tree-Keeps, write_commit-Keeps)

  write_commit-nonempty :
      (parent msg : String) (when : ℤ) (root : g.Hash) (s : g.State) (sha : String)
      → (write_commit g parent msg when root s).0 ≡ ok sha
      → (sha == "") ≡ false
  unfolding write_commit
  write_commit-nonempty parent msg when root s sha h =
      let (c, _, h') = bind-ok (write_object g _) (λ c. pure (g.hash_string c)) s sha h in
      ground (arith, laws.hash_string_nonempty c)

  pub build_commit-nonempty :
      (parent : String) (files : Files) (msg : String) (when : ℤ) (s : g.State) (sha : String)
      → (build_commit g parent files msg when s).0 ≡ ok sha
      → (sha == "") ≡ false
  unfolding build_commit
  build_commit-nonempty parent files msg when s sha h =
      let (root, _, h') =
        bind-ok (build_tree g (tree_fuel files) files) (write_commit g parent msg when) s sha h in
      write_commit-nonempty parent msg when root _ sha h'

  pub new_commit-Keeps :
      (parent : String) (files : Files) (msg : String) (when : ℤ)
      → Keeps g.reference (new_commit g parent files msg when)
  unfolding new_commit
  new_commit-Keeps parent files msg when = record {
    at = λ s. (build_commit-Keeps parent files msg when).at s;
  }

  pub new_commit-nonempty :
      (parent : String) (files : Files) (msg : String) (when : ℤ) (s : g.State) (sha : String)
      → (new_commit g parent files msg when s).0 ≡ ok sha
      → (sha == "") ≡ false
  unfolding new_commit
  new_commit-nonempty parent files msg when s sha h =
      build_commit-nonempty parent files msg when s sha (wrap-ok _ _ _ sha h)

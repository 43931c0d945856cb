-- ===== src/Store/Commit/Grows.antt =====
-- Writing a commit takes no object away.
use git_simulator.Base.{ℕ, zero, suc, String, List, [], ◌∷◌, ℤ}
use git_simulator.Core.Exec.{Exec}
use git_simulator.Core.Content.{Files}
use git_simulator.Store.Git.{Git, Object}
use git_simulator.Store.Objects.{ObjectLaws, Grows, Grows-pure, Grows-bind, grows_rules}
use git_simulator.Store.Commit.{
  build_tree, build_commit, new_commit, write_object, write_files, write_dirs, write_commit,
}

module _ (g : Git) (laws : ObjectLaws g) where
  set_encoded_object-Grows : (e : g.Encoded) → Grows g laws (g.set_encoded_object e)
  set_encoded_object-Grows e = record { at = laws.object_kept e }

  pub write_object-Grows : (o : Object g.Hash) → Grows g laws (write_object g o)
  unfolding write_object
  write_object-Grows o = search (grows_rules, set_encoded_object-Grows)

  pub write_files-Grows : (files : Files) → Grows g laws (write_files g files)
  unfolding write_files
  write_files-Grows [] = search grows_rules
  write_files-Grows ((name, content) ∷ files) =
      Grows-bind _ _ (write_object-Grows _)
        (λ h. Grows-bind _ _ (write_files-Grows files) (λ rest. Grows-pure _))

  pub write_dirs-Grows :
      (build : Files → Exec g.State g.Hash)
      → ((files : Files) → Grows g laws (build files))
      → (dirs : List (String × Files)) → Grows g laws (write_dirs g build dirs)
  unfolding write_dirs
  write_dirs-Grows build grows [] = search grows_rules
  write_dirs-Grows build grows ((name, files) ∷ dirs) =
      Grows-bind _ _ (grows files)
        (λ h. Grows-bind _ _ (write_dirs-Grows build grows dirs) (λ rest. Grows-pure _))

  pub build_tree-Grows : (fuel : ℕ) (files : Files) → Grows g laws (build_tree g fuel files)
  unfolding build_tree
  build_tree-Grows zero files = search grows_rules
  build_tree-Grows (suc fuel) files = search (
    grows_rules,
    write_files-Grows,
    write_dirs-Grows (build_tree g fuel) (build_tree-Grows fuel),
    write_object-Grows,
  )

  pub write_commit-Grows :
      (parent msg : String) (when : ℤ) (root : g.Hash)
      → Grows g laws (write_commit g parent msg when root)
  unfolding write_commit
  write_commit-Grows parent msg when root = search (grows_rules, write_object-Grows)

  pub build_commit-Grows :
      (parent : String) (files : Files) (msg : String) (when : ℤ)
      → Grows g laws (build_commit g parent files msg when)
  unfolding build_commit
  build_commit-Grows parent files msg when =
      search (grows_rules, build_tree-Grows, write_commit-Grows)

  pub new_commit-Grows :
      (parent : String) (files : Files) (msg : String) (when : ℤ)
      → Grows g laws (new_commit g parent files msg when)
  unfolding new_commit
  new_commit-Grows parent files msg when = record {
    at = λ s. (build_commit-Grows parent files msg when).at s;
  }

-- ===== src/Store/Commit/Built.antt =====
-- buildCommit returns a commit for any files whose paths the encoding takes.
use git_simulator.Base.{
  ℕ, zero, suc, ◌-◌, ◌<◌, String, ◌≡◌, inl, inr, refl, subst, arith, List, [], ◌∷◌, ◌++◌, ℤ, All,
  Has-append,
}
use git_simulator.Core.Exec.{pure}
use git_simulator.Core.Content.{Files}
use git_simulator.Store.Git.{Git, tree, commit, TreeEntry}
use git_simulator.Store.Commit.{
  part_files, no_parts, write_object, write_files, write_dirs, sort_entries, build_tree, tree_fuel,
  write_commit, build_commit, new_commit, signature_at, parents_of,
}
use git_simulator.Store.Commit.Sorted.{sort_entries-InOrder, sort_entries-Has}
use git_simulator.Store.Commit.Fuel.{Short, Smaller, part_files-Smaller, total_length-Short}
use git_simulator.Store.Commit.Total.{
  Succeeds, EncodeLaws, ArePaths, part_files-Named, AreNames, Succeeds-bind, write_object-ok,
  write_files-ok, write_dirs-ok,
}

All-pair :
    {A : Type 0} (P Q R : A → Type 0) (xs : List A)
    → All (λ x. P x × Q x) xs
    → All R xs
    → All (λ x. P x × (Q x × R x)) xs
All-pair P Q R [] a b = tt
All-pair P Q R (x ∷ xs) a b = ((a.0.0, (a.0.1, b.0)), All-pair P Q R xs a.1 b.1)

module _ (g : Git) (laws : EncodeLaws g) where
  open g use {Hash, State}

  sorted-AreNames :
      (blobs trees : List (TreeEntry Hash))
      → AreNames g laws blobs
      → AreNames g laws trees
      → AreNames g laws (sort_entries (blobs ++ trees))
  sorted-AreNames blobs trees b t x i =
      elim ((Has-append x blobs trees).0 ((sort_entries-Has x (blobs ++ trees)).0 i)) [
        | inl j ↦ b x j
        | inr j ↦ t x j
      ]

  before_suc : (n : ℕ) → suc n - 1 ≡ n
  before_suc n = omega arith

  build_tree-ok :
      (fuel : ℕ) (files : Files)
      → 0 < fuel
      → Short fuel files × ArePaths laws.is_name files
      → (s : State) → Succeeds (build_tree g fuel files s).0
  unfolding build_tree
  build_tree-ok zero files h a s = absurd (omega arith)
  build_tree-ok (suc fuel) files h (short, paths) s =
      let p = part_files files no_parts in
      let v =
        part_files-Named laws.is_name files no_parts paths (record { roots = tt; dirs = tt }) in
      let smaller = part_files-Smaller (suc fuel) files no_parts short tt in
      let (blobs, b, b_named) = write_files-ok g laws p.root_files s v.roots in
      let u = (write_files g p.root_files s).1 in
      let (trees, t, t_named) =
        write_dirs-ok g laws (build_tree g fuel)
          (λ fs. ArePaths laws.is_name fs × Smaller (suc fuel) fs)
          (λ fs both s'.
            build_tree-ok fuel fs (omega arith)
              (subst (λ i. Short i fs) (before_suc fuel) both.1.1, both.0) s')
          p.subdirs u (All-pair _ _ _ p.subdirs v.dirs smaller) in
      let es = sort_entries (blobs ++ trees) in
      let encoded =
        laws.encode_tree es (sort_entries-InOrder (blobs ++ trees))
          (sorted-AreNames blobs trees b_named t_named) in
      let (h, made) =
        write_object-ok g laws (tree es) (write_dirs g (build_tree g fuel) p.subdirs u).1 encoded in
      (h, rw (b, t) made)

  write_commit-ok :
      (parent msg : String) (when : ℤ) (root : Hash) (s : State)
      → Succeeds (write_commit g parent msg when root s).0
  unfolding write_commit
  write_commit-ok parent msg when root s =
      let sig = signature_at when in
      Succeeds-bind g laws (write_object g (commit root (parents_of g parent) sig sig msg))
        (λ h. pure (g.hash_string h)) s
        (write_object-ok g laws _ s (laws.encode_commit root (parents_of g parent) sig sig msg))
        (λ h u. (g.hash_string h, refl))

  pub build_commit-ok :
      (parent : String) (files : Files) (msg : String) (when : ℤ) (s : State)
      → ArePaths laws.is_name files
      → Succeeds (build_commit g parent files msg when s).0
  unfolding build_commit
  build_commit-ok parent files msg when s paths =
      Succeeds-bind g laws (build_tree g (tree_fuel files) files) (write_commit g parent msg when) s
        (build_tree-ok (tree_fuel files) files (omega arith)
          (total_length-Short files (tree_fuel files) (omega arith), paths) s)
        (write_commit-ok parent msg when)

  pub new_commit-ok :
      (parent : String) (files : Files) (msg : String) (when : ℤ) (s : State)
      → ArePaths laws.is_name files
      → Succeeds (new_commit g parent files msg when s).0
  unfolding new_commit
  new_commit-ok parent files msg when s paths =
      let (sha, p) = build_commit-ok parent files msg when s paths in (sha, rw p refl)

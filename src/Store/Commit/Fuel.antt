-- ===== src/Store/Commit/Fuel.antt =====
-- buildTree: the fuel is enough, for any files.
use Prim.Native.Char.{code}
use Prim.Native.String as Text
use git_simulator.Base.{
  ◌-◌, ◌+◌, ◌++◌, ◌∙◌, ℕ, zero, suc, ◌≤◌, ◌<◌, String, Bool-cases, nat_eq, Option, Option-cases,
  none, some, List, [], ◌∷◌, ◌≡◌, refl, sym, ap, subst, arith, inl, inr, All, All-Has, Has,
  string_eq, lookup, some_inj, All-insert, All-lookup,
}
use git_simulator.Core.Content.{Files}
use git_simulator.Core.Exec.{Exec, ◌>>=◌}
use git_simulator.Store.Git.{Git, tree}
use git_simulator.Store.Commit.{
  cut_slash, Parts, add_path, part_files, no_parts, or_empty, text_length, total_length, tree_fuel,
  write_object, write_files, write_dirs, sort_entries, build_tree,
}

-- All paths are shorter than `n`.
abbrev pub Short : ℕ → Files → Type 0
Short n files = All (λ f. text_length f.0 < n) files

-- What is left of a path after its first slash is shorter than the path.
cut_slash-shorter :
    (path d rest : String) → cut_slash path ≡ some (d, rest) → text_length rest < text_length path
unfolding cut_slash
cut_slash-shorter Text.[] d rest h = cc
cut_slash-shorter (Text.◌∷◌ c s) d rest h = elim (Bool-cases (nat_eq (code c) b'/')) [
  | inl e ↦ let h' = rw e at h in omega (arith, ap (λ q. text_length q.1) (some_inj h'))
  | inr e ↦
      let h' = rw e at h in
      elim (Option-cases (cut_slash s)) [
        | inl p ↦ let h'' = rw p at h' in cc
        | inr ((d', rest'), p) ↦
            let h'' = rw p at h' in
            omega (arith, ap (λ q. text_length q.1) (some_inj h''), cut_slash-shorter s d' rest' p)
      ]
]

-- The files of a directory are met with less fuel, and some is left.
abbrev pub Smaller : ℕ → Files → Type 0
Smaller n files = (1 < n) × Short (n - 1) files

add_path-Smaller :
    (n : ℕ) (path : String) (content : List ℕ) (o : Option (String × String)) (p : Parts)
    → cut_slash path ≡ o
    → text_length path < n
    → All (λ e. Smaller n e.1) p.subdirs
    → All (λ e. Smaller n e.1) (add_path path content o p).subdirs
unfolding add_path
add_path-Smaller n path content none p cut short a = a
add_path-Smaller n path content (some (d, rest)) p cut short a =
    let less = cut_slash-shorter path d rest cut in
    let there : Short (n - 1) (or_empty (lookup d p.subdirs)) =
      elim (Option-cases (lookup d p.subdirs)) [
        | inl q ↦ rw q tt
        | inr (m, q) ↦ rw q ((All-lookup (λ e. Smaller n e.1) d m p.subdirs q a).1)
      ] in
    All-insert (λ e. Smaller n e.1) d _ p.subdirs
      (omega arith, All-insert (λ f. text_length f.0 < n - 1) rest content _ (omega arith) there) a

pub part_files-Smaller :
    (n : ℕ) (files : Files) (p : Parts)
    → Short n files
    → All (λ e. Smaller n e.1) p.subdirs
    → All (λ e. Smaller n e.1) (part_files files p).subdirs
unfolding part_files
part_files-Smaller n [] p short a = a
part_files-Smaller n ((path, content) ∷ files) p short a =
    part_files-Smaller n files _ short.1
      (add_path-Smaller n path content (cut_slash path) p refl short.0 a)

pub total_length-Short : (files : Files) (n : ℕ) → total_length files < n → Short n files
total_length-Short [] n h = tt
total_length-Short ((path, content) ∷ files) n h =
    (omega arith, total_length-Short files n (omega arith))

-- The directories of the files nest, one inside another, fewer than `n` deep.
pub data Nests : ℕ → Files → Type 0 where
  nests :
      {n : ℕ} {files : Files}
      → ((d : String) (fs : Files) → Has (d, fs) (part_files files no_parts).subdirs → Nests n fs)
      → Nests (suc n) files

before_suc : (n : ℕ) → suc n - 1 ≡ n
before_suc n = omega arith

Short-Nests : (n : ℕ) (files : Files) → 0 < n → Short n files → Nests n files
Short-Nests zero files h short = absurd (omega arith)
Short-Nests (suc n) files h short = nests (λ d fs i.
    let sm =
      All-Has (λ e. Smaller (suc n) e.1) (d, fs) _
        (part_files-Smaller (suc n) files no_parts short tt) i in
    Short-Nests n fs (omega (arith, sm.0)) (subst (λ k. Short k fs) (before_suc n) sm.1))

module _ (g : Git) where
  write_dirs-same :
      (f f' : Files → Exec g.State g.Hash) (P : Files → Type 0)
      → ((files : Files) → P files → f files ≡ f' files)
      → (dirs : List (String × Files)) → All (λ e. P e.1) dirs
      → write_dirs g f dirs ≡ write_dirs g f' dirs
  unfolding write_dirs
  write_dirs-same f f' P same [] a = refl
  write_dirs-same f f' P same ((name, files) ∷ dirs) a =
      rw (same files a.0, write_dirs-same f f' P same dirs a.1) refl

  build_tree-more :
      (n k : ℕ) (files : Files)
      → 0 < n
      → n ≤ k
      → Short n files
      → build_tree g n files ≡ build_tree g k files
  unfolding build_tree
  build_tree-more zero k files h l short = absurd (omega arith)
  build_tree-more (suc n) zero files h l short = absurd (omega arith)
  build_tree-more (suc n) (suc k) files h l short =
      rw
        (write_dirs-same (build_tree g n) (build_tree g k) (Smaller (suc n))
          (λ fs sm.
            build_tree-more n k fs (omega arith) (omega arith)
              (subst (λ i. Short i fs) (before_suc n) sm.1))
          _ (part_files-Smaller (suc n) files no_parts short tt))
        refl

  same_fuel :
      (n : ℕ) (files : Files)
      → 0 < n
      → Short n files
      → build_tree g n files ≡ build_tree g (tree_fuel files) files
  same_fuel n files h short =
      build_tree-more n (n + tree_fuel files) files h (omega arith) short
      ∙ sym (
          build_tree-more (tree_fuel files) (n + tree_fuel files) files (omega arith) (omega arith)
            (total_length-Short files (tree_fuel files) (omega arith)))

  -- The body of buildTree, with its calls of itself on the subdirectories as `build`.
  abbrev pub tree_from : (Files → Exec g.State g.Hash) → Files → Exec g.State g.Hash
  tree_from build files = do
    blobs ← write_files g (part_files files no_parts).root_files
    trees ← write_dirs g build (part_files files no_parts).subdirs
    write_object g (tree (sort_entries (blobs ++ trees)))

  build_tree-tree_from :
      (files : Files)
      → build_tree g (tree_fuel files) files
        ≡ tree_from (λ fs. build_tree g (tree_fuel fs) fs) files
  unfolding build_tree
  build_tree-tree_from files =
      let n = total_length files in
      rw
        (write_dirs-same (build_tree g n) (λ fs. build_tree g (tree_fuel fs) fs) (Smaller (suc n))
          (λ fs sm.
            same_fuel n fs (omega (arith, sm.0)) (subst (λ i. Short i fs) (before_suc n) sm.1))
          _
          (part_files-Smaller (suc n) files no_parts
            (total_length-Short files (suc n) (omega arith)) tt))
        refl

  -- buildTree ends: the directories of any files nest fewer times than its fuel is; with this fuel it
  -- is the body of buildTree, in which each call of itself on a directory has the fuel of the files of
  -- that directory; and with any more fuel it does the same.
  pub build_tree-tree_fuel :
      (files : Files) (k : ℕ)
      → tree_fuel files ≤ k
      → Nests (tree_fuel files) files
        × (build_tree g (tree_fuel files) files
            ≡ tree_from (λ fs. build_tree g (tree_fuel fs) fs) files)
        × (build_tree g k files ≡ build_tree g (tree_fuel files) files)
  build_tree-tree_fuel files k h =
      let short = total_length-Short files (tree_fuel files) (omega arith) in
      (
        Short-Nests (tree_fuel files) files (omega arith) short,
        build_tree-tree_from files,
        sym (build_tree-more (tree_fuel files) k files (omega arith) h short),
      )

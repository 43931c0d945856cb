-- ===== src/Store/Commit/Total.antt =====
-- buildCommit succeeds where the encoding takes the names of the files.
use git_simulator.Base.{
  ℕ, String, Bool, true, ◌≡◌, inl, inr, refl, sym, ◌∙◌, ap, subst, Option, Option-cases, none, some,
  some_inj, List, [], ◌∷◌, All, Has, All-insert, All-lookup, string_eq, lookup,
}
use git_simulator.Core.Errors.{Result, ok}
use git_simulator.Core.Exec.{Exec, ◌>>=◌}
use git_simulator.Core.Content.{Files}
use git_simulator.Store.Git.{Git, Object, blob, tree, commit, TreeEntry, Signature, regular, dir}
use git_simulator.Store.Commit.{
  cut_slash, Parts, add_path, part_files, or_empty, write_object, write_files, write_dirs,
}
use git_simulator.Store.Commit.Sorted.{InOrder}

abbrev pub Succeeds : {A : Type 0} → Result A → Type 0
Succeeds {A} r = (a : A) × (r ≡ ok a)

-- What go-git, a module outside the repository, documents of its encoding and its storage in memory:
-- the encoding of a tree checks the order of the entries and their names.
pub record EncodeLaws (g : Git) : Type 0 where
  pub is_name : String → Bool
  pub encode_blob : (content : List ℕ) → Succeeds (g.encode (blob content))
  pub encode_tree :
      (es : List (TreeEntry g.Hash))
      → InOrder es
      → ((x : TreeEntry g.Hash) → Has x es → is_name x.name ≡ true)
      → Succeeds (g.encode (tree es))
  pub encode_commit :
      (root : g.Hash) (parents : List g.Hash) (author committer : Signature) (msg : String)
      → Succeeds (g.encode (commit root parents author committer msg))
  pub set_encoded_object_ok : (e : g.Encoded) (s : g.State) → Succeeds (g.set_encoded_object e s).0

-- All parts of a path between its slashes are names.
pub data IsPath (is_name : String → Bool) : String → Type 0 where
  last : {path : String} → cut_slash path ≡ none → is_name path ≡ true → IsPath is_name path
  more :
      {path : String} (d rest : String)
      → cut_slash path ≡ some (d, rest)
      → is_name d ≡ true
      → IsPath is_name rest
      → IsPath is_name path

module _ (is_name : String → Bool) where
  abbrev pub ArePaths : Files → Type 0
  ArePaths files = All (λ f. IsPath is_name f.0) files

  pub record Named (p : Parts) : Type 0 where
    pub roots : All (λ e. is_name e.0 ≡ true) p.root_files
    pub dirs : All (λ e. (is_name e.0 ≡ true) × ArePaths e.1) p.subdirs

  add_path-Named :
      (path : String) (content : List ℕ) (o : Option (String × String)) (p : Parts)
      → cut_slash path ≡ o
      → IsPath is_name path
      → Named p
      → Named (add_path path content o p)
  unfolding add_path
  add_path-Named path content none p cut (last _ named) v = record {
    roots = All-insert (λ e. is_name e.0 ≡ true) path content p.root_files named v.roots;
    dirs = v.dirs;
  }
  add_path-Named path content none p cut (more d rest other _ _) v = absurd (cc)
  add_path-Named path content (some (d, rest)) p cut (last other _) v = absurd (cc)
  add_path-Named path content (some (d, rest)) p cut (more d' rest' other named below) v =
      let same = some_inj (sym other ∙ cut) in
      let there : ArePaths (or_empty (lookup d p.subdirs)) =
        elim (Option-cases (lookup d p.subdirs)) [
          | inl q ↦ rw q tt
          | inr (m, q) ↦
              rw q
                ((All-lookup (λ e. (is_name e.0 ≡ true) × ArePaths e.1) d m p.subdirs q v.dirs).1)
        ] in
      record {
        roots = v.roots;
        dirs =
            All-insert (λ e. (is_name e.0 ≡ true) × ArePaths e.1) d _ p.subdirs
              (
                subst (λ x. is_name x ≡ true) (ap (λ x. x.0) same) named,
                All-insert (λ f. IsPath is_name f.0) rest content _
                    (subst (IsPath is_name) (ap (λ x. x.1) same) below) there,
              )
              v.dirs;
      }

  pub part_files-Named :
      (files : Files) (p : Parts) → ArePaths files → Named p → Named (part_files files p)
  unfolding part_files
  part_files-Named [] p a v = v
  part_files-Named ((path, content) ∷ files) p a v =
      part_files-Named files _ a.1 (add_path-Named path content (cut_slash path) p refl a.0 v)

module _ (g : Git) (laws : EncodeLaws g) where
  open g use {Hash, State}

  -- A block whose parts succeed.
  pub Succeeds-bind :
      {A B : Type 0} (m : Exec State A) (f : A → Exec State B) (s : State)
      → Succeeds (m s).0
      → ((a : A) (u : State) → Succeeds (f a u).0)
      → Succeeds ((m >>= f) s).0
  Succeeds-bind m f s (a, p) next = rw p (next a (m s).1)

  pub write_object-ok :
      (o : Object Hash) (s : State) → Succeeds (g.encode o) → Succeeds (write_object g o s).0
  unfolding write_object
  write_object-ok o s (e, p) = rw p (laws.set_encoded_object_ok e s)

  abbrev pub AreNames : List (TreeEntry Hash) → Type 0
  AreNames es = (x : TreeEntry Hash) → Has x es → laws.is_name x.name ≡ true

  -- An action that returns entries with names that the encoding takes.
  abbrev pub Lists : Result (List (TreeEntry Hash)) → Type 0
  Lists r = (es : List (TreeEntry Hash)) × (r ≡ ok es) × AreNames es

  AreNames-cons :
      (x : TreeEntry Hash) (es : List (TreeEntry Hash))
      → laws.is_name x.name ≡ true
      → AreNames es
      → AreNames (x ∷ es)
  AreNames-cons x es named rest y (inl same) = ap (λ z. laws.is_name z.name) same ∙ named
  AreNames-cons x es named rest y (inr i) = rest y i

  pub write_files-ok :
      (files : Files) (s : State)
      → All (λ e. laws.is_name e.0 ≡ true) files
      → Lists (write_files g files s).0
  unfolding write_files
  write_files-ok [] s a = ([], refl, λ x i. absurd i)
  write_files-ok ((n, content) ∷ files) s a =
      let (h, p) = write_object-ok (blob content) s (laws.encode_blob content) in
      let (es, q, named) = write_files-ok files (write_object g (blob content) s).1 a.1 in
      (
        record { name = n; mode = regular; hash = h } ∷ es,
        rw (p, q) refl,
        AreNames-cons _ es a.0 named,
      )

  pub write_dirs-ok :
      (build : Files → Exec State Hash) (P : Files → Type 0)
      → ((files : Files) → P files → (s : State) → Succeeds (build files s).0)
      → (dirs : List (String × Files)) (s : State)
      → All (λ e. (laws.is_name e.0 ≡ true) × P e.1) dirs
      → Lists (write_dirs g build dirs s).0
  unfolding write_dirs
  write_dirs-ok build P built [] s a = ([], refl, λ x i. absurd i)
  write_dirs-ok build P built ((n, files) ∷ dirs) s a =
      let (h, p) = built files a.0.1 s in
      let (es, q, named) = write_dirs-ok build P built dirs (build files s).1 a.1 in
      (
        record { name = n; mode = dir; hash = h } ∷ es,
        rw (p, q) refl,
        AreNames-cons _ es a.0.0 named,
      )

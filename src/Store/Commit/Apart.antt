-- ===== src/Store/Commit/Apart.antt =====
-- The entries that buildTree writes for maps: their names, and when two lists have the same entries.
use git_simulator.Base.{
  String, ℕ, ◌<>◌, ◌≡◌, ◌≢◌, ◌∙◌, refl, sym, ap, subst, inl, inr, none, some, List, [], ◌∷◌, ◌++◌,
  Has, Has-append, All, All-Has, Has-All, string_eq, lookup, Has-lookup, Distinct, some_inj,
}
use git_simulator.Core.Content.{Files}
use git_simulator.Store.Git.{TreeEntry, Mode, regular, dir}
use git_simulator.Store.Commit.{Parts, cut_slash, sort_key}
use git_simulator.Store.Commit.Slash.{Free, cut_slash-append}
use git_simulator.Store.Commit.Unique.{Apart, Within}
use git_simulator.Store.Commit.Wrote.{entry, Wrote, wrote_none, wrote, entry_there, key_of}
use git_simulator.Store.Commit.Parted.{IsParted}

module _ {Hash V : Type 0} (mode : Mode) where
  -- The entries of one map are among those of another that has the same keys, if the values give the
  -- same hashes.
  pub Wrote-Within :
      (P P' : Hash → V → Type 0) (m m' : List (String × V)) (es es' : List (TreeEntry Hash))
      → Wrote mode P m es
      → Wrote mode P' m' es'
      → ((n : String) (v : V) (h : Hash)
          → Has (n, v) m
          → P h v
          → (v' : V) × Has (n, v') m' × ((h' : Hash) → P' h' v' → h ≡ h'))
      → Within es es'
  Wrote-Within P P' m m' es es' w w' f x i =
      let (v, same, at, p) = key_of mode P m es w x i in
      let (v', at', equal) = f x.name v x.hash at p in
      let (h', there, p') = entry_there mode P' m' es' w' x.name v' at' in
      subst (λ y. Has y es') (sym (same ∙ ap (entry mode x.name) (equal h' p'))) there

  pub Wrote-Apart :
      (P : Hash → V → Type 0) (Q : String → Type 0)
      → ((j k : String) (h i : Hash)
          → Q j
          → Q k
          → sort_key (entry mode j h) ≡ sort_key (entry mode k i)
          → j ≡ k)
      → (m : List (String × V)) (es : List (TreeEntry Hash)) → Wrote mode P m es
      → Distinct m
      → All (λ e. Q e.0) m
      → Apart es
  Wrote-Apart P Q injective _ _ wrote_none d q = tt
  Wrote-Apart P Q injective _ _ (wrote {m = m} {es = es} n v h p w) d q = (
    Has-All _ es (λ x i same.
        let (u, is, at, _) = key_of mode P m es w x i in
        let equal : n ≡ x.name =
          injective n x.name h x.hash q.0 (All-Has (λ e. Q e.0) (x.name, u) m q.1 at)
            (same ∙ ap sort_key is) in
        let found = Has-lookup x.name u m d.1 at in
        let missing = subst (λ k. lookup k m ≡ none) equal d.0 in
        let both = sym missing ∙ found in absurd (cc)),
    Wrote-Apart P Q injective m es w d.1 q.1,
  )

module _ {Hash : Type 0} where
  pub Apart-append :
      (xs ys : List (TreeEntry Hash))
      → Apart xs
      → Apart ys
      → ((x y : TreeEntry Hash) → Has x xs → Has y ys → sort_key x ≢ sort_key y)
      → Apart (xs ++ ys)
  Apart-append [] ys a b f = b
  Apart-append (x ∷ xs) ys a b f = (
    Has-All _ (xs ++ ys) (λ y i. elim ((Has-append y xs ys).0 i) [
      | inl j ↦ All-Has (λ z. sort_key x ≢ sort_key z) y xs a.0 j
      | inr j ↦ f x y (inl refl) j
    ]),
    Apart-append xs ys a.1 b (λ z y i j. f z y (inr i) j),
  )

pub cut_slash-dir_key : (d : String) → Free b'/' d → cut_slash (d <> "/") ≡ some (d, "")
cut_slash-dir_key d f = cut_slash-append d "" f

pub dir_key_inj : (d e : String) → Free b'/' d → Free b'/' e → d <> "/" ≡ e <> "/" → d ≡ e
dir_key_inj d e f f' same =
    let both = sym (cut_slash-dir_key d f) ∙ ap cut_slash same ∙ cut_slash-dir_key e f' in
    ap (λ x. x.0) (some_inj both)

module _ {Hash : Type 0} (p : Parts) (v : IsParted p) (P : Hash → List ℕ → Type 0)
    (Q : Hash → Files → Type 0) (blobs trees : List (TreeEntry Hash))
    (files_of : Wrote regular P p.root_files blobs) (dirs_of : Wrote dir Q p.subdirs trees) where
  -- A file's name has no slash, and a directory is sorted by its name with a slash after it.
  file_not_dir : (x y : TreeEntry Hash) → Has x blobs → Has y trees → sort_key x ≢ sort_key y
  file_not_dir x y i j same =
      let (content, is, at, _) = key_of regular P p.root_files blobs files_of x i in
      let (fs, is', at', _) = key_of dir Q p.subdirs trees dirs_of y j in
      let plain = All-Has (λ e. cut_slash e.0 ≡ none) (x.name, content) p.root_files v.plain at in
      let free = All-Has (λ e. Free b'/' e.0 × Distinct e.1) (y.name, fs) p.subdirs v.names at' in
      let keys : x.name ≡ y.name <> "/" = sym (ap sort_key is) ∙ same ∙ ap sort_key is' in
      let both = sym plain ∙ ap cut_slash keys ∙ cut_slash-dir_key y.name free.0 in cc

  -- No two entries of the tree of a map have the same name.
  pub parts-Apart : Apart (blobs ++ trees)
  parts-Apart =
      Apart-append blobs trees
        (Wrote-Apart regular P (λ k. cut_slash k ≡ none) (λ j k h i a b same. same) p.root_files
          blobs files_of v.roots v.plain)
        (Wrote-Apart dir Q (Free b'/') (λ j k h i a b same. dir_key_inj j k a b same) p.subdirs
          trees dirs_of v.dirs (Has-All _ p.subdirs (λ e i. (All-Has _ e p.subdirs v.names i).0)))
        file_not_dir

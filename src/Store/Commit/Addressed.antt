-- ===== src/Store/Commit/Addressed.antt =====
-- buildTree where objects have the hash of their encoding: the entries and the object that it writes.
use git_simulator.Base.{
  String, ℕ, zero, suc, ◌≡◌, ◌∙◌, sym, ap, subst, List, [], ◌∷◌, ◌++◌, string_eq,
}
use git_simulator.Core.Errors.{ok, ok_inj}
use git_simulator.Core.Exec.{Exec, lift, bind-done}
use git_simulator.Core.Content.{Files}
use git_simulator.Store.Git.{Git, Object, blob, tree, TreeEntry, regular, dir}
use git_simulator.Store.Commit.{
  sort_entries, write_object, write_files, write_dirs, build_tree, part_files, no_parts,
}
use git_simulator.Store.Commit.Wrote.{Wrote, wrote_none, Wrote-step}
use git_simulator.Store.Commit.Same.{parted}

-- What go-git documents of its storage: objects have the hash of their encoding.
pub record Addressed (g : Git) : Type 0 where
  pub digest : g.Encoded → g.Hash
  pub set_encoded_object-digest :
      (e : g.Encoded) (s : g.State) (h : g.Hash)
      → (g.set_encoded_object e s).0 ≡ ok h
      → h ≡ digest e

-- The action has made this hash in some storage.
abbrev pub IsMade : {S A : Type 0} → Exec S A → A → Type 0
IsMade {S} act h = (s : S) × (t : S) × (act s ≡ (ok h, t))

module _ (g : Git) (addressed : Addressed g) where
  open g use {Hash, State}

  write_object-digest :
      (o : Object Hash) (h : Hash)
      → IsMade (write_object g o) h
      → (e : g.Encoded) × (g.encode o ≡ ok e) × (h ≡ addressed.digest e)
  unfolding write_object
  write_object-digest o h (s, t, done) =
      let (e, u, encoded, stored) = bind-done (lift (g.encode o)) g.set_encoded_object s t h done in
      (e, ap (λ x. x.0) encoded, addressed.set_encoded_object-digest e u h (ap (λ x. x.0) stored))

  -- An object has one hash, in whatever storage it is written.
  pub write_object_unique :
      (o : Object Hash) (h h' : Hash)
      → IsMade (write_object g o) h
      → IsMade (write_object g o) h'
      → h ≡ h'
  write_object_unique o h h' made made' =
      let (e, encoded, is) = write_object-digest o h made in
      let (e', encoded', is') = write_object-digest o h' made' in
      is ∙ ap addressed.digest (ok_inj (sym encoded ∙ encoded')) ∙ sym is'

  abbrev pub MadeBlob : Hash → List ℕ → Type 0
  MadeBlob h content = IsMade (write_object g (blob content)) h

  abbrev pub MadeTree : ℕ → Hash → Files → Type 0
  MadeTree n h files = IsMade (build_tree g n files) h

  write_files-Made :
      (files : Files) (s t : State) (es : List (TreeEntry Hash))
      → write_files g files s ≡ (ok es, t)
      → Wrote regular MadeBlob files es
  unfolding write_files
  write_files-Made [] s t es done =
      subst (Wrote regular MadeBlob []) (ok_inj (ap (λ x. x.0) done)) wrote_none
  write_files-Made ((n, content) ∷ files) s t es done =
      let (h, u, first, rest) = bind-done (write_object g (blob content)) _ s t es done in
      let (es', u', others, last) = bind-done (write_files g files) _ u t es rest in
      Wrote-step regular (λ _. MadeBlob) n content h files es es' u' t (s, u, first)
        (write_files-Made files u u' es' others) last

  write_dirs-Made :
      (n : ℕ) (dirs : List (String × Files)) (s t : State) (es : List (TreeEntry Hash))
      → write_dirs g (build_tree g n) dirs s ≡ (ok es, t)
      → Wrote dir (MadeTree n) dirs es
  unfolding write_dirs
  write_dirs-Made n [] s t es done =
      subst (Wrote dir (MadeTree n) []) (ok_inj (ap (λ x. x.0) done)) wrote_none
  write_dirs-Made n ((d, files) ∷ dirs) s t es done =
      let (h, u, first, rest) = bind-done (build_tree g n files) _ s t es done in
      let (es', u', others, last) = bind-done (write_dirs g (build_tree g n) dirs) _ u t es rest in
      Wrote-step dir (λ _. MadeTree n) d files h dirs es es' u' t (s, u, first)
        (write_dirs-Made n dirs u u' es' others) last

  -- The entries of the two loops of buildTree, and the hash of the tree with them sorted.
  pub record MadeOf (n : ℕ) (files : Files) (h : Hash) : Type 0 where
    pub blobs : List (TreeEntry Hash)
    pub trees : List (TreeEntry Hash)
    pub files_of : Wrote regular MadeBlob (parted files).root_files blobs
    pub dirs_of : Wrote dir (MadeTree n) (parted files).subdirs trees
    pub whole : IsMade (write_object g (tree (sort_entries (blobs ++ trees)))) h

  pub build_tree-MadeOf :
      (n : ℕ) (files : Files) (h : Hash) → MadeTree (suc n) h files → MadeOf n files h
  unfolding build_tree
  build_tree-MadeOf n files h (s, t, done) =
      let p = part_files files no_parts in
      let (blobs, u, first, rest) = bind-done (write_files g p.root_files) _ s t h done in
      let (trees, w, second, last) =
        bind-done (write_dirs g (build_tree g n) p.subdirs) _ u t h rest in
      record {
        blobs = blobs;
        trees = trees;
        files_of = write_files-Made p.root_files s u blobs first;
        dirs_of = write_dirs-Made n p.subdirs u w trees second;
        whole = (w, t, last);
      }

  pub no_fuel : (files : Files) (h : Hash) → MadeTree zero h files → ⊥
  unfolding build_tree
  no_fuel files h (s, t, done) = cc

-- ===== src/Store/Commit/Trees.antt =====
-- buildTree writes the tree of the files that it is given.
use Prim.Native.String as Text
use git_simulator.Base.{
  String, ℕ, zero, suc, ◌<>◌, ◌≡◌, ◌⊎◌, inl, inr, ap, sym, ◌∙◌, subst, Option-cases, none, some,
  List, ◌++◌, Has, string_eq, lookup, lookup-Has, lookup-nil, Distinct, Has-append, Has-lookup,
  All-lookup,
}
use git_simulator.Core.Errors.{ok}
use git_simulator.Core.Exec.{bind-done}
use git_simulator.Core.Content.{Files}
use git_simulator.Store.Git.{Git, blob, tree, TreeEntry, regular, dir}
use git_simulator.Store.Objects.{ObjectLaws, Grew}
use git_simulator.Store.Commit.{
  write_object, write_files, write_dirs, build_tree, sort_entries, Parts, part_files, no_parts,
  cut_slash,
}
use git_simulator.Store.Commit.Sorted.{sort_entries-Has}
use git_simulator.Store.Commit.Slash.{Free, cut_slash-append, cut_slash-joined}
use git_simulator.Store.Commit.Filed.{filed, part_files-filed}
use git_simulator.Store.Commit.Parted.{IsParted, part_files-IsParted, last_content-lookup}
use git_simulator.Store.Commit.Grows.{write_object-Grows, write_dirs-Grows, build_tree-Grows}
use git_simulator.Store.Commit.Wrote.{entry, Wrote, Wrote-map, entry_there, key_of}
use git_simulator.Store.Commit.Contents.{
  At, file, sub, TreeOf, write_object-stored, IsBlob, grew-done, write_files-Wrote,
  write_dirs-Wrote,
}

module _ (g : Git) (laws : ObjectLaws g) where
  open g use {Hash, State}

  -- A tree object whose entries are those of the two loops.
  module _ (p : Parts) (v : IsParted p) (blobs trees : List (TreeEntry Hash)) (s : State) (h : Hash)
      (files_of : Wrote regular (IsBlob g laws s) p.root_files blobs)
      (dirs_of : Wrote dir (TreeOf g laws s) p.subdirs trees)
      (stored : laws.object s h ≡ some (tree (sort_entries (blobs ++ trees)))) (s' : State)
      (later : Grew g laws s s') where
    listed :
        (es : List (TreeEntry Hash)) (x : TreeEntry Hash)
        → laws.object s' h ≡ some (tree es)
        → Has x es
        → Has x blobs ⊎ Has x trees
    listed es x found i =
        let both : some (tree es) ≡ some (tree (sort_entries (blobs ++ trees))) =
          sym found ∙ later h _ stored in
        let same : es ≡ sort_entries (blobs ++ trees) = cc in
        (Has-append x blobs trees).0
          ((sort_entries-Has x (blobs ++ trees)).0 (subst (Has x) same i))

    filed_file :
        (name : String) (b : Hash) (content : List ℕ)
        → Has (entry regular name b) blobs ⊎ Has (entry regular name b) trees
        → laws.object s' b ≡ some (blob content)
        → filed name (cut_slash name) p ≡ some content
    filed_file name b content (inl i) here =
        let (c, _, at, is) = key_of regular _ _ _ files_of _ i in
        let found = Has-lookup name c p.root_files v.roots at in
        let plain = All-lookup (λ e. cut_slash e.0 ≡ none) name c p.root_files found v.plain in
        let both : some (blob c) ≡ some (blob content) = sym (later b _ is) ∙ here in
        let same : c ≡ content = cc in rw plain (found ∙ ap some same)
    filed_file name b content (inr i) here =
        let (c, same, _, _) = key_of dir _ _ _ dirs_of _ i in
        let modes : regular ≡ dir = ap (λ x. x.mode) same in absurd (cc)

    filed_sub :
        (d rest : String) (t : Hash) (content : List ℕ)
        → Has (entry dir d t) blobs ⊎ Has (entry dir d t) trees
        → At g laws s' t rest content
        → filed (d <> Text.◌∷◌ "/" rest) (cut_slash (d <> Text.◌∷◌ "/" rest)) p ≡ some content
    filed_sub d rest t content (inl i) below =
        let (c, same, _, _) = key_of regular _ _ _ files_of _ i in
        let modes : dir ≡ regular = ap (λ x. x.mode) same in absurd (cc)
    filed_sub d rest t content (inr i) below =
        let (fs, _, at, is) = key_of dir _ _ _ dirs_of _ i in
        let found = Has-lookup d fs p.subdirs v.dirs at in
        let (free, unique) =
          All-lookup (λ e. Free b'/' e.0 × Distinct e.1) d fs p.subdirs found v.names in
        rw (cut_slash-append d rest free, found)
          (sym (last_content-lookup rest fs unique) ∙ (is s' later rest content).0 below)

    filed-At :
        (path : String) (content : List ℕ)
        → At g laws s' h path content
        → filed path (cut_slash path) p ≡ some content
    filed-At path content (file {b = b} {es = es} here i is) =
        filed_file path b content (listed es _ here i) is
    filed-At path content (sub {t = t} {es = es} d rest here i cut below) =
        subst (λ q. filed q (cut_slash q) p ≡ some content) (sym cut)
          (filed_sub d rest t content (listed es _ here i) below)

    entry_of :
        (x : TreeEntry Hash) → Has x blobs ⊎ Has x trees → Has x (sort_entries (blobs ++ trees))
    entry_of x i = (sort_entries-Has x (blobs ++ trees)).1 ((Has-append x blobs trees).1 i)

    At-filed :
        (path : String) (content : List ℕ)
        → filed path (cut_slash path) p ≡ some content
        → At g laws s' h path content
    At-filed path content found = elim (Option-cases (cut_slash path)) [
      | inl plain ↦
          let (b, i, is) =
            entry_there regular _ _ _ files_of path content
              (lookup-Has path content p.root_files (rw plain at found)) in
          file (later h _ stored) (entry_of _ (inl i)) (later b _ is)
      | inr ((d, rest), cut) ↦ elim (Option-cases (lookup d p.subdirs)) [
        | inl missing ↦
            let nothing = sym (lookup-nil rest) ∙ rw (cut, missing) at found in absurd (cc)
        | inr (fs, there) ↦
            let (t, i, is) = entry_there dir _ _ _ dirs_of d fs (lookup-Has d fs p.subdirs there) in
            let unique =
              (All-lookup (λ e. Free b'/' e.0 × Distinct e.1) d fs p.subdirs there v.names).1 in
            let given : lookup rest fs ≡ some content = rw (cut, there) at found in
            let below = (is s' later rest content).1 (last_content-lookup rest fs unique ∙ given) in
            sub d rest (later h _ stored) (entry_of _ (inr i)) (cut_slash-joined path d rest cut)
              below
      ]
    ]

  -- What buildTree returns is the tree of exactly the files that it was given.
  pub build_tree-TreeOf :
      (fuel : ℕ) (files : Files) (s t : State) (h : Hash)
      → build_tree g fuel files s ≡ (ok h, t)
      → TreeOf g laws t h files
  unfolding build_tree
  build_tree-TreeOf zero files s t h done = absurd (cc)
  build_tree-TreeOf (suc fuel) files s t h done =
      let p = part_files files no_parts in
      let (blobs, u, first, rest) = bind-done (write_files g p.root_files) _ s t h done in
      let (trees, w, second, last) =
        bind-done (write_dirs g (build_tree g fuel) p.subdirs) _ u t h rest in
      let grows =
        write_dirs-Grows g laws (build_tree g fuel) (build_tree-Grows g laws fuel) p.subdirs in
      let u_w =
        grew-done g laws (write_dirs g (build_tree g fuel) p.subdirs) u w trees grows second in
      let node = tree (sort_entries (blobs ++ trees)) in
      let w_t =
        grew-done g laws (write_object g node) w t h (write_object-Grows g laws node) last in
      let files_of =
        Wrote-map regular (IsBlob g laws u) (IsBlob g laws t) p.root_files blobs
          (λ b c is. w_t b _ (u_w b _ is))
          (write_files-Wrote g laws p.root_files s u blobs first) in
      let dirs_of =
        Wrote-map dir (TreeOf g laws w) (TreeOf g laws t) p.subdirs trees
          (λ b fs is s' later. is s' (λ i o it. later i o (w_t i o it)))
          (write_dirs-Wrote g laws (build_tree g fuel) (build_tree-Grows g laws fuel)
            (build_tree-TreeOf fuel) p.subdirs u w trees second) in
      let stored = write_object-stored g laws node w t h last in
      λ s' later path content.
        let v = part_files-IsParted files in
        let same = part_files-filed files path in
        (
          λ at.
              sym same
              ∙ filed-At p v blobs trees t h files_of dirs_of stored s' later path content at,
          λ given.
              At-filed p v blobs trees t h files_of dirs_of stored s' later path content
                (same ∙ given),
        )

-- ===== src/Store/Commit/Contents.antt =====
-- What a git client finds under a tree: a path leads through the trees to a blob.
use Prim.Native.String as Text
use git_simulator.Base.{
  String, ℕ, ◌<>◌, ◌≡◌, ◌↔◌, ap, sym, ◌∙◌, none, subst, some, List, [], ◌∷◌, Has,
}
use git_simulator.Core.Errors.{ok, ok_inj}
use git_simulator.Core.Exec.{Exec, lift, bind-done}
use git_simulator.Core.Content.{Files}
use git_simulator.Store.Git.{Git, Object, blob, tree, TreeEntry, regular, dir}
use git_simulator.Store.Objects.{ObjectLaws, Grew, Grows, as_read}
use git_simulator.Store.Commit.{write_object, write_files, write_dirs}
use git_simulator.Store.Commit.Wrote.{entry, Wrote, wrote_none, Wrote-step}
use git_simulator.Store.Commit.Filed.{last_content}
use git_simulator.Store.Commit.Grows.{write_files-Grows, write_dirs-Grows}

module _ (g : Git) (laws : ObjectLaws g) where
  open g use {Hash, State}

  -- The file at a path below a tree.
  pub data At (s : State) : Hash → String → List ℕ → Type 0 where
    file :
        {h b : Hash} {name : String} {content : List ℕ} {es : List (TreeEntry Hash)}
        → laws.object s h ≡ some (tree es)
        → Has (entry regular name b) es
        → laws.object s b ≡ some (blob content)
        → At s h name content
    sub :
        {h t : Hash} {path : String} {content : List ℕ} {es : List (TreeEntry Hash)}
        (d rest : String)
        → laws.object s h ≡ some (tree es)
        → Has (entry dir d t) es
        → path ≡ d <> Text.◌∷◌ "/" rest
        → At s t rest content
        → At s h path content

  -- In this storage and in any later one, the tree has the given files and no others.
  abbrev pub TreeOf : State → Hash → Files → Type 0
  TreeOf s h files =
      (s' : State)
      → Grew g laws s s'
      → (path : String) (content : List ℕ)
      → At s' h path content ↔ (last_content path files none ≡ some content)

  pub write_object-stored :
      (o : Object Hash) (s t : State) (h : Hash)
      → write_object g o s ≡ (ok h, t)
      → laws.object t h ≡ some (as_read laws.rounded o)
  unfolding write_object
  write_object-stored o s t h done =
      let (e, u, encoded, stored) = bind-done (lift (g.encode o)) g.set_encoded_object s t h done in
      let law =
        laws.object-set_encoded_object o e u h (ap (λ x. x.0) encoded) (ap (λ x. x.0) stored) in
      sym (ap (λ x. laws.object x.1 h) stored) ∙ law

  pub grew-done :
      {A : Type 0} (act : Exec State A) (s t : State) (a : A)
      → Grows g laws act
      → act s ≡ (ok a, t)
      → Grew g laws s t
  grew-done act s t a grows done = subst (Grew g laws s) (ap (λ x. x.1) done) (grows.at s)

  abbrev pub IsBlob : State → Hash → List ℕ → Type 0
  IsBlob s h content = laws.object s h ≡ some (blob content)

  pub write_files-Wrote :
      (files : Files) (s t : State) (es : List (TreeEntry Hash))
      → write_files g files s ≡ (ok es, t)
      → Wrote regular (IsBlob t) files es
  unfolding write_files
  write_files-Wrote [] s t es done =
      subst (Wrote regular (IsBlob t) []) (ok_inj (ap (λ x. x.0) done)) wrote_none
  write_files-Wrote ((n, content) ∷ files) s t es done =
      let (h, u, first, rest) = bind-done (write_object g (blob content)) _ s t es done in
      let (es', u', others, last) = bind-done (write_files g files) _ u t es rest in
      let stored = write_object-stored (blob content) s u h first in
      Wrote-step regular IsBlob n content h files es es' u' t
        (grew-done (write_files g files) u u' es' (write_files-Grows g laws files) others h _
          stored)
        (write_files-Wrote files u u' es' others) last

  pub write_dirs-Wrote :
      (build : Files → Exec State Hash)
      → ((files : Files) → Grows g laws (build files))
      → ((files : Files) (s t : State) (h : Hash) → build files s ≡ (ok h, t) → TreeOf t h files)
      → (dirs : List (String × Files)) (s t : State) (es : List (TreeEntry Hash))
      → write_dirs g build dirs s ≡ (ok es, t)
      → Wrote dir (TreeOf t) dirs es
  unfolding write_dirs
  write_dirs-Wrote build grows built [] s t es done =
      subst (Wrote dir (TreeOf t) []) (ok_inj (ap (λ x. x.0) done)) wrote_none
  write_dirs-Wrote build grows built ((n, files) ∷ dirs) s t es done =
      let (h, u, first, rest) = bind-done (build files) _ s t es done in
      let (es', u', others, last) = bind-done (write_dirs g build dirs) _ u t es rest in
      let grew =
        grew-done (write_dirs g build dirs) u u' es' (write_dirs-Grows g laws build grows dirs)
          others in
      Wrote-step dir TreeOf n files h dirs es es' u' t
        (λ s' later. built files s u h first s' (λ i o it. later i o (grew i o it)))
        (write_dirs-Wrote build grows built dirs u u' es' others) last

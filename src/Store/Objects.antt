-- ===== src/Store/Objects.antt =====
-- The objects of a storage as git clients read them: what go-git, a module outside the repository,
-- documents of reading back what `SetEncodedObject` has stored.
use git_simulator.Base.{String, ◌≡◌, Option, some}
use git_simulator.Core.Errors.{Error, Result, ok, err}
use git_simulator.Core.Exec.{Exec, pure, lift, fail, continue, ◌>>=◌}
use git_simulator.Store.Git.{Git, Object, Target, Signature, blob, tree, commit, tag}

-- A decoded object: the time of a signature is stored in whole seconds.
abbrev pub as_read : {Hash : Type 0} → (Signature → Signature) → Object Hash → Object Hash
as_read rounded (blob content) = blob content
as_read rounded (tree entries) = tree entries
as_read rounded (commit root parents author committer msg) =
    commit root parents (rounded author) (rounded committer) msg
as_read rounded (tag name tagger msg target) = tag name (rounded tagger) msg target

-- An object is read back under the hash that it was stored with, and stays there.
pub record ObjectLaws (g : Git) : Type 0 where
  pub rounded : Signature → Signature
  pub object : g.State → g.Hash → Option (Object g.Hash)
  pub object-set_encoded_object :
      (o : Object g.Hash) (e : g.Encoded) (s : g.State) (h : g.Hash)
      → g.encode o ≡ ok e
      → (g.set_encoded_object e s).0 ≡ ok h
      → object (g.set_encoded_object e s).1 h ≡ some (as_read rounded o)
  pub object_kept :
      (e : g.Encoded) (s : g.State) (h : g.Hash) (o : Object g.Hash)
      → object s h ≡ some o
      → object (g.set_encoded_object e s).1 h ≡ some o
  pub object-set_reference :
      (n : String) (t : Target g.Hash) (s : g.State) (h : g.Hash)
      → object (g.set_reference n t s).1 h ≡ object s h

module _ (g : Git) (laws : ObjectLaws g) where
  -- Every object of the one storage is in the other.
  abbrev pub Grew : g.State → g.State → Type 0
  Grew s s' =
      (h : g.Hash) (o : Object g.Hash) → laws.object s h ≡ some o → laws.object s' h ≡ some o

-- An action that takes no object away, whether it succeeds or fails.
pub record Grows (g : Git) (laws : ObjectLaws g) {A : Type 0} (m : Exec g.State A) : Type 0 where
  pub at : (s : g.State) → Grew g laws s (m s).1

module _ {g : Git} {laws : ObjectLaws g} where
  pub Grows-pure : {A : Type 0} (a : A) → Grows g laws (pure a)
  Grows-pure a = record { at = λ s h o there. there }

  pub Grows-lift : {A : Type 0} (r : Result A) → Grows g laws (lift r)
  Grows-lift r = record { at = λ s h o there. there }

  pub Grows-fail : {A : Type 0} (e : Error) → Grows g laws (fail {A = A} e)
  Grows-fail e = record { at = λ s h o there. there }

  pub Grows-bind :
      {A B : Type 0} (m : Exec g.State A) (f : A → Exec g.State B)
      → Grows g laws m
      → ((a : A) → Grows g laws (f a))
      → Grows g laws (m >>= f)
  Grows-bind {A} {B} m f km kf = record {
    at = λ s h o there. continued (m s).0 (m s).1 h o (km.at s h o there);
  }
    where
      continued : (r : Result A) (s : g.State) → Grew g laws s (continue r f s).1
      continued (ok a) s = (kf a).at s
      continued (err e) s = λ h o there. there

pub ruleset grows_rules = (Grows-pure, Grows-lift, Grows-fail, Grows-bind)

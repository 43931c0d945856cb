-- ===== src/Store/Git.antt =====
-- What the store uses of go-git (a module outside the repository): object hashes, encoding, and a
-- storage of objects and references. It is a parameter of the model.
use git_simulator.Base.{ℕ, String, List, Option, some, false, ◌≡◌, ◌==◌, if◌then◌else◌, ℤ}
use git_simulator.Core.Errors.{Result, ok}
use git_simulator.Core.Exec.{Exec}

-- plumbing.Reference: a hash, or the name of another reference.
pub data Target (Hash : Type 0) : Type 0 where
  hash : Hash → Target Hash
  symbolic : String → Target Hash

-- filemode.Regular and filemode.Dir, the two modes that the store writes.
pub data Mode : Type 0 where
  regular dir : Mode

-- object.TreeEntry
pub record TreeEntry (Hash : Type 0) : Type 0 where
  pub name : String
  pub mode : Mode
  pub hash : Hash

-- object.Signature
pub record Signature : Type 0 where
  pub name : String
  pub email : String
  pub when : ℤ

-- What the store hands to `Encode`: a blob's bytes, object.Tree, object.Commit, object.Tag.
pub data Object (Hash : Type 0) : Type 0 where
  blob : List ℕ → Object Hash
  tree : List (TreeEntry Hash) → Object Hash
  commit : Hash → List Hash → Signature → Signature → String → Object Hash
  tag : String → Signature → String → Hash → Object Hash

pub record Git : Type 1 where
  pub Hash : Type 0
  pub State : Type 0
  pub Encoded : Type 0
  -- plumbing.NewHash, Hash.String
  pub new_hash : String → Hash
  pub hash_string : Hash → String
  -- memory.NewStorage
  pub new_storage : State
  -- the object's `Encode`, or the writer of a blob
  pub encode : Object Hash → Result Encoded
  -- storer.SetEncodedObject, storer.SetReference
  pub set_encoded_object : Encoded → Exec State Hash
  pub set_reference : String → Target Hash → Exec State (Unit {0})
  -- storer.Reference, storer.IterReferences
  pub reference : State → String → Option (Target Hash)
  pub iter_references : State → Result (List (String × Target Hash))

-- The documented behaviour that theorems rely on: a hash is read back from its text, which is never
-- empty; a written reference is found under its name, and nothing else changes a reference.
pub record GitLaws (g : Git) : Type 0 where
  pub new_hash-hash_string : (h : g.Hash) → g.new_hash (g.hash_string h) ≡ h
  pub hash_string_nonempty : (h : g.Hash) → (g.hash_string h == "") ≡ false
  pub set_reference_ok :
      (n : String) (t : Target g.Hash) (s : g.State) → (g.set_reference n t s).0 ≡ ok tt
  pub reference-set_reference :
      (n m : String) (t : Target g.Hash) (s : g.State)
      → g.reference (g.set_reference n t s).1 m ≡ (if n == m then some t else g.reference s m)
  pub reference-set_encoded_object :
      (o : g.Encoded) (s : g.State) (m : String)
      → g.reference (g.set_encoded_object o s).1 m ≡ g.reference s m

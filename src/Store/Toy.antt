-- ===== src/Store/Toy.antt =====
-- A storage in which the documented behaviour of `GitLaws` holds: objects are numbered as they are
-- written, and the references are a map. The tests and the witnesses run on it.
use Prim.Native.String as Text
use git_simulator.Base.{
  ℕ, zero, suc, ◌+◌, ◌*◌, String, ◌≡◌, refl, ap, false, ◌==◌, str_eq_ne, List, [], ◌∷◌, lookup,
  insert, lookup-insert, string_eq, ◌≢◌, arith, Option, none, some, nat_eq, not, if◌then◌else◌, ◌<◌,
  sym, ◌∙◌, subst,
}
use git_simulator.Core.Errors.{ok, ok_inj}
use git_simulator.Store.Git.{Git, GitLaws, Target, Object, TreeEntry, blob, tree, commit, tag}
use git_simulator.Store.Commit.Addressed.{Addressed}
use git_simulator.Store.Commit.Total.{EncodeLaws}
use git_simulator.Store.Objects.{ObjectLaws, as_read}

pub record ToyState : Type 0 where
  pub objects : List (Object ℕ)
  pub refs : List (String × Target ℕ)

-- The hash of the n-th object is written with n + 1 letters.
abbrev pub hash_text : ℕ → String
hash_text zero = "a"
hash_text (suc n) = Text.◌∷◌ "a" (hash_text n)

abbrev pub text_size : String → ℕ
text_size Text.[] = 0
text_size (Text.◌∷◌ _ s) = suc (text_size s)

abbrev pub pred_size : String → ℕ
pred_size Text.[] = 0
pred_size (Text.◌∷◌ _ s) = text_size s

text_size-hash_text : (n : ℕ) → text_size (hash_text n) ≡ suc n
text_size-hash_text zero = refl
text_size-hash_text (suc n) = ap suc (text_size-hash_text n)

abbrev pub count {ℓ} : {A : Type ℓ} → List A → ℕ
count [] = 0
count (_ ∷ xs) = suc (count xs)

abbrev pub toy : Git
toy = record {
  Hash = ℕ;
  State = ToyState;
  Encoded = Object ℕ;
  new_hash = pred_size;
  hash_string = hash_text;
  new_storage = record { objects = []; refs = [] };
  encode = ok;
  set_encoded_object = λ o s. (ok (count s.objects), record s { objects = o ∷ s.objects });
  set_reference = λ n t s. (ok tt, record s { refs = insert n t s.refs });
  reference = λ s n. lookup n s.refs;
  iter_references = λ s. ok s.refs;
}

hash_text-nonempty : (n : ℕ) → (hash_text n == "") ≡ false
hash_text-nonempty n = str_eq_ne (hash_text n) "" (λ e. nonzero n (ap text_size e))
  where
    nonzero : (n : ℕ) → text_size (hash_text n) ≢ 0
    nonzero zero e = omega arith
    nonzero (suc n) e = omega arith

pred_size-hash_text : (n : ℕ) → pred_size (hash_text n) ≡ n
pred_size-hash_text zero = refl
pred_size-hash_text (suc n) = text_size-hash_text n

pub toy_laws : GitLaws toy
toy_laws = record {
  new_hash-hash_string = pred_size-hash_text;
  hash_string_nonempty = hash_text-nonempty;
  set_reference_ok = λ n t s. refl;
  reference-set_reference = λ n m t s. lookup-insert n m t s.refs;
  reference-set_encoded_object = λ o s m. refl;
}

-- The object with a number: the list has the last one first.
abbrev find : ℕ → List (Object ℕ) → Option (Object ℕ)
find h [] = none
find h (o ∷ os) = if nat_eq h (count os) then some o else find h os

find-lt : (h : ℕ) (o : Object ℕ) (os : List (Object ℕ)) → find h os ≡ some o → h < count os
find-lt h o [] e = absurd (cc)
find-lt h o (x ∷ xs) e = ground (arith, find-lt h o xs)

find-cons :
    (e : Object ℕ) (os : List (Object ℕ)) (h : ℕ) (o : Object ℕ)
    → find h os ≡ some o
    → find h (e ∷ os) ≡ some o
find-cons e os h o there = ground (arith, find-lt h o os there)

find-count : (o : Object ℕ) (os : List (Object ℕ)) → find (count os) (o ∷ os) ≡ some o
find-count o os = ground arith

as_read_same : (o : Object ℕ) → as_read (λ s. s) o ≡ o
as_read_same (blob content) = refl
as_read_same (tree es) = refl
as_read_same (commit root parents author committer msg) = refl
as_read_same (tag name tagger msg target) = refl

read_back :
    (o e : Object ℕ) (s : ToyState) (h : ℕ)
    → ok o ≡ ok e
    → ok (count s.objects) ≡ ok h
    → find h (e ∷ s.objects) ≡ some (as_read (λ s. s) o)
read_back o e s h encoded stored =
    let number : count s.objects ≡ h = ok_inj stored in
    let object : o ≡ e = ok_inj encoded in
    subst (λ i. find i (e ∷ s.objects) ≡ some (as_read (λ s. s) o)) number
      (find-count e s.objects ∙ ap some (sym object ∙ sym (as_read_same o)))

pub toy_objects : ObjectLaws toy
toy_objects = record {
  rounded = λ s. s;
  object = λ s h. find h s.objects;
  object-set_encoded_object = read_back;
  object_kept = λ e s h o there. find-cons e s.objects h o there;
  object-set_reference = λ n t s h. refl;
}

abbrev pub toy_encodes : EncodeLaws toy
toy_encodes = record {
  is_name = λ name. not (name == "");
  encode_blob = λ content. (blob content, refl);
  encode_tree = λ es o named. (tree es, refl);
  encode_commit =
      λ root parents author committer msg. (commit root parents author committer msg, refl);
  set_encoded_object_ok = λ e s. (count s.objects, refl);
}

-- A storage in which the hash of an object is computed from it.
abbrev pub weigh_entries : List (TreeEntry ℕ) → ℕ
weigh_entries [] = 0
weigh_entries (x ∷ xs) = text_size x.name + x.hash + 2 * weigh_entries xs

abbrev pub weigh : Object ℕ → ℕ
weigh (blob content) = suc (count content)
weigh (tree es) = weigh_entries es
weigh (commit root parents author committer msg) = root + count parents
weigh (tag name tagger msg target) = target + text_size name

abbrev pub hashing_toy : Git
hashing_toy = record toy {
  set_encoded_object = λ o s. (ok (weigh o), record s { objects = o ∷ s.objects });
}

pub toy_addressed : Addressed hashing_toy
toy_addressed = record {
  digest = weigh;
  set_encoded_object-digest = λ e s h stored. sym (ok_inj stored);
}

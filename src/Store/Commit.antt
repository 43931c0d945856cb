-- ===== src/Store/Commit.antt =====
-- pkg/store/commit.go: the blobs, trees and commit of one push.
pub mod Effects
pub mod Fuel
pub mod Grows
pub mod Wrote
pub mod Contents
pub mod Parted
pub mod Trees
pub mod Commits
pub mod TextOrder
pub mod Sorted
pub mod Unique
pub mod Same
pub mod Apart
pub mod Addressed
pub mod Canonical
pub mod Total
pub mod Built
pub mod Slash
pub mod Filed
use mathlib.Core.Option
use Prim.Native.Char.{code}
use Prim.Native.String as Text
use Prim.Native.String.{String, compare}
use Prim.Native.Nat.{Ordering}
use git_simulator.Base.{
  ℕ, zero, suc, ◌+◌, Bool, true, false, ◌==◌, ◌<>◌, nat_eq, if◌then◌else◌, Option, none, some, List,
  [], ◌∷◌, ◌++◌, ℤ, string_eq, lookup, insert,
}
use git_simulator.Core.Errors.{Error, message, wrap}
use git_simulator.Core.Exec.{Exec, pure, fail, lift, ◌>>=◌}
use git_simulator.Core.Content.{Files}
use git_simulator.Store.Git.{
  Git, Mode, regular, dir, TreeEntry, Signature, Object, blob, tree, commit,
}

-- strings.Index(path, "/") with the two slices round it
unfoldable pub cut_slash : String → Option (String × String)
cut_slash Text.[] = none
cut_slash (Text.◌∷◌ c s) =
    let longer = Option.map (λ (d, rest). (Text.◌∷◌ c d, rest)) (cut_slash s) in
    if nat_eq (code c) b'/' then some ("", s) else longer

abbrev pub or_empty : Option Files → Files
or_empty none = []
or_empty (some m) = m

-- One round of the loop that parts the root files from the directories.
pub record Parts : Type 0 where
  pub root_files : Files
  pub subdirs : List (String × Files)

add_path : String → List ℕ → Option (String × String) → Parts → Parts
unfolding insert lookup
add_path path content none p = record p { root_files = insert path content p.root_files }
add_path path content (some (d, rest)) p = record p {
  subdirs = insert d (insert rest content (or_empty (lookup d p.subdirs))) p.subdirs;
}

pub part_files : Files → Parts → Parts
unfolding add_path cut_slash
part_files [] p = p
part_files ((path, content) ∷ files) p = part_files files (add_path path content (cut_slash path) p)

abbrev pub no_parts : Parts
no_parts = record { root_files = []; subdirs = [] }

-- ni < nj on Go strings; git sorts a directory as if its name had a trailing "/".
abbrev pub str_lt : String → String → Bool
str_lt s t = elim (compare s t) [ Ordering.lt ↦ true | _ ↦ false ]

abbrev pub slash_of : Mode → String → String
slash_of regular n = n
slash_of dir n = n <> "/"

module _ {Hash : Type 0} where
  abbrev pub sort_key : TreeEntry Hash → String
  sort_key t = slash_of t.mode t.name

  insert_entry : TreeEntry Hash → List (TreeEntry Hash) → List (TreeEntry Hash)
  insert_entry x [] = x ∷ []
  insert_entry x (y ∷ ys) =
      if str_lt (sort_key y) (sort_key x) then y ∷ insert_entry x ys else x ∷ y ∷ ys

  -- sort.Slice(entries, ...)
  pub sort_entries : List (TreeEntry Hash) → List (TreeEntry Hash)
  unfolding insert_entry
  sort_entries [] = []
  sort_entries (x ∷ xs) = insert_entry x (sort_entries xs)

abbrev pub out_of_fuel : Error
out_of_fuel = message "out of fuel" []

-- Every slash that is cut shortens a path, so the longest path bounds the depth.
abbrev pub text_length : String → ℕ
text_length Text.[] = 0
text_length (Text.◌∷◌ _ s) = suc (text_length s)

abbrev pub total_length : Files → ℕ
total_length [] = 0
total_length ((path, _) ∷ files) = text_length path + total_length files

abbrev pub tree_fuel : Files → ℕ
tree_fuel files = suc (total_length files)

abbrev pub signature_at : ℤ → Signature
signature_at when = record { name = "gitsim"; email = "gitsim@example.com"; when = when }

module _ (g : Git) where
  open g use {Hash, State, encode, set_encoded_object}

  unfoldable pub write_object : Object Hash → Exec State Hash
  write_object o = do e ← lift (encode o); set_encoded_object e

  write_blob : List ℕ → Exec State Hash
  unfolding write_object
  write_blob content = write_object (blob content)

  pub write_files : Files → Exec State (List (TreeEntry Hash))
  unfolding write_blob
  write_files [] = pure []
  write_files ((name, content) ∷ files) = do
    h ← write_blob content
    rest ← write_files files
    pure (record { name = name; mode = regular; hash = h } ∷ rest)

  pub write_dirs :
      (Files → Exec State Hash) → List (String × Files) → Exec State (List (TreeEntry Hash))
  write_dirs build [] = pure []
  write_dirs build ((name, files) ∷ dirs) = do
    h ← build files
    rest ← write_dirs build dirs
    pure (record { name = name; mode = dir; hash = h } ∷ rest)

  -- buildTree calls itself on the subdirectories; the fuel bounds how deep they nest.
  unfoldable pub build_tree : ℕ → Files → Exec State Hash
  unfolding write_object write_files write_dirs part_files sort_entries
  build_tree zero files = fail out_of_fuel
  build_tree (suc fuel) files = do
    blobs ← write_files (part_files files no_parts).root_files
    trees ← write_dirs (build_tree fuel) (part_files files no_parts).subdirs
    write_object (tree (sort_entries (blobs ++ trees)))

  abbrev pub parents_of : String → List Hash
  parents_of parent = if parent == "" then [] else g.new_hash parent ∷ []

  -- `buildCommit` from the commit object on
  pub write_commit : String → String → ℤ → Hash → Exec State String
  unfolding write_object
  write_commit parent msg when root = do
    h ← write_object (commit root (parents_of parent) (signature_at when) (signature_at when) msg)
    pure (g.hash_string h)

  unfoldable pub build_commit : String → Files → String → ℤ → Exec State String
  unfolding build_tree write_commit
  build_commit parent files msg when = do
    root ← build_tree (tree_fuel files) files
    write_commit parent msg when root

  -- The call of `buildCommit` in `AddCommit`, with the error that it returns.
  unfoldable pub new_commit : String → Files → String → ℤ → Exec State String
  new_commit parent files msg when s =
      let (h, s') = build_commit parent files msg when s in (wrap "build commit: %w" [] h, s')

-- ===== src/Store/Commit/Parted.antt =====
-- The two maps into which buildTree parts its files are maps, and their keys have no slash.
use git_simulator.Base.{
  String, ℕ, ◌==◌, ◌≡◌, ◌∙◌, refl, arith, inl, inr, eq_iff, if◌then◌else◌, Bool-cases, Option,
  Option-cases, none, some, List, [], ◌∷◌, Has, insert-Has, All, string_eq, lookup, Distinct,
  insert-Distinct, All-insert, All-lookup,
}
use git_simulator.Core.Content.{Files}
use git_simulator.Store.Commit.{cut_slash, Parts, add_path, part_files, no_parts, or_empty}
use git_simulator.Store.Commit.Slash.{Free, cut_slash-Free}
use git_simulator.Store.Commit.Filed.{last_content}

-- Some file is there.
abbrev pub Full : Files → Type 0
Full files = (f : String × List ℕ) × Has f files

pub record IsParted (p : Parts) : Type 0 where
  pub roots : Distinct p.root_files
  pub dirs : Distinct p.subdirs
  pub plain : All (λ e. cut_slash e.0 ≡ none) p.root_files
  pub names : All (λ e. Free b'/' e.0 × Distinct e.1) p.subdirs
  pub full : All (λ e. Full e.1) p.subdirs

add_path-IsParted :
    (path : String) (content : List ℕ) (o : Option (String × String)) (p : Parts)
    → cut_slash path ≡ o
    → IsParted p
    → IsParted (add_path path content o p)
unfolding add_path
add_path-IsParted path content none p cut v = record {
  roots = insert-Distinct path content p.root_files v.roots;
  dirs = v.dirs;
  plain = All-insert (λ e. cut_slash e.0 ≡ none) path content p.root_files cut v.plain;
  names = v.names;
  full = v.full;
}
add_path-IsParted path content (some (d, rest)) p cut v =
    let there : Distinct (or_empty (lookup d p.subdirs)) =
      elim (Option-cases (lookup d p.subdirs)) [
        | inl q ↦ rw q tt
        | inr (m, q) ↦
            rw q ((All-lookup (λ e. Free b'/' e.0 × Distinct e.1) d m p.subdirs q v.names).1)
      ] in
    record {
      roots = v.roots;
      dirs = insert-Distinct d _ p.subdirs v.dirs;
      plain = v.plain;
      names =
          All-insert (λ e. Free b'/' e.0 × Distinct e.1) d _ p.subdirs
            (cut_slash-Free path d rest cut, insert-Distinct rest content _ there) v.names;
      full =
          All-insert (λ e. Full e.1) d _ p.subdirs ((rest, content), insert-Has rest content _)
            v.full;
    }

part_files_from-IsParted : (files : Files) (p : Parts) → IsParted p → IsParted (part_files files p)
unfolding part_files
part_files_from-IsParted [] p v = v
part_files_from-IsParted ((path, content) ∷ files) p v =
    part_files_from-IsParted files _ (add_path-IsParted path content (cut_slash path) p refl v)

pub part_files-IsParted : (files : Files) → IsParted (part_files files no_parts)
part_files-IsParted files =
    part_files_from-IsParted files no_parts
      (record { roots = tt; dirs = tt; plain = tt; names = tt; full = tt })

abbrev or_else : Option (List ℕ) → Option (List ℕ) → Option (List ℕ)
or_else none o = o
or_else (some c) o = some c

last_content-or_else :
    (path : String) (files : Files) (o : Option (List ℕ))
    → Distinct files
    → last_content path files o ≡ or_else (lookup path files) o
unfolding lookup
last_content-or_else path [] o d = refl
last_content-or_else path ((q, content) ∷ files) o d =
    last_content-or_else path files (if q == path then some content else o) d.1
    ∙ (elim (Bool-cases (q == path)) [
      | inl e ↦ ground (arith, eq_iff q path, d.0, e)
      | inr e ↦ rw e refl
    ])

-- In a map the last content given for a path is the one under its key.
pub last_content-lookup :
    (path : String) (files : Files)
    → Distinct files
    → last_content path files none ≡ lookup path files
last_content-lookup path files d =
    last_content-or_else path files none d
    ∙ (elim (Option-cases (lookup path files)) [ inl p ↦ rw p refl | inr (c, p) ↦ rw p refl ])

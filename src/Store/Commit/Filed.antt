-- ===== src/Store/Commit/Filed.antt =====
-- buildTree: how a push's files are parted into the files of a directory and its subdirectories.
use git_simulator.Base.{
  ◌==◌, ℕ, String, Bool-cases, false, if◌then◌else◌, Option, none, some, List, [], ◌∷◌, ◌≡◌, refl,
  sym, ◌∙◌, ap, inl, inr, string_eq, lookup, insert, lookup-insert, some_inj, eq_iff, str_eq_ne,
}
use git_simulator.Core.Content.{Files}
use git_simulator.Store.Commit.Slash.{cut_slash-joined}
use git_simulator.Store.Commit.{cut_slash, Parts, add_path, part_files, no_parts, or_empty}

-- The content that the parts have for a path, by where its first slash is.
abbrev pub filed : String → Option (String × String) → Parts → Option (List ℕ)
filed path none p = lookup path p.root_files
filed path (some (d, rest)) p = lookup rest (or_empty (lookup d p.subdirs))

-- The last content given for a path, `o` if there is none.
abbrev pub last_content : String → Files → Option (List ℕ) → Option (List ℕ)
last_content path [] o = o
last_content path ((q, content) ∷ files) o =
    last_content path files (if q == path then some content else o)

module _ (q path d d' rest rest' : String) (h : cut_slash q ≡ some (d, rest))
    (h' : cut_slash path ≡ some (d', rest')) where
  -- In one directory, two paths are the same when what is left of them is.
  same_rest : d ≡ d' → (q == path) ≡ (rest == rest')
  same_rest same =
      let joined = cut_slash-joined q d rest h in
      let joined' = cut_slash-joined path d' rest' h' in
      elim (Bool-cases (rest == rest')) [
        | inl e ↦
            let same' : rest ≡ rest' = (eq_iff rest rest').0 e in
            let all : q ≡ path = cc in (eq_iff q path).1 all ∙ sym e
        | inr e ↦
            str_eq_ne q path (λ all.
              let cut = some_inj (sym h ∙ ap cut_slash all ∙ h') in
              let same' = (eq_iff rest rest').1 (ap (λ x. x.1) cut) in cc)
            ∙ sym e
      ]

  other_dir : q ≡ path → (d == d') ≡ false → ⊥
  other_dir all e =
      let cut = some_inj (sym h ∙ ap cut_slash all ∙ h') in
      let same = (eq_iff d d').1 (ap (λ x. x.0) cut) in cc

filed-add_path :
    (q path : String) (content : List ℕ) (o o' : Option (String × String)) (p : Parts)
    → cut_slash q ≡ o
    → cut_slash path ≡ o'
    → filed path o' (add_path q content o p) ≡ (if q == path then some content else filed path o' p)
unfolding add_path
filed-add_path q path content none none p h h' = lookup-insert q path content p.root_files
filed-add_path q path content none (some (d, rest)) p h h' =
    rw (str_eq_ne q path (λ e. let c = ap cut_slash e in cc)) refl
filed-add_path q path content (some (d, rest)) none p h h' =
    rw (str_eq_ne q path (λ e. let c = ap cut_slash e in cc)) refl
filed-add_path q path content (some (d, rest)) (some (d', rest')) p h h' =
    elim (Bool-cases (d == d')) [
      | inl e ↦
          let same : d ≡ d' = (eq_iff d d').0 e in
          rw
            (
              lookup-insert d d' (insert rest content (or_empty (lookup d p.subdirs))) p.subdirs,
              e,
              lookup-insert rest rest' content (or_empty (lookup d p.subdirs)),
              same_rest q path d d' rest rest' h h' same,
              same,
            )
            refl
      | inr e ↦
          rw
            (
              lookup-insert d d' (insert rest content (or_empty (lookup d p.subdirs))) p.subdirs,
              e,
              str_eq_ne q path (λ same. absurd (other_dir q path d d' rest rest' h h' same e)),
            )
            refl
    ]

filed-part_files :
    (files : Files) (path : String) (p : Parts)
    → filed path (cut_slash path) (part_files files p)
      ≡ last_content path files (filed path (cut_slash path) p)
unfolding part_files
filed-part_files [] path p = refl
filed-part_files ((q, content) ∷ files) path p =
    filed-part_files files path (add_path q content (cut_slash q) p)
    ∙ ap (last_content path files)
        (filed-add_path q path content (cut_slash q) (cut_slash path) p refl refl)

filed-no_parts : (path : String) (o : Option (String × String)) → filed path o no_parts ≡ none
unfolding lookup
filed-no_parts path none = refl
filed-no_parts path (some (d, rest)) = refl

-- For any files, the parts that buildTree makes of them have, where the first slash of a path says,
-- the last content given for that path, and nothing for a path that is not given.
pub part_files-filed :
    (files : Files) (path : String)
    → filed path (cut_slash path) (part_files files no_parts) ≡ last_content path files none
part_files-filed files path =
    filed-part_files files path no_parts
    ∙ ap (last_content path files) (filed-no_parts path (cut_slash path))

-- ===== src/Store/Commit/Same.antt =====
-- buildTree parts the same map, ranged over in another order, into the same maps.
use Prim.Native.String as Text
use git_simulator.Base.{
  String, ℕ, ◌<>◌, ◌≡◌, ◌∙◌, sym, inl, inr, Option-cases, none, some, List, Has, string_eq, lookup,
  lookup-Has, lookup-nil, Has-lookup, Distinct, All-lookup,
}
use git_simulator.Core.Content.{Files}
use git_simulator.Store.Commit.{Parts, part_files, no_parts, cut_slash, or_empty}
use git_simulator.Store.Commit.Slash.{Free, cut_slash-append}
use git_simulator.Store.Commit.Filed.{filed, part_files-filed}
use git_simulator.Store.Commit.Parted.{Full, part_files-IsParted, last_content-lookup}

-- Two lists are the same map: no key stands twice in either, and they agree on each key.
pub record SameFiles (files files' : Files) : Type 0 where
  pub left : Distinct files
  pub right : Distinct files'
  pub agree : (path : String) → lookup path files ≡ lookup path files'

pub SameFiles-sym : (files files' : Files) → SameFiles files files' → SameFiles files' files
SameFiles-sym files files' m = record {
  left = m.right;
  right = m.left;
  agree = λ path. sym (m.agree path);
}

abbrev pub parted : Files → Parts
parted fs = part_files fs no_parts

module _ (files files' : Files) (m : SameFiles files files') where
  filed-agree :
      (path : String)
      → filed path (cut_slash path) (parted files) ≡ filed path (cut_slash path) (parted files')
  filed-agree path =
      part_files-filed files path
      ∙ last_content-lookup path files m.left
      ∙ m.agree path
      ∙ sym (last_content-lookup path files' m.right)
      ∙ sym (part_files-filed files' path)

  pub same_root :
      (name : String) (content : List ℕ)
      → Has (name, content) (parted files).root_files
      → Has (name, content) (parted files').root_files
  same_root name content i =
      let v = part_files-IsParted files in
      let found = Has-lookup name content (parted files).root_files v.roots i in
      let plain =
        All-lookup (λ e. cut_slash e.0 ≡ none) name content (parted files).root_files found
          v.plain in
      let agree = rw plain at (filed-agree name) in
      lookup-Has name content (parted files').root_files (sym agree ∙ found)

  -- The files of a directory.
  module _ (d : String) (fs : Files) (i : Has (d, fs) (parted files).subdirs) where
    found_dir : lookup d (parted files).subdirs ≡ some fs
    found_dir = Has-lookup d fs _ ((part_files-IsParted files).dirs) i

    dir_facts : Free b'/' d × Distinct fs
    dir_facts =
        All-lookup (λ e. Free b'/' e.0 × Distinct e.1) d fs _ found_dir
          ((part_files-IsParted files).names)

    agree_below :
        (rest : String) → lookup rest fs ≡ lookup rest (or_empty (lookup d (parted files').subdirs))
    agree_below rest =
        let agree = filed-agree (d <> Text.◌∷◌ "/" rest) in
        rw (cut_slash-append d rest dir_facts.0, found_dir) at agree

    pub same_dir : (fs' : Files) × Has (d, fs') (parted files').subdirs × SameFiles fs fs'
    same_dir = elim (Option-cases (lookup d (parted files').subdirs)) [
      | inl missing ↦
          let ((rest, content), there) =
            All-lookup (λ e. Full e.1) d fs _ found_dir ((part_files-IsParted files).full) in
          let some_content = Has-lookup rest content fs dir_facts.1 there in
          let nothing = sym some_content ∙ (rw missing at (agree_below rest)) ∙ lookup-nil rest in
          absurd (cc)
      | inr (fs', found) ↦ (
        fs',
        lookup-Has d fs' _ found,
        record {
          left = dir_facts.1;
          right =
              (All-lookup (λ e. Free b'/' e.0 × Distinct e.1) d fs' _ found
                ((part_files-IsParted files').names)).1;
          agree = λ rest. rw found at (agree_below rest);
        },
      )
    ]

-- ===== src/Core/LocalDir/Laws.antt =====
-- Which files pkg/core/localdir.go gives to a commit.
use git_simulator.Base.{
  ℕ, String, ◌==◌, ◌≡◌, refl, ap, sym, ◌∙◌, ◌⊎◌, inl, inr, Bool-cases, false, Option, none, some,
  List, [], string_eq, lookup, lookup-insert, lookup-insert_self, eq_iff, arith, lookup-nil,
}
use git_simulator.Core.Errors.{Result, ok, err, ok_inj, Result-cases}
use git_simulator.Core.Exec.{Exec, ◌>>◌}
use git_simulator.Core.Content.{Files}
use git_simulator.Core.LocalDir.{
  Node, Entries, file, symlink, dir, unreadable, nil, entry, join, walk_in, walk_entries, collected,
  files_from_fs, unless_git,
}

-- The bytes of a regular file at a path, no part of which is named .git.
mutual
  pub InNode : String → Node → String → List ℕ → Type 0
  InNode at (file (ok data')) path bytes = (at ≡ path) × (data' ≡ bytes)
  InNode at (file (err e)) path bytes = ⊥
  InNode at symlink path bytes = ⊥
  InNode at (dir es) path bytes = InEntries at es path bytes
  InNode at (unreadable e) path bytes = ⊥

  pub InEntries : String → Entries → String → List ℕ → Type 0
  InEntries at nil path bytes = ⊥
  InEntries at (entry name node es) path bytes =
      (((name == ".git") ≡ false) × InNode (join at name) node path bytes)
      ⊎ InEntries at es path bytes

abbrev Before : Files → String → List ℕ → Type 0
Before out path bytes = lookup path out ≡ some bytes

-- An action after which what is in the map was there before it, or satisfies a predicate.
abbrev Adds : (String → List ℕ → Type 0) → Exec Files (Unit {0}) → Type 0
Adds P m =
    (out : Files) (path : String) (bytes : List ℕ)
    → Before (m out).1 path bytes
    → Before out path bytes ⊎ P path bytes

Adds-bind :
    (P Q : String → List ℕ → Type 0) (m n : Exec Files (Unit {0}))
    → Adds P m
    → Adds Q n
    → Adds (λ path bytes. P path bytes ⊎ Q path bytes) (m >> n)
Adds-bind P Q m n pm qn out path bytes h = elim (Result-cases (m out).0) [
  | inr (e, p) ↦ elim (pm out path bytes (rw p at h)) [ inl b ↦ inl b | inr x ↦ inr (inl x) ]
  | inl (a, p) ↦ elim (qn (m out).1 path bytes (rw p at h)) [
    | inr y ↦ inr (inr y)
    | inl b ↦ elim (pm out path bytes b) [ inl c ↦ inl c | inr x ↦ inr (inl x) ]
  ]
]

file-Adds :
    (at : String) (data' : List ℕ)
    → Adds (InNode at (file (ok data'))) (walk_in at (file (ok data')))
unfolding InNode walk_in
file-Adds at data' out path bytes h = elim (Bool-cases (at == path)) [
  | inl e ↦ inr ((eq_iff at path).0 e, ground (arith, h, lookup-insert at path data' out))
  | inr e ↦ inl (ground (arith, h, lookup-insert at path data' out))
]

unless_git-Adds :
    (name : String) (P : String → List ℕ → Type 0) (m : Exec Files (Unit {0}))
    → Adds P m
    → Adds (λ path bytes. ((name == ".git") ≡ false) × P path bytes) (unless_git name m)
unless_git-Adds name P m pm out path bytes h = elim (Bool-cases (name == ".git")) [
  | inl e ↦ inl (rw e at h)
  | inr e ↦ elim (pm out path bytes (rw e at h)) [ inl b ↦ inl b | inr x ↦ inr (e, x) ]
]

mutual
  unfolding InNode walk_in

  walk_in-Adds : (at : String) (node : Node) → Adds (InNode at node) (walk_in at node)
  walk_in-Adds at (file (ok data')) = file-Adds at data'
  walk_in-Adds at (file (err e)) = λ out path bytes h. inl h
  walk_in-Adds at symlink = λ out path bytes h. inl h
  walk_in-Adds at (dir es) = walk_entries-Adds at es
  walk_in-Adds at (unreadable e) = λ out path bytes h. inl h

  walk_entries-Adds : (at : String) (es : Entries) → Adds (InEntries at es) (walk_entries at es)
  walk_entries-Adds at nil = λ out path bytes h. inl h
  walk_entries-Adds at (entry name node es) =
      Adds-bind (λ path bytes. ((name == ".git") ≡ false) × InNode (join at name) node path bytes)
        (InEntries at es) (unless_git name (walk_in (join at name) node)) (walk_entries at es)
        (unless_git-Adds name (InNode (join at name) node) (walk_in (join at name) node)
          (walk_in-Adds (join at name) node))
        (walk_entries-Adds at es)

-- An action that, when it succeeds, keeps every path of the map, and has those of a predicate.
record Covers (P : String → List ℕ → Type 0) (m : Exec Files (Unit {0})) : Type 0 where
  keeps :
      (out : Files) (path : String) (bytes : List ℕ)
      → Before out path bytes
      → (now : List ℕ) × Before (m out).1 path now
  has :
      (out : Files) (path : String) (bytes : List ℕ)
      → (m out).0 ≡ ok tt
      → P path bytes
      → (now : List ℕ) × Before (m out).1 path now

Covers-bind :
    (P Q : String → List ℕ → Type 0) (m n : Exec Files (Unit {0}))
    → Covers P m
    → Covers Q n
    → Covers (λ path bytes. P path bytes ⊎ Q path bytes) (m >> n)
Covers-bind P Q m n cm cn = record {
  keeps = λ out path bytes b. elim (Result-cases (m out).0) [
    | inr (e, p) ↦ rw p (cm.keeps out path bytes b)
    | inl (a, p) ↦
        let (now, b') = cm.keeps out path bytes b in rw p (cn.keeps (m out).1 path now b')
  ];
  has = λ out path bytes done x. elim (Result-cases (m out).0) [
    | inr (e, p) ↦ let done' = rw p at done in cc
    | inl (tt, p) ↦ let done' = rw p at done in rw p (found out path bytes p done' x)
  ];
}
  where
    found :
        (out : Files) (path : String) (bytes : List ℕ)
        → (m out).0 ≡ ok tt
        → (n (m out).1).0 ≡ ok tt
        → P path bytes ⊎ Q path bytes
        → (now : List ℕ) × Before (n (m out).1).1 path now
    found out path bytes p done (inr y) = cn.has (m out).1 path bytes done y
    found out path bytes p done (inl x) =
        let (now, b) = cm.has out path bytes p x in cn.keeps (m out).1 path now b

unless_git-Covers :
    (name : String) (P : String → List ℕ → Type 0) (m : Exec Files (Unit {0}))
    → Covers P m
    → Covers (λ path bytes. ((name == ".git") ≡ false) × P path bytes) (unless_git name m)
unless_git-Covers name P m c = record {
  keeps = λ out path bytes b. elim (Bool-cases (name == ".git")) [
    | inl e ↦ rw e (bytes, b)
    | inr e ↦ rw e (c.keeps out path bytes b)
  ];
  has = λ out path bytes done x.
      let e = x.0 in let done' = rw e at done in rw e (c.has out path bytes done' x.1);
}

file-Covers :
    (at : String) (data' : List ℕ)
    → Covers (InNode at (file (ok data'))) (walk_in at (file (ok data')))
unfolding InNode walk_in
file-Covers at data' = record {
  keeps = λ out path bytes b. elim (Bool-cases (at == path)) [
    | inl e ↦ (data', rw (lookup-insert at path data' out, e) refl)
    | inr e ↦ (bytes, rw (lookup-insert at path data' out, e) b)
  ];
  has = λ out path bytes done x. (data', rw (← x.0) (lookup-insert_self at data' out));
}

none-Covers :
    (m : Exec Files (Unit {0})) → ((out : Files) → (m out).1 ≡ out) → Covers (λ path bytes. ⊥) m
none-Covers m same = record {
  keeps = λ out path bytes b. (bytes, rw (same out) b);
  has = λ out path bytes done x. absurd x;
}

mutual
  unfolding InNode walk_in

  walk_in-Covers : (at : String) (node : Node) → Covers (InNode at node) (walk_in at node)
  walk_in-Covers at (file (ok data')) = file-Covers at data'
  walk_in-Covers at (file (err e)) = none-Covers (walk_in at (file (err e))) (λ out. refl)
  walk_in-Covers at symlink = none-Covers (walk_in at symlink) (λ out. refl)
  walk_in-Covers at (dir es) = walk_entries-Covers at es
  walk_in-Covers at (unreadable e) = none-Covers (walk_in at (unreadable e)) (λ out. refl)

  walk_entries-Covers : (at : String) (es : Entries) → Covers (InEntries at es) (walk_entries at es)
  walk_entries-Covers at nil = none-Covers (walk_entries at nil) (λ out. refl)
  walk_entries-Covers at (entry name node es) =
      Covers-bind (λ path bytes. ((name == ".git") ≡ false) × InNode (join at name) node path bytes)
        (InEntries at es) (unless_git name (walk_in (join at name) node)) (walk_entries at es)
        (unless_git-Covers name (InNode (join at name) node) (walk_in (join at name) node)
          (walk_in-Covers (join at name) node))
        (walk_entries-Covers at es)

-- The files of a root directory: none at all if its own name is .git.
abbrev pub InRoot : String → Node → String → List ℕ → Type 0
InRoot name root path bytes = ((name == ".git") ≡ false) × InNode "." root path bytes

collected-ok :
    (x : Result (Unit {0}) × Files) (out : Files) → collected x ≡ ok out → x ≡ (ok tt, out)
collected-ok (ok tt, out') out h = ap (λ o. (ok tt, o)) (ok_inj h)
collected-ok (err e, out') out h = cc

-- What the tree has at a path: those bytes of a regular file, or no such file.
abbrev pub Listed : String → Node → String → Option (List ℕ) → Type 0
Listed name root path (some bytes) = InRoot name root path bytes
Listed name root path none = (bytes : List ℕ) → ¬ InRoot name root path bytes

-- When the walk of a directory succeeds, the result has at each path the bytes that were read of what
-- the tree has at that path if it is neither a directory nor a symbolic link and no part of the path
-- is named .git, and nothing at any other path.
pub files_from_fs-Listed :
    (name : String) (root : Node) (out : Files)
    → files_from_fs name root ≡ ok out
    → (path : String) → Listed name root path (lookup path out)
unfolding files_from_fs
files_from_fs-Listed name root out h path = listed (lookup path out) refl
  where
    visit : Exec Files (Unit {0})
    visit = unless_git name (walk_in "." root)

    done : visit [] ≡ (ok tt, out)
    done = collected-ok (visit []) out h

    listed : (o : Option (List ℕ)) → lookup path out ≡ o → Listed name root path o
    listed (some bytes) found =
        elim (unless_git-Adds name (InNode "." root) (walk_in "." root) (walk_in-Adds "." root) []
          path bytes (rw done found)) [
            | inl b ↦ absurd (ground (arith, b, lookup-nil {V = List ℕ} path))
            | inr x ↦ x
          ]
    listed none found = λ bytes x.
        let covers =
          unless_git-Covers name (InNode "." root) (walk_in "." root) (walk_in-Covers "." root) in
        let (now, b) = covers.has [] path bytes (ap (λ y. y.0) done) x in
        let e = ap (λ y. lookup path y.1) (sym done) ∙ b in cc

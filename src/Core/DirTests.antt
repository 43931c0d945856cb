-- ===== src/Core/DirTests.antt =====
-- The walk of a small directory.
use git_simulator.Base.{◌≡◌, refl, [], ◌∷◌, string_eq, lookup}
use git_simulator.Core.Errors.{ok}
use git_simulator.Core.Content.{Files}
use git_simulator.Core.LocalDir.{Node, file, symlink, dir, nil, entry, files_from_fs}
use git_simulator.Core.LocalDir.Laws.{InRoot, files_from_fs-Listed}

-- .git/config, a/.git, a/b.txt, link and z.txt
abbrev tree : Node
tree = dir (
    entry ".git" (dir (entry "config" (file (ok (1 ∷ []))) nil)) (
      entry "a" (dir (entry ".git" (file (ok (2 ∷ []))) (entry "b.txt" (file (ok (3 ∷ []))) nil)))
        (entry "link" symlink (entry "z.txt" (file (ok (4 ∷ []))) nil))))

abbrev files : Files
files = ("a/b.txt", 3 ∷ []) ∷ ("z.txt", 4 ∷ []) ∷ []

walked : files_from_fs "." tree ≡ ok files
unfolding files_from_fs
walked = refl

-- The file below a directory is one of the tree's.
files_from_fs-Listed_example : InRoot "." tree "a/b.txt" (3 ∷ [])
unfolding lookup
files_from_fs-Listed_example = files_from_fs-Listed "." tree files walked "a/b.txt"

-- ===== src/Core/LocalDir.antt =====
-- pkg/core/localdir.go: the files of a directory of the host, as fs.WalkDir visits them.
pub mod Laws
use git_simulator.Base.{
  ℕ, String, ◌==◌, ◌<>◌, Bool, true, false, if◌then◌else◌, List, [], ◌∷◌, string_eq, insert,
}
use git_simulator.Core.Errors.{Error, message, wrapped, Result, ok, err}
use git_simulator.Core.Exec.{Exec, pure, fail, ◌>>=◌, ◌>>◌}
use git_simulator.Core.Content.{Files, ContentProvider}

-- What is found under a name: `file` is anything that is no directory and no symbolic link, a regular
-- file but also a pipe, a device or a socket, with what fs.ReadFile returns for it; a directory with its
-- entries in the order of fs.ReadDir, or the error of reading it.
mutual
  pub data Node : Type 0 where
    file : Result (List ℕ) → Node
    symlink : Node
    dir : Entries → Node
    unreadable : Error → Node

  pub data Entries : Type 0 where
    nil : Entries
    entry : String → Node → Entries → Entries

-- path.Join(parent, name)
abbrev pub join : String → String → String
join parent name = if parent == "." then name else parent <> "/" <> name

-- out[path] = data
abbrev stored : String → Result (List ℕ) → Exec Files (Unit {0})
stored path (ok data') out = (ok tt, insert path data' out)
stored path (err e) out = (err (wrapped "localdir: reading %q: %w" (path ∷ []) e), out)

-- if d.Name() == ".git" { ... }: neither a directory nor a file of that name is visited.
abbrev pub unless_git : String → Exec Files (Unit {0}) → Exec Files (Unit {0})
unless_git name visit = if name == ".git" then pure tt else visit

unfoldable mutual
  unfolding insert

  -- The walk of a node whose name is not .git, and of the entries of a directory.
  pub walk_in : String → Node → Exec Files (Unit {0})
  walk_in path (file data') = stored path data'
  walk_in path symlink = pure tt
  walk_in path (dir es) = walk_entries path es
  walk_in path (unreadable e) = fail e

  pub walk_entries : String → Entries → Exec Files (Unit {0})
  walk_entries path nil = pure tt
  walk_entries path (entry name node es) =
      unless_git name (walk_in (join path name) node) >> walk_entries path es

abbrev pub collected : Result (Unit {0}) × Files → Result Files
collected (ok _, out) = ok out
collected (err e, out) = err e

-- filesFromFS(fsys), for the node of the root and its name
unfoldable pub files_from_fs : String → Node → Result Files
unfolding walk_in
files_from_fs name root = collected (unless_git name (walk_in "." root) [])

-- l.Files(ctx), for what os.Stat and the walk find at the time
unfoldable pub local_dir : String → String → Result Node → ContentProvider
unfolding files_from_fs
local_dir path name (err e) ctx = err (wrapped "localdir: %w" [] e)
local_dir path name (ok (file data')) ctx =
    err (message "localdir: %q is not a directory" (path ∷ []))
local_dir path name (ok symlink) ctx = err (message "localdir: %q is not a directory" (path ∷ []))
local_dir path name (ok root) ctx = files_from_fs name root

-- ===== src/Gitserver/Serve.antt =====
-- resolveRepo of pkg/gitserver/resolve.go and ServeHTTP of server.go, up to the pack protocol.
pub mod Laws
use git_simulator.Base.{
  ℕ, String, Bool, true, false, ◌==◌, if◌then◌else◌, Option, none, some, List, [], ◌∷◌, ℤ,
}
use git_simulator.Core.Errors.{Error, message, Result, ok, err, wrapped}
use git_simulator.Core.Exec.{Exec}
use git_simulator.Store.Git.{Git}
use git_simulator.Store.Repo.{visible_refs}
use git_simulator.Store.Registry.{RepoKey, RepoRef, Store, get_repo, on_repo}
use git_simulator.Gitserver.Paths.{parse_path, cut_suffix}

abbrev pub invalid_path : String → Error
invalid_path path = message "invalid repo path %q: expected /owner/repo.git[/...]" (path ∷ [])

-- What a request gets: a status 404 with or without an error, or the references or a pack of a
-- repository's storer.
pub data Answer : Type 0 where
  not_found : Answer
  refused : Error → Answer
  info_refs : RepoRef → Answer
  upload_pack : RepoRef → Answer

module _ (g : Git) where
  -- if _, err := repo.VisibleRefs(); err != nil { ... }
  unfoldable pub flushed :
      {A : Type 0} → RepoKey → RepoRef → Result A × Store g → Result RepoRef × Store g
  flushed key ref (ok _, s) = (ok ref, s)
  flushed key ref (err e, s) =
      (err (wrapped "flush refs for %s/%s: %w" (key.owner ∷ key.name ∷ []) e), s)

  unfoldable pub flush : (ℕ → ℤ) → RepoKey → Result RepoRef → Exec (Store g) RepoRef
  unfolding flushed on_repo visible_refs
  flush now key (err e) s = (err e, s)
  flush now key (ok ref) s = flushed key ref (on_repo g ref (visible_refs g now) s)

  unfoldable pub find_repo :
      (ℕ → ℤ) → String → String → Option (String × String) → Exec (Store g) RepoRef
  unfolding flush get_repo
  find_repo now host path none s = (err (invalid_path path), s)
  find_repo now host path (some (owner, name)) s =
      let key : RepoKey = record { host = host; owner = owner; name = name } in
      flush now key (get_repo g key s) s

  -- resolveRepo(rs, host, urlPath), for the readings of the clock by VisibleRefs
  unfoldable pub resolve_repo : (ℕ → ℤ) → String → String → Exec (Store g) RepoRef
  unfolding find_repo parse_path
  resolve_repo now host path s = find_repo now host path (parse_path path) s

  unfoldable pub answered : (RepoRef → Answer) → Result RepoRef × Store g → Answer × Store g
  answered f (ok ref, s) = (f ref, s)
  answered f (err e, s) = (refused e, s)

  unfoldable pub handle :
      (ℕ → ℤ) → String → (RepoRef → Answer) → Option String → Store g → Answer × Store g
  unfolding answered resolve_repo
  handle now host f none s = (not_found, s)
  handle now host f (some path) s = answered f (resolve_repo now host path s)

  -- h.ServeHTTP(w, r), for the method and the path of the request
  unfoldable pub serve : (ℕ → ℤ) → String → String → String → Store g → Answer × Store g
  unfolding handle cut_suffix
  serve now host method path s =
      if method == "GET"
      then handle now host info_refs (cut_suffix "/info/refs" path) s
      else if method == "POST"
      then handle now host upload_pack (cut_suffix "/git-upload-pack" path) s
      else (not_found, s)

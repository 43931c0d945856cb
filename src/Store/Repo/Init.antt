-- ===== src/Store/Repo/Init.antt =====
-- `newRepo` of pkg/store/repo.go.
use git_simulator.Base.{String, [], ◌∷◌, ℤ, string_eq}
use git_simulator.Core.Errors.{Result, ok, wrap}
use git_simulator.Core.Exec.{lift, Exec, ◌>>=◌, ◌>>◌}
use git_simulator.Core.Content.{Files, ContentProvider, ContentContext}
use git_simulator.Store.Git.{Git, Target, hash, symbolic}
use git_simulator.Store.Refs.{BranchState, zero_time}
use git_simulator.Store.Commit.{build_commit}
use git_simulator.Store.Repo.{Repo, head_ref, repo_path}

module _ (g : Git) where
  open g use {State}

  abbrev pub fresh_branch : String → BranchState
  fresh_branch sha = record {
    visible_sha = sha;
    pending_sha = "";
    promote_at = zero_time;
    commit_index = 0;
  }

  -- SetReference with the error that the caller returns
  abbrev set_or : String → String → Target g.Hash → Exec State (Unit {0})
  set_or words name target s = let (u, s') = g.set_reference name target s in (wrap words [] u, s')

  abbrev pub initial_repo : String → String → String → String → String → State → Repo g
  initial_repo host owner name branch sha s = record {
    host = host;
    owner = owner;
    name = name;
    default_branch = branch;
    storer = s;
    branches = (branch, fresh_branch sha) ∷ [];
    tags = [];
  }

  -- `newRepo` from the first reference on.
  unfoldable pub point_repo : String → String → String → String → String → Exec State (Repo g)
  point_repo host owner name branch sha = do
    set_or "set initial ref: %w" (head_ref branch) (hash (g.new_hash sha))
    set_or "set HEAD: %w" "HEAD" (symbolic (head_ref branch))
    λ s. (ok (initial_repo host owner name branch sha s), s)

  -- `newRepo` from the call of `buildCommit` on.
  unfoldable pub seed_repo : ℤ → String → String → String → String → Files → Exec State (Repo g)
  unfolding point_repo
  seed_repo now host owner name branch files = do
    sha ← λ s.
        let (h, s') = build_commit g "" files "initial commit" now s in
        (wrap "build initial commit: %w" [] h, s')
    point_repo host owner name branch sha

  abbrev pub initial_context : String → String → String → String → ContentContext
  initial_context host owner name branch = record {
    repo = repo_path host owner name;
    branch = branch;
    commit_sha = "";
    index = 0;
  }

  unfoldable pub init_repo :
      ℤ → ContentProvider → String → String → String → String → Exec State (Repo g)
  unfolding seed_repo
  init_repo now content host owner name branch = do
    files ← lift (
        wrap "content for initial commit: %w" [] (content (initial_context host owner name branch)))
    seed_repo now host owner name branch files

  -- newRepo(host, owner, name, defaultBranch, clock, content); `now` is the time of its commit.
  unfoldable pub new_repo :
      ℤ → ContentProvider → String → String → String → String → Result (Repo g)
  unfolding init_repo
  new_repo now content host owner name branch =
      (init_repo now content host owner name branch g.new_storage).0

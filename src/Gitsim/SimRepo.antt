-- ===== src/Gitsim/SimRepo.antt =====
-- SimRepo of pkg/gitsim/gitsim.go: a handle to a repository that remembers its pushes.
pub mod Events
use git_simulator.Base.{
  ℕ, suc, ◌+◌, String, Bool, ◌==◌, ◌<>◌, if◌then◌else◌, none, some, List, [], ◌∷◌, ℤ, pos,
  string_eq, lookup, insert,
}
use git_simulator.Core.Errors.{Result, ok, err}
use git_simulator.Core.Exec.{Exec}
use git_simulator.Core.Content.{ContentProvider}
use git_simulator.Core.Provider.{PushEvent}
use git_simulator.Store.Git.{Git}
use git_simulator.Store.Repo
use git_simulator.Store.Repo.{Repo, Readings, add_commit}
use git_simulator.Gitsim.Options.{PushConfig, PushOption, on_branch, head_delay, apply}

-- `tick` counts the readings of the clock.
pub record SimRepo (g : Git) : Type 0 where
  pub vendor : String
  pub repo : Repo g
  pub sha_branch : List (String × String)
  pub prev_sha : List (String × String)
  pub tick : ℕ

-- m[key], the zero value for a missing key
abbrev pub get_or_empty : String → List (String × String) → String
get_or_empty key m = elim (lookup key m) [ none ↦ "" | some v ↦ v ]

-- repoKey(vendor, owner, repo)
abbrev pub repo_key : String → String → String → String
repo_key vendor owner repo = vendor <> "/" <> owner <> "/" <> repo

module _ (g : Git) where
  -- r.ID()
  abbrev pub id : SimRepo g → String
  id r = repo_key r.vendor r.repo.owner r.repo.name

  -- r.CloneURL(), for the simulator's base URL
  abbrev pub clone_url : String → SimRepo g → String
  clone_url base r = base <> "/" <> r.repo.owner <> "/" <> r.repo.name <> ".git"

  -- r.DefaultBranch()
  abbrev pub default_branch : SimRepo g → String
  default_branch r = r.repo.default_branch

  -- r.buildEvent(sha, branch)
  unfoldable pub build_event : String → String → SimRepo g → PushEvent
  unfolding lookup
  build_event sha branch r =
      let known = if branch == "" then get_or_empty sha r.sha_branch else branch in
      record {
        host = r.repo.host;
        owner = r.repo.owner;
        repo = r.repo.name;
        branch = if known == "" then default_branch r else known;
        tag = "";
        before = get_or_empty known r.prev_sha;
        after = sha;
      }

  module _ (clock : ℕ → ℤ) (content : ContentProvider) where
    -- r.VisibleCommit(branch)
    unfoldable pub visible_commit : String → SimRepo g → (String × Bool) × SimRepo g
    visible_commit branch r =
        let (seen, repo') = Repo.visible_commit g (clock r.tick) branch r.repo in
        (seen, record r { repo = repo'; tick = suc r.tick })

    abbrev pub readings : ℕ → Readings
    readings n = record {
      at_resolve = clock n;
      at_commit = clock (suc n);
      at_schedule = clock (suc (suc n));
    }

    unfoldable pub recorded : PushConfig → String → Result String → Exec (SimRepo g) String
    recorded cfg prev (err e) r = (err e, r)
    recorded cfg prev (ok sha) r = (
      ok sha,
      record r {
        sha_branch = insert sha cfg.branch r.sha_branch;
        prev_sha = insert cfg.branch prev r.prev_sha;
      },
    )

    unfoldable pub push_with : PushConfig → Exec (SimRepo g) String
    unfolding visible_commit recorded
    push_with cfg r =
        let (seen, r₁) = visible_commit cfg.branch r in
        let (made, repo₂) = add_commit g (readings r₁.tick) content cfg.branch cfg.delay r₁.repo in
        recorded cfg seen.0 made (record r₁ { repo = repo₂; tick = r₁.tick + 3 })

    -- r.Push(opts...)
    unfoldable pub push : List PushOption → Exec (SimRepo g) String
    unfolding push_with
    push opts r = push_with (apply opts (record { branch = default_branch r; delay = pos 0 })) r

    -- r.PushCommit(branch, delay)
    unfoldable pub push_commit : String → ℤ → Exec (SimRepo g) String
    unfolding push
    push_commit branch delay = push (on_branch branch ∷ head_delay delay ∷ [])

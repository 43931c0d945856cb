-- ===== src/Store/Repo.antt =====
-- pkg/store/repo.go: a simulated repository. Each method takes the readings of the clock that it
-- makes, in the order of its calls of `clock.Now()`, and the answers of the content provider.
pub mod Tags
pub mod Init
pub mod Branches
pub mod Sync
pub mod Race
pub mod Reads
pub mod Advertised
pub mod Identity
pub mod New
pub mod Calls
pub mod Grows
pub mod Commits
pub mod History
pub mod Clones
pub mod Success
pub mod Made
pub mod Tagged
use git_simulator.Base.{
  ℕ, suc, String, Bool, true, false, not, ◌==◌, itoa, ◌<>◌, if◌then◌else◌, Option, none, some, List,
  [], ◌∷◌, ℤ, ◌+ℤ◌, is_zero, Eq, string_eq, lookup, insert,
}
use git_simulator.Core.Errors.{Error, sentinel, err_not_found, wrapped, Result, ok, err, wrap}
use git_simulator.Core.Exec.{Exec, pure, fail, lift, continue, ◌>>=◌, ◌>>◌}
use git_simulator.Core.Content.{Files, ContentProvider, ContentContext}
use git_simulator.Store.Git.{Git, Target, hash, symbolic, Object, tag}
use git_simulator.Store.Refs.{BranchState, TagState, resolve, zero_time}
use git_simulator.Store.Commit.{new_commit, signature_at}

pub record Repo (g : Git) : Type 0 where
  pub host : String
  pub owner : String
  pub name : String
  pub default_branch : String
  pub storer : g.State
  pub branches : List (String × BranchState)
  pub tags : List (String × TagState)

-- The readings of the clock that one call of `AddCommit` makes, by the places where it makes them.
pub record Readings : Type 0 where
  pub at_resolve : ℤ
  pub at_commit : ℤ
  pub at_schedule : ℤ

abbrev pub head_ref : String → String
head_ref branch = "refs/heads/" <> branch

abbrev pub tag_ref : String → String
tag_ref name = "refs/tags/" <> name

-- fmt.Sprintf("%s/%s/%s", host, owner, name)
abbrev pub repo_path : String → String → String → String
repo_path host owner name = host <> "/" <> owner <> "/" <> name

module _ (g : Git) where
  open g use {Hash, State}

  -- r.Identity()
  unfoldable pub identity : Repo g → String × String × String
  identity r = (r.host, r.owner, r.name)

  -- Runs an action of the storage on the repository's storer.
  abbrev pub on_storer : {A : Type 0} → (State → Result A × State) → Repo g → Result A × Repo g
  on_storer act r = let (a, s) = act r.storer in (a, record r { storer = s })

  -- r.syncRef(branch, sha): the error is ignored.
  unfoldable pub sync_ref : String → String → Repo g → Repo g
  sync_ref branch sha r = record r {
    storer = (g.set_reference (head_ref branch) (hash (g.new_hash sha)) r.storer).1;
  }

  -- The lines by which every method resolves a branch: `resolve` writes through the pointer `bs`,
  -- and a promotion moves the reference. Returns the visible SHA and the branch's new state.
  unfoldable pub settle : ℤ → String → BranchState → Repo g → String × BranchState × Repo g
  unfolding resolve sync_ref
  settle now branch bs r =
      let (bs', sha, promoted) = resolve now bs in
      let r' = record r { branches = insert branch bs' r.branches } in
      (sha, bs', if promoted then sync_ref branch sha r' else r')

  abbrev pub no_branch : String → Repo g → Error
  no_branch branch r =
      wrapped "%w: branch %q in %s/%s/%s" (branch ∷ r.host ∷ r.owner ∷ r.name ∷ [])
        (sentinel err_not_found)

  -- The last lines of `AddCommit`: the new commit becomes visible or pending.
  unfoldable pub publish : ℤ → ℤ → String → String → BranchState → Repo g → Repo g
  unfolding sync_ref
  publish now delay branch sha bs r =
      if is_zero delay
      then sync_ref branch sha (record r {
        branches =
            insert branch
              (record {
                visible_sha = sha;
                pending_sha = "";
                promote_at = zero_time;
                commit_index = suc bs.commit_index;
              })
              r.branches;
      })
      else record r {
        branches =
            insert branch
              (record bs {
                pending_sha = sha;
                promote_at = now +ℤ delay;
                commit_index = suc bs.commit_index;
              })
              r.branches;
      }

  abbrev pub context_of : Repo g → String → String → ℕ → ContentContext
  context_of r branch parent index = record {
    repo = repo_path r.host r.owner r.name;
    branch = branch;
    commit_sha = parent;
    index = index;
  }

  abbrev pub message_of : ℕ → String → String
  message_of index branch = "commit " <> itoa index <> " on branch " <> branch

  -- `AddCommit` from the call of `buildCommit` on.
  unfoldable pub store_commit :
      Readings → String → ℤ → String → BranchState → Files → Exec (Repo g) String
  unfolding publish
  store_commit t branch delay parent bs files = do
    sha ←
        on_storer (new_commit g parent files (message_of (suc bs.commit_index) branch) t.at_commit)
    λ r. (ok sha, publish t.at_schedule delay branch sha bs r)

  -- `AddCommit` from the call of the content provider on.
  unfoldable pub commit_on :
      Readings → ContentProvider → String → ℤ → String → BranchState → Exec (Repo g) String
  unfolding store_commit
  commit_on t content branch delay parent bs = do
    let index = suc bs.commit_index
    files ← λ r. (
      wrap "content for commit %d: %w" (itoa index ∷ [])
          (content (context_of r branch parent index)),
      r,
    )
    store_commit t branch delay parent bs files

  unfoldable pub on_branch :
      {A : Type 0} → Option BranchState → Error → (BranchState → Exec (Repo g) A) → Exec (Repo g) A
  on_branch none e f = fail e
  on_branch (some bs) e f = f bs

  -- r.AddCommit(branch, delay)
  unfoldable pub add_commit : Readings → ContentProvider → String → ℤ → Exec (Repo g) String
  unfolding settle commit_on on_branch
  add_commit t content branch delay r =
      on_branch (lookup branch r.branches) (no_branch branch r)
        (λ bs r.
          let (parent, bs', r') = settle t.at_resolve branch bs r in
          commit_on t content branch delay parent bs' r')
        r

  visible_on : ℤ → String → Option BranchState → Repo g → (String × Bool) × Repo g
  visible_on now branch none r = (("", false), r)
  visible_on now branch (some bs) r =
      let (sha, _, r') = settle now branch bs r in ((sha, not (sha == "")), r')

  -- r.VisibleCommit(branch); `none` is ("", false).
  unfoldable pub visible_commit : ℤ → String → Repo g → (String × Bool) × Repo g
  unfolding settle visible_on
  visible_commit now branch r = visible_on now branch (lookup branch r.branches) r

  -- One round of the loop of `VisibleRefs`: the map holds pointers, so the branch's state is the
  -- one that stands there now.
  unfoldable pub settle_branch : ℤ → String → Option BranchState → Repo g → Repo g
  unfolding settle
  settle_branch now branch none r = r
  settle_branch now branch (some bs) r = (settle now branch bs r).2

  -- The loop: each round has a reading of the clock of its own.
  unfoldable pub settle_all : (ℕ → ℤ) → List (String × BranchState) → Repo g → Repo g
  unfolding settle_branch
  settle_all now [] r = r
  settle_all now ((branch, _) ∷ rest) r =
      settle_all (λ n. now (suc n)) rest (settle_branch (now 0) branch (lookup branch r.branches) r)

  -- r.VisibleRefs()
  unfoldable pub visible_refs : (ℕ → ℤ) → Exec (Repo g) (List (String × Target Hash))
  unfolding settle_all
  visible_refs now r = let r' = settle_all now r.branches r in (g.iter_references r'.storer, r')

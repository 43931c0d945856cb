-- ===== src/Gitsim/Mux/Cloned.antt =====
-- Handler of pkg/gitsim/gitsim.go: what git clients can clone, whatever the control API was asked.
use git_simulator.Base.{ℕ, String, ◌≡◌, some, List, ℤ, get_elem?, string_eq, lookup}
use git_simulator.Core.Errors.{Result}
use git_simulator.Core.Exec.{Exec}
use git_simulator.Core.Content.{ContentProvider}
use git_simulator.Core.Provider.{Provider}
use git_simulator.Store.Git.{Git, GitLaws}
use git_simulator.Store.Refs.{BranchState}
use git_simulator.Store.Objects.{ObjectLaws}
use git_simulator.Store.Repo.{Repo}
use git_simulator.Store.Repo.Clones.{IsClonable}
use git_simulator.Store.Repo.Made.{IsMade-IsClonable}
use git_simulator.Store.Registry.{RepoRef}
use git_simulator.Emitter.World.{World}
use git_simulator.Gitserver.Pack.{PackServer}
use git_simulator.Scenario.Stays.{Stays}
use git_simulator.Gitsim.Simulator.{set_base_url, Simulator}
use git_simulator.Gitsim.Simulator.Sound.{IsSound}
use git_simulator.Gitsim.Mux.{Request, new_simulator, handle_all}
use git_simulator.Gitsim.Mux.Sound.{handle_all-new_simulator-IsSound}

module _ (g : Git) (objects : ObjectLaws g) (laws : GitLaws g) (p : PackServer g) (w : World)
    (clock : ℕ → ℤ) (pause : ℤ → Exec (Simulator g) (Unit {0}))
    (now : Simulator g → ℤ × Simulator g) (quote : String → String)
    (paused : (d : ℤ) → Stays (IsSound g) (pause d))
    (read : (s : Simulator g) → IsSound g s → IsSound g (now s).1) where
  -- Whatever requests a new simulator serves: in each repository of its store the reference of each
  -- branch leads to the visible commit, and the commit, its files and all its ancestors with theirs
  -- are in the repository's storer. The hypotheses are that the waits and the readings of the clock
  -- during a scenario do not break the simulator's invariant.
  pub handle_all-new_simulator-IsClonable :
      (parse_host : String → Result String) (url : String) (content : ContentProvider)
      (providers : List Provider) (rs : List Request) (ref : RepoRef) (r : Repo g) (b : String)
      (bs : BranchState)
      → get_elem?
          (handle_all g p w clock pause now quote rs
            (set_base_url g parse_host url (new_simulator g content providers)).1).store.heap
          ref
        ≡ some r
      → lookup b r.branches ≡ some bs
      → IsClonable g objects laws r b bs
  handle_all-new_simulator-IsClonable parse_host url content providers rs ref r b bs there found =
      let sound =
        handle_all-new_simulator-IsSound g laws p w clock pause now quote paused read parse_host url
          content providers rs in
      IsMade-IsClonable g objects laws r ((sound.stored.well ref r there).reached) b bs found

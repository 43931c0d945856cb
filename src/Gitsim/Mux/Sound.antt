-- ===== src/Gitsim/Mux/Sound.antt =====
-- The invariant of Simulator and the routes of Handler in pkg/gitsim/gitsim.go.
use git_simulator.Base.{ℕ, String, refl, List, [], ◌∷◌, ℤ, string_eq, lookup-nil, arith}
use git_simulator.Core.Errors.{Result, ok, err}
use git_simulator.Core.Exec.{Exec}
use git_simulator.Core.Content.{ContentProvider}
use git_simulator.Core.Provider.{Provider}
use git_simulator.Store.Git.{Git, GitLaws}
use git_simulator.Store.Registry.{key_Eq}
use git_simulator.Store.Registry.Laws.{new_store-IsValid}
use git_simulator.Emitter.World.{World}
use git_simulator.Gitserver.Pack.{PackServer}
use git_simulator.Scenario.Stays.{Stays}
use git_simulator.Gitsim.Simulator.{set_base_url, set_url, Simulator, HandleRef, provider_by_name}
use git_simulator.Gitsim.Simulator.Sound.{IsSound, same-IsSound}
use git_simulator.Gitsim.ControlApi.Sound.{
  handle_create_repo-IsSound, handle_add_commit-IsSound, handle_fire_webhook-IsSound,
  handle_scenario_push_n-IsSound, handle_scenario_race-IsSound, handle_scenario_mixed-IsSound,
}
use git_simulator.Gitsim.Mux.{
  Request, create_repo, add_commit, fire_webhook, push_n, race, mixed, commits, healthz, any,
  as_response, new_simulator, handler, handle_all,
}
use git_simulator.Gitsim.Mux.Served.{serve_any-IsSound, serve_commits-IsSound}

module _ (g : Git) where
  new_simulator-IsSound :
      (content : ContentProvider) (providers : List Provider)
      → IsSound g (new_simulator g content providers)
  unfolding new_simulator
  new_simulator-IsSound content providers = record {
    stored = record { valid = new_store-IsValid g; well = λ ref r h. cc };
    held = λ ref h found. cc;
    known = λ key ref found. absurd (ground (arith, found, lookup-nil {V = HandleRef} key));
  }

  set_url-IsSound :
      (url : String) (host : Result String) (s : Simulator g)
      → IsSound g s
      → IsSound g (set_url g url host s).1
  unfolding set_url
  set_url-IsSound url (err e) s i = i
  set_url-IsSound url (ok host) s i = same-IsSound g s _ refl refl refl i

  set_base_url-IsSound :
      (parse_host : String → Result String) (url : String) (s : Simulator g)
      → IsSound g s
      → IsSound g (set_base_url g parse_host url s).1
  unfolding set_base_url
  set_base_url-IsSound parse_host url s i = set_url-IsSound url (parse_host url) s i

module _ (g : Git) (laws : GitLaws g) (p : PackServer g) (w : World) (clock : ℕ → ℤ)
    (pause : ℤ → Exec (Simulator g) (Unit {0})) (now : Simulator g → ℤ × Simulator g)
    (quote : String → String) (paused : (d : ℤ) → Stays (IsSound g) (pause d))
    (read : (s : Simulator g) → IsSound g s → IsSound g (now s).1) where
  handler-IsSound :
      (r : Request) (s : Simulator g)
      → IsSound g s
      → IsSound g (handler g p w clock pause now quote r s).1
  unfolding handler as_response
  handler-IsSound (create_repo req) s i = handle_create_repo-IsSound g laws clock req s i
  handler-IsSound (add_commit vendor owner repo req) s i =
      handle_add_commit-IsSound g laws clock vendor owner repo req s i
  handler-IsSound (fire_webhook vendor owner repo req) s i =
      handle_fire_webhook-IsSound g laws clock w vendor owner repo req s i
  handler-IsSound (push_n swaps req) s i =
      handle_scenario_push_n-IsSound g laws clock w pause now paused read swaps req s i
  handler-IsSound (race req) s i =
      handle_scenario_race-IsSound g laws clock w pause now paused read req s i
  handler-IsSound (mixed req) s i =
      handle_scenario_mixed-IsSound g laws clock w pause now paused read req s i
  handler-IsSound (commits at key branch accept) s i =
      serve_commits-IsSound g laws s i p quote at key branch accept
        (provider_by_name s.providers "github")
  handler-IsSound healthz s i = i
  handler-IsSound (any at host method path service body) s i =
      serve_any-IsSound g laws s i p at host method path service body

  handle_all-IsSound :
      (rs : List Request) (s : Simulator g)
      → IsSound g s
      → IsSound g (handle_all g p w clock pause now quote rs s)
  unfolding handle_all
  handle_all-IsSound [] s i = i
  handle_all-IsSound (r ∷ rs) s i = handle_all-IsSound rs _ (handler-IsSound r s i)

  -- Whatever requests a new simulator serves: every handle leads to a repository that the store has
  -- under its identity, every identifier leads to a handle of that identifier, and in every
  -- repository the reference of each branch is its visible commit, and newRepo and some calls have
  -- made it. The hypotheses are that the waits
  -- and the readings of the clock during a scenario do not break this.
  pub handle_all-new_simulator-IsSound :
      (parse_host : String → Result String) (url : String) (content : ContentProvider)
      (providers : List Provider) (rs : List Request)
      → IsSound g (
          handle_all g p w clock pause now quote rs
            (set_base_url g parse_host url (new_simulator g content providers)).1)
  handle_all-new_simulator-IsSound parse_host url content providers rs =
      handle_all-IsSound rs (set_base_url g parse_host url (new_simulator g content providers)).1 (
        set_base_url-IsSound g parse_host url (new_simulator g content providers)
          (new_simulator-IsSound g content providers))

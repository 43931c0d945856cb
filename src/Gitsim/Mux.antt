-- ===== src/Gitsim/Mux.antt =====
-- New and Handler of pkg/gitsim/gitsim.go and mountControlAPI of http_api.go: what a request to the
-- simulator reaches. A control request comes decoded, see ControlApi.
pub mod Served
pub mod Sound
pub mod Cloned
use git_simulator.Base.{
  ℕ, String, ◌==◌, ◌<>◌, Bool, true, false, if◌then◌else◌, Option, none, some, List, [], ◌∷◌, ℤ,
}
use git_simulator.Core.Errors.{Result, ok, err}
use git_simulator.Core.Exec.{Exec}
use git_simulator.Core.Content.{ContentProvider}
use git_simulator.Core.Provider.{Provider, Bytes}
use git_simulator.Store.Git.{Git}
use git_simulator.Store.Registry.{RepoKey, Store, new_store}
use git_simulator.Store.Registry
use git_simulator.Emitter.World.{World}
use git_simulator.Scenario.PushN.{PushNSpec, PushNResult}
use git_simulator.Scenario.Mixed.{MixedSpec, MixedResult}
use git_simulator.Scenario.Race.{RaceSpec, RaceResult}
use git_simulator.Gitserver.Paths.{before}
use git_simulator.Gitserver.Pack.{PackServer, HttpReply, serve_http}
use git_simulator.Providers.Github.Api.{Written, commits_handler}
use git_simulator.Gitsim.Simulator.{Simulator, provider_by_name}
use git_simulator.Gitsim.ControlApi.{
  Reply, CreateRepoReq, CreateRepoResp, AddCommitReq, FireWebhookReq, FireWebhookResp,
  handle_create_repo, handle_add_commit, handle_fire_webhook, handle_scenario_push_n,
  handle_scenario_race, handle_scenario_mixed,
}

-- The routes. A commit that is asked for comes with its Accept header, the catch-all with host,
-- method, path, the `service` of the query and the body; both with the readings of the clock by the
-- store.
pub data Request : Type 0 where
  create_repo : Result CreateRepoReq → Request
  add_commit : String → String → String → Result AddCommitReq → Request
  fire_webhook : String → String → String → Result FireWebhookReq → Request
  push_n : List (ℕ × ℕ) → Result (String × PushNSpec) → Request
  race : Result (String × RaceSpec) → Request
  mixed : Result (String × MixedSpec) → Request
  commits : ℤ → RepoKey → String → String → Request
  healthz : Request
  any : (ℕ → ℤ) → String → String → String → String → Bytes → Request

pub data Response : Type 0 where
  repo_made : Reply CreateRepoResp → Response
  commit_made : Reply String → Response
  webhook_fired : Reply FireWebhookResp → Response
  pushed_n : Reply PushNResult → Response
  raced : Reply RaceResult → Response
  mixed_done : Reply MixedResult → Response
  commit_shown : Written → Response
  healthy : Response
  git : HttpReply → Response
  no_route : Response

-- strings.Contains(path, sub)
unfoldable pub contains : String → String → Bool
unfolding before
contains path sub = elim (before sub path) [ none ↦ false | some _ ↦ true ]

module _ (g : Git) where
  -- New(opts...), for the options' content and providers
  unfoldable pub new_simulator : ContentProvider → List Provider → Simulator g
  new_simulator content providers = record {
    content = content;
    providers = providers;
    store = new_store g;
    base_url = "";
    host = "";
    handles = [];
    repos = [];
    tick = 0;
    events = [];
  }

  unfoldable pub as_response :
      {A : Type 0} → (A → Response) → A × Simulator g → Response × Simulator g
  as_response f (a, s) = (f a, s)

  unfoldable pub on_store :
      {A : Type 0} → (A → Response) → A × Store g → Simulator g → Response × Simulator g
  on_store f (a, st) s = (f a, record s { store = st })

  module _ (p : PackServer g) where
    -- The catch-all route.
    unfoldable pub serve_any :
        (ℕ → ℤ) → String → String → String → String → Bytes → Simulator g → Response × Simulator g
    unfolding on_store contains serve_http
    serve_any at host method path service body s =
        let served = on_store git (serve_http g p at host method path service body s.store) s in
        if contains path ".git" then served else (no_route, s)

    abbrev pub answer_commit :
        (String → String) → RepoKey → String → String → Result (String × Bool) → Response
    answer_commit quote key branch accept (ok seen) =
        commit_shown (commits_handler quote key.owner key.name branch accept seen)
    answer_commit quote key branch accept (err e) =
        commit_shown (commits_handler quote key.owner key.name branch accept ("", false))

    abbrev pub commits_path : RepoKey → String → String
    commits_path key branch = "/repos/" <> key.owner <> "/" <> key.name <> "/commits/" <> branch

    -- GET /repos/{owner}/{repo}/commits/{branch}, a route that the provider github mounts
    unfoldable pub serve_commits :
        (String → String)
        → ℤ
        → RepoKey
        → String
        → String
        → Result Provider
        → Simulator g
        → Response × Simulator g
    unfolding on_store commits_handler serve_any
    serve_commits quote at key branch accept (err e) s =
        serve_any (λ _. at) key.host "GET" (commits_path key branch) "" [] s
    serve_commits quote at key branch accept (ok _) s =
        on_store (answer_commit quote key branch accept)
          (Registry.visible_commit g at key branch s.store) s

  module _ (p : PackServer g) (w : World) (clock : ℕ → ℤ)
      (pause : ℤ → Exec (Simulator g) (Unit {0})) (now : Simulator g → ℤ × Simulator g)
      (quote : String → String) where
    -- s.Handler()
    unfoldable pub handler : Request → Simulator g → Response × Simulator g
    unfolding as_response serve_any serve_commits provider_by_name handle_create_repo
        handle_add_commit handle_fire_webhook handle_scenario_push_n handle_scenario_race
        handle_scenario_mixed
    handler (create_repo req) s = as_response repo_made (handle_create_repo g clock req s)
    handler (add_commit vendor owner repo req) s =
        as_response commit_made (handle_add_commit g clock vendor owner repo req s)
    handler (fire_webhook vendor owner repo req) s =
        as_response webhook_fired (handle_fire_webhook g clock w vendor owner repo req s)
    handler (push_n swaps req) s =
        as_response pushed_n (handle_scenario_push_n g clock w pause now swaps req s)
    handler (race req) s = as_response raced (handle_scenario_race g clock w pause now req s)
    handler (mixed req) s = as_response mixed_done (handle_scenario_mixed g clock w pause now req s)
    handler (commits at key branch accept) s =
        serve_commits p quote at key branch accept (provider_by_name s.providers "github") s
    handler healthz s = (healthy, s)
    handler (any at host method path service body) s =
        serve_any p at host method path service body s

    unfoldable pub handle_all : List Request → Simulator g → Simulator g
    unfolding handler
    handle_all [] s = s
    handle_all (r ∷ rs) s = handle_all rs (handler r s).1

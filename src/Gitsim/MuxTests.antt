-- ===== src/Gitsim/MuxTests.antt =====
-- A simulator that has served a creation, at concrete inputs.
use git_simulator.Base.{
  ℕ, ◌≡◌, refl, String, true, none, some, List, [], ◌∷◌, ℤ, pos, ◌+ℤ◌, itoa, get_elem?, string_eq,
  lookup, insert,
}
use git_simulator.Core.Errors.{library, Result, ok, err}
use git_simulator.Core.Exec.{Exec}
use git_simulator.Core.Content.{ContentProvider}
use git_simulator.Core.Provider.{Provider}
use git_simulator.Store.Git.{hash}
use git_simulator.Store.Repo.{Repo, head_ref, add_commit}
use git_simulator.Store.Repo
use git_simulator.Store.Repo.Init.{new_repo}
use git_simulator.Store.Commit.{build_commit, new_commit}
use git_simulator.Store.Registry.{key_Eq}
use git_simulator.Store.Registry
use git_simulator.Store.Toy.{toy, toy_laws}
use git_simulator.Emitter.World.{World}
use git_simulator.Emitter.Send.{send_with_retry}
use git_simulator.Scenario.Env.{WebhookResult}
use git_simulator.Scenario.Race.{RaceSpec, RaceResult, run_race}
use git_simulator.Gitserver.ToyPacks.{packs}
use git_simulator.Gitserver.Serve.{resolve_repo}
use git_simulator.Gitserver.Paths.{parse_path}
use git_simulator.Gitsim.Options.{PushConfig}
use git_simulator.Gitsim.SimRepo.{SimRepo, visible_commit, push_commit, push_with, build_event}
use git_simulator.Gitsim.SimRepo.Events.{build_event-push_with, build_event_after_two_pushes}
use git_simulator.Gitsim.Simulator.{Simulator, Handle, set_base_url, create_repo, get_repo}
use git_simulator.Gitsim.Simulator.Sound.{IsSound}
use git_simulator.Gitsim.Simulator.Calls.{get_repo-found_after}
use git_simulator.Gitsim.ControlApi.{replied, CreateRepoReq, make_fire_func, handle_scenario_race}
use git_simulator.Gitsim.ControlApi.Window.{handle_scenario_race-race_commit}
use git_simulator.Gitsim.Mux.{Request, new_simulator, handle_all}
use git_simulator.Gitsim.Mux
use git_simulator.Gitsim.Mux.Sound.{handle_all-new_simulator-IsSound}

abbrev pub content : ContentProvider
content _ = ok (("README.md", 104 ∷ []) ∷ [])

abbrev pub clock : ℕ → ℤ
clock n = pos 5

abbrev pub world : World
world = record {
  now = λ h. pos 5;
  waits = λ h d. true;
  context_error = λ h. library "context canceled";
  new_request = λ target. ok tt;
  post = λ h r. ok (record { status_code = 202; body = [] });
  noise = λ h n. 0;
}

abbrev pub pause : ℤ → Exec (Simulator toy) (Unit {0})
pause d s = (ok tt, s)

abbrev pub now : Simulator toy → ℤ × Simulator toy
now s = (pos 5, s)

abbrev pub quote : String → String
quote s = s

abbrev pub parse_host : String → Result String
parse_host url = ok "h"

abbrev pub vendor : Provider
vendor = record {
  name = "github";
  repo_url = λ host owner repo. host;
  build_webhook = λ noise event secret. ok ([], 123 ∷ 125 ∷ []);
}

abbrev pub creation : CreateRepoReq
creation = record { vendor = "github"; owner = "acme"; repo = "app"; default_branch = "" }

abbrev requests : List Request
requests = Mux.create_repo (ok creation) ∷ []

abbrev bare : Simulator toy
bare = new_simulator toy content (vendor ∷ [])

sim : Simulator toy
unfolding handle_all set_base_url new_simulator new_repo build_commit new_commit lookup itoa ◌+ℤ◌
    insert handle_scenario_race push_commit visible_commit add_commit Repo.visible_commit
    resolve_repo send_with_retry push_with build_event parse_path run_race
sim =
    handle_all toy packs world clock pause now quote requests
      (set_base_url toy parse_host "http://h" bare).1

handle_all-new_simulator-IsSound_example : IsSound toy (
    handle_all toy packs world clock pause now quote requests
      (set_base_url toy parse_host "http://h" bare).1)
handle_all-new_simulator-IsSound_example =
    handle_all-new_simulator-IsSound toy toy_laws packs world clock pause now quote (λ d s i. i)
      (λ s i. i) parse_host "http://h" content (vendor ∷ []) requests

abbrev handle : Handle
handle = record { vendor = "github"; prov = vendor; repo = 0; sha_branch = []; prev_sha = [] }

found : get_repo toy "github/acme/app" sim ≡ some 0
unfolding sim get_repo Registry.create_repo
found = refl

abbrev get_ok : Result (Repo toy) → Repo toy
get_ok (ok r) = r
get_ok (err e) = record {
  host = "";
  owner = "";
  name = "";
  default_branch = "";
  storer = toy.new_storage;
  branches = [];
  tags = [];
}

app : Repo toy
unfolding new_repo build_commit new_commit lookup itoa ◌+ℤ◌ add_commit Repo.visible_commit push_with
    build_event insert
app = get_ok (new_repo toy (pos 5) content "h" "acme" "app" "main")

there : get_elem? sim.handles 0 ≡ some handle
unfolding sim Registry.create_repo
there = refl

leads : get_elem? sim.store.heap 0 ≡ some app
unfolding sim app Registry.create_repo
leads = refl

abbrev accepted : WebhookResult
accepted = record { status_code = 202; body = []; error = none }

abbrev pub spec : RaceSpec
spec = record { branch = ""; head_delay_ms = pos 300; secret = ""; target = "t" }

abbrev result : RaceResult
result = record { old_sha = "aaa"; new_sha = "aaaaaa"; webhook_result = accepted }

after_race : Simulator toy
unfolding sim handle_scenario_race Registry.create_repo
after_race = (handle_scenario_race toy clock world pause now (ok ("github/acme/app", spec)) sim).1

raced :
    (handle_scenario_race toy clock world pause now (ok ("github/acme/app", spec)) sim).0
    ≡ replied 200 result
unfolding after_race make_fire_func
raced = refl

answered :
    (resolve_repo toy
      (λ _. pos 300_000_004)
      "h"
      "/acme/app.git"
      (handle_scenario_race toy clock world pause now (ok ("github/acme/app", spec)) sim).1.store).0
    ≡ ok 0
unfolding after_race make_fire_func
answered = refl

-- One nanosecond before the delay has passed a git client is shown the old commit.
handle_scenario_race-race_commit_example :
    (x : Repo toy) × (get_elem?
        (resolve_repo toy
          (λ _. pos 300_000_004)
          "h"
          "/acme/app.git"
          (handle_scenario_race toy clock world pause now
            (ok ("github/acme/app", spec))
            sim).1.store).1.heap
        0
      ≡ some x)
    × (toy.reference x.storer "refs/heads/main" ≡ some (hash (toy.new_hash "aaa")))
unfolding app sim
handle_scenario_race-race_commit_example =
    handle_scenario_race-race_commit toy clock world pause now toy_laws (pos 5) (λ n. refl) 0 sim
      handle_all-new_simulator-IsSound_example handle app there leads spec "github/acme/app" found
      result raced (pos 300_000_004) "/acme/app.git" 0 refl answered

get_repo-found_after_example :
    get_repo toy "github/acme/lib" (create_repo toy clock "github" "acme" "lib" "main" sim).1
    ≡ some 1
unfolding sim get_repo create_repo Registry.create_repo
get_repo-found_after_example =
    get_repo-found_after toy clock "github" "acme" "lib" "main" sim "github/acme/lib"

abbrev handle_of : SimRepo toy
handle_of = record { vendor = "github"; repo = app; sha_branch = []; prev_sha = []; tick = 0 }

abbrev at_once : PushConfig
at_once = record { branch = "main"; delay = pos 0 }

abbrev late : PushConfig
late = record { branch = "main"; delay = pos 300 }

pushed : (push_with toy clock content at_once handle_of).0 ≡ ok "aaaaaa"
unfolding app
pushed = refl

pushed_again :
    (push_with toy clock content late (push_with toy clock content at_once handle_of).1).0
    ≡ ok "aaaaaaaaa"
unfolding app
pushed_again = refl

build_event-push_with_example :
    ((build_event toy "aaaaaa" "" (push_with toy clock content at_once handle_of).1).branch
      ≡ "main")
    × ((build_event toy "aaaaaa" "" (push_with toy clock content at_once handle_of).1).before
        ≡ "aaa")
    × ((build_event toy "aaaaaa" "" (push_with toy clock content at_once handle_of).1).after
        ≡ "aaaaaa")
unfolding app
build_event-push_with_example =
    build_event-push_with toy clock content at_once refl handle_of "aaaaaa" pushed

build_event_after_two_pushes_example :
    ((build_event toy "aaaaaa" ""
        (push_with toy clock content late
          (push_with toy clock content at_once handle_of).1).1).before
      ≡ "aaaaaa")
    × ((build_event toy "aaaaaa" ""
          (push_with toy clock content late
            (push_with toy clock content at_once handle_of).1).1).after
        ≡ "aaaaaa")
build_event_after_two_pushes_example =
    build_event_after_two_pushes toy clock content at_once refl toy_laws (pos 300) handle_of
      "aaaaaa" "aaaaaaaaa" refl pushed pushed_again

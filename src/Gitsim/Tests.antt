-- ===== src/Gitsim/Tests.antt =====
-- The race scenario on a simulated repository at a concrete input.
use git_simulator.Base.{
  ℕ, ◌≡◌, refl, String, true, none, [], ◌∷◌, pos, ◌+ℤ◌, itoa, lookup, string_eq, ℤ,
}
use git_simulator.Core.Errors.{Result, ok, err}
use git_simulator.Core.Exec.{Exec}
use git_simulator.Core.Content.{ContentProvider}
use git_simulator.Store.Repo
use git_simulator.Store.Repo.{Repo, add_commit}
use git_simulator.Store.Repo.Init.{new_repo}
use git_simulator.Store.Commit.{build_commit, new_commit}
use git_simulator.Store.Toy.{toy, toy_laws}
use git_simulator.Scenario.Env.{WebhookResult}
use git_simulator.Scenario.Race.{RaceSpec, RaceResult, run_race}
use git_simulator.Gitsim.SimRepo.{SimRepo, visible_commit, push_commit}
use git_simulator.Gitsim.RaceWindow.{sim_env, run_race-window}

abbrev content : ContentProvider
content _ = ok (("README.md", 104 ∷ []) ∷ [])

abbrev clock : ℕ → ℤ
clock n = pos 5

abbrev get_ok : Result (Repo toy) → Repo toy
get_ok (ok r) = r
get_ok (err e) = record {
  host = "";
  owner = "";
  name = "";
  default_branch = "";
  storer = toy.new_storage;
  branches = [];
  tags = [];
}

app : SimRepo toy
unfolding new_repo build_commit new_commit lookup itoa ◌+ℤ◌ run_race visible_commit push_commit
    add_commit Repo.visible_commit
app = record {
  vendor = "github";
  repo = get_ok (new_repo toy (pos 0) content "h" "acme" "app" "main");
  sha_branch = [];
  prev_sha = [];
  tick = 0;
}

abbrev accepted : WebhookResult
accepted = record { status_code = 202; body = []; error = none }

abbrev fire : String → String → String → ℤ → Exec (SimRepo toy) WebhookResult
fire sha target secret d s = (ok accepted, s)

abbrev pause : ℤ → Exec (SimRepo toy) (Unit {0})
pause d s = (ok tt, s)

abbrev now : SimRepo toy → ℤ × SimRepo toy
now s = (pos 5, s)

abbrev spec : RaceSpec
spec = record { branch = ""; head_delay_ms = pos 300; secret = ""; target = "t" }

abbrev result : RaceResult
result = record { old_sha = "aaa"; new_sha = "aaaaaa"; webhook_result = accepted }

raced : (run_race (sim_env toy clock content fire pause now "main") spec app).0 ≡ ok result
unfolding app
raced = refl

-- The window is open one nanosecond before the delay has passed.
run_race-window_example :
    (Repo.visible_commit toy
      (pos 300_000_004)
      "main"
      (run_race (sim_env toy clock content fire pause now "main") spec app).1.repo).0
    ≡ ("aaa", true)
unfolding app
run_race-window_example =
    run_race-window toy clock content fire pause now toy_laws (pos 5) (λ n. refl)
      (λ sha target secret d. record { at = λ s. refl }) "main" spec app result raced
      (pos 300_000_004)

-- ===== src/Gitsim/CloneTests.antt =====
-- What git clients can clone after requests to the control API, at a concrete input.
use git_simulator.Base.{
  ◌≡◌, refl, ◌+ℤ◌, pos, Option, none, some, List, [], ◌∷◌, get_elem?, string_eq, lookup, insert,
  itoa,
}
use git_simulator.Core.Errors.{ok}
use git_simulator.Emitter.Send.{send_with_retry}
use git_simulator.Store.Commit.{build_commit, new_commit}
use git_simulator.Store.Refs.{BranchState}
use git_simulator.Store.Repo
use git_simulator.Store.Repo.{Repo, add_commit}
use git_simulator.Store.Repo.Init.{new_repo}
use git_simulator.Store.Repo.Clones.{IsClonable}
use git_simulator.Store.Registry
use git_simulator.Store.Toy.{toy, toy_laws, toy_objects}
use git_simulator.Gitserver.ToyPacks.{packs}
use git_simulator.Scenario.Race.{run_race}
use git_simulator.Gitsim.SimRepo.{push_commit, push_with, visible_commit, build_event}
use git_simulator.Gitsim.Simulator.{Simulator, set_base_url}
use git_simulator.Gitsim.ControlApi.{handle_scenario_race, make_fire_func}
use git_simulator.Gitsim.Mux.{Request, new_simulator, handle_all}
use git_simulator.Gitsim.Mux
use git_simulator.Gitsim.Mux.Cloned.{handle_all-new_simulator-IsClonable}
use git_simulator.Gitsim.MuxTests.{
  content, clock, world, pause, now, quote, parse_host, vendor, creation, spec,
}

abbrev requests : List Request
requests = Mux.create_repo (ok creation) ∷ Mux.race (ok ("github/acme/app", spec)) ∷ []

abbrev bare : Simulator toy
bare = new_simulator toy content (vendor ∷ [])

served : Simulator toy
unfolding handle_all set_base_url new_simulator new_repo build_commit new_commit lookup itoa ◌+ℤ◌
    insert handle_scenario_race push_commit visible_commit add_commit Repo.visible_commit
    send_with_retry push_with build_event run_race make_fire_func
served =
    handle_all toy packs world clock pause now quote requests
      (set_base_url toy parse_host "http://h" bare).1

abbrev or_bare : Option (Repo toy) → Repo toy
or_bare (some r) = r
or_bare none = record {
  host = "";
  owner = "";
  name = "";
  default_branch = "";
  storer = toy.new_storage;
  branches = [];
  tags = [];
}

app : Repo toy
unfolding served
app = or_bare (get_elem? served.store.heap 0)

leads : get_elem? served.store.heap 0 ≡ some app
unfolding app served Registry.create_repo
leads = refl

-- The race window is open.
abbrev racing : BranchState
racing = record {
  visible_sha = "aaa";
  pending_sha = "aaaaaa";
  promote_at = pos 300_000_005;
  commit_index = 1;
}

found : lookup "main" app.branches ≡ some racing
unfolding app served Registry.create_repo
found = refl

handle_all-new_simulator-IsClonable_example : IsClonable toy toy_objects toy_laws app "main" racing
unfolding served
handle_all-new_simulator-IsClonable_example =
    handle_all-new_simulator-IsClonable toy toy_objects toy_laws packs world clock pause now quote
      (λ d s i. i) (λ s i. i) parse_host "http://h" content (vendor ∷ []) requests 0 app "main"
      racing leads found

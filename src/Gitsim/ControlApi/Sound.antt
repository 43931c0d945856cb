-- ===== src/Gitsim/ControlApi/Sound.antt =====
-- The invariant of Simulator and the handlers of pkg/gitsim/http_api.go.
use git_simulator.Base.{ℕ, String, refl, Option, none, some, List, ℤ}
use git_simulator.Core.Errors.{Result, ok, err}
use git_simulator.Core.Exec.{Exec}
use git_simulator.Store.Git.{Git, GitLaws}
use git_simulator.Emitter.World.{World}
use git_simulator.Emitter.Send.{Sent}
use git_simulator.Scenario.Env.{Env}
use git_simulator.Scenario.PushN.{PushNSpec, run_push_n}
use git_simulator.Scenario.Mixed.{MixedSpec, run_mixed}
use git_simulator.Scenario.Race.{RaceSpec, run_race}
use git_simulator.Scenario.Stays.{Stays, Closed, run_push_n-Stays, run_mixed-Stays, run_race-Stays}
use git_simulator.Gitsim.Options.{PushOption, WebhookOption}
use git_simulator.Gitsim.Simulator.{Simulator, HandleRef, webhook}
use git_simulator.Gitsim.Simulator.Sound.{IsSound, same-IsSound}
use git_simulator.Gitsim.Simulator.Handles.{on_handle-IsSound, visible_commit-Safe, push-Safe}
use git_simulator.Gitsim.Simulator.Calls.{create_repo-IsSound}
use git_simulator.Gitsim.Simulator.Webhooks.{webhook-OnlyEvents}
use git_simulator.Gitsim.ControlApi.{
  CreateRepoReq, AddCommitReq, FireWebhookReq, created, handle_create_repo, or_main, committed,
  push_to, push_options, add_commit_to, handle_add_commit, fired, fire_webhook_of,
  handle_fire_webhook, webhook_options, fire_options, fire_result, make_fire_func, handle_env, ran,
  run_scenario, decoded, handle_scenario_push_n, handle_scenario_race, handle_scenario_mixed,
}

module _ (g : Git) (laws : GitLaws g) (clock : ℕ → ℤ) where
  created-state : (x : Result HandleRef × Simulator g) → IsSound g x.1 → IsSound g (created g x).1
  unfolding created
  created-state (ok ref, s) i = i
  created-state (err e, s) i = i

  pub handle_create_repo-IsSound :
      (body : Result CreateRepoReq) (s : Simulator g)
      → IsSound g s
      → IsSound g (handle_create_repo g clock body s).1
  unfolding handle_create_repo
  handle_create_repo-IsSound (err e) s i = i
  handle_create_repo-IsSound (ok req) s i = created-state _ (
      create_repo-IsSound g laws clock req.vendor req.owner req.repo (or_main g req.default_branch)
        s i)

  push_to-IsSound :
      (ref : HandleRef) (opts : List PushOption) → Stays (IsSound g) (push_to g clock ref opts)
  unfolding push_to
  push_to-IsSound ref opts s i =
      on_handle-IsSound g _ ref _ s (λ v. push-Safe g laws clock s.content opts v) i

  committed-state :
      (x : Result String × Simulator g) → IsSound g x.1 → IsSound g (committed g clock x).1
  unfolding committed
  committed-state (ok sha, s) i = i
  committed-state (err e, s) i = i

  add_commit_to-IsSound :
      (id : String) (o : Option HandleRef) (body : Result AddCommitReq) (s : Simulator g)
      → IsSound g s
      → IsSound g (add_commit_to g clock id o body s).1
  unfolding add_commit_to
  add_commit_to-IsSound id none body s i = i
  add_commit_to-IsSound id (some ref) (err e) s i = i
  add_commit_to-IsSound id (some ref) (ok req) s i =
      committed-state (push_to g clock ref (push_options req) s)
        (push_to-IsSound ref (push_options req) s i)

  pub handle_add_commit-IsSound :
      (vendor owner repo : String) (body : Result AddCommitReq) (s : Simulator g)
      → IsSound g s
      → IsSound g (handle_add_commit g clock vendor owner repo body s).1
  unfolding handle_add_commit
  handle_add_commit-IsSound vendor owner repo body s i = add_commit_to-IsSound _ _ body s i

  module _ (w : World) where
    webhook-IsSound :
        (ref : HandleRef) (sha : String) (opts : List WebhookOption) (s : Simulator g)
        → IsSound g s
        → IsSound g (webhook g w ref sha opts s).1
    webhook-IsSound ref sha opts s i =
        let (h, only) = webhook-OnlyEvents g w s ref sha opts in
        rw only (same-IsSound g s _ refl refl refl i)

    fired-state : (x : Sent × Simulator g) → IsSound g x.1 → IsSound g (fired g clock w x).1
    unfolding fired
    fired-state ((o, none), s) i = i
    fired-state ((o, some e), s) i = i

    fire_webhook_of-IsSound :
        (id : String) (o : Option HandleRef) (body : Result FireWebhookReq) (s : Simulator g)
        → IsSound g s
        → IsSound g (fire_webhook_of g clock w id o body s).1
    unfolding fire_webhook_of
    fire_webhook_of-IsSound id none body s i = i
    fire_webhook_of-IsSound id (some ref) (err e) s i = i
    fire_webhook_of-IsSound id (some ref) (ok req) s i =
        fired-state (webhook g w ref req.sha (webhook_options req) s)
          (webhook-IsSound ref req.sha (webhook_options req) s i)

    pub handle_fire_webhook-IsSound :
        (vendor owner repo : String) (body : Result FireWebhookReq) (s : Simulator g)
        → IsSound g s
        → IsSound g (handle_fire_webhook g clock w vendor owner repo body s).1
    unfolding handle_fire_webhook
    handle_fire_webhook-IsSound vendor owner repo body s i = fire_webhook_of-IsSound _ _ body s i

    result-state : (x : Sent × Simulator g) → IsSound g x.1 → IsSound g (fire_result g clock w x).1
    unfolding fire_result
    result-state ((o, none), s) i = i
    result-state ((o, some e), s) i = i

    make_fire_func-IsSound :
        (ref : HandleRef) (sha url key : String) (d : ℤ)
        → Stays (IsSound g) (make_fire_func g clock w ref sha url key d)
    unfolding make_fire_func
    make_fire_func-IsSound ref sha url key d s i =
        result-state (webhook g w ref sha (fire_options url key d) s)
          (webhook-IsSound ref sha (fire_options url key d) s i)

    module _ (pause : ℤ → Exec (Simulator g) (Unit {0})) (now : Simulator g → ℤ × Simulator g)
        (paused : (d : ℤ) → Stays (IsSound g) (pause d))
        (read : (s : Simulator g) → IsSound g s → IsSound g (now s).1) where
      pub handle_env-Closed :
          (ref : HandleRef) (s : Simulator g)
          → Closed (IsSound g) (handle_env g clock w pause now ref s)
      unfolding handle_env
      handle_env-Closed ref s₀ = record {
        visible = λ b s i.
            on_handle-IsSound g _ ref _ s (λ v. visible_commit-Safe g laws clock s.content b v) i;
        pushed = λ b d. push_to-IsSound ref _;
        fired = make_fire_func-IsSound ref;
        paused = paused;
        read_now = read;
      }

      ran-state :
          {A : Type 0} (x : Result A × Simulator g)
          → IsSound g x.1
          → IsSound g (ran g clock w pause now x).1
      unfolding ran
      ran-state (ok a, s) i = i
      ran-state (err e, s) i = i

      run_scenario-IsSound :
          {A : Type 0} (id : String) (o : Option HandleRef)
          (scenario : Env (Simulator g) → Exec (Simulator g) A)
          → ((env : Env (Simulator g)) → Closed (IsSound g) env → Stays (IsSound g) (scenario env))
          → (s : Simulator g) → IsSound g s
          → IsSound g (run_scenario g clock w pause now id o scenario s).1
      unfolding run_scenario
      run_scenario-IsSound id none scenario keeps s i = i
      run_scenario-IsSound id (some ref) scenario keeps s i =
          let env = handle_env g clock w pause now ref s in
          ran-state (scenario env s) (keeps env (handle_env-Closed ref s) s i)

      decoded-IsSound :
          {Spec A : Type 0} (repo_id : Spec → String)
          (scenario : Spec → Env (Simulator g) → Exec (Simulator g) A)
          → ((spec : Spec) (env : Env (Simulator g))
              → Closed (IsSound g) env
              → Stays (IsSound g) (scenario spec env))
          → (body : Result Spec) (s : Simulator g) → IsSound g s
          → IsSound g (decoded g clock w pause now repo_id scenario body s).1
      unfolding decoded
      decoded-IsSound repo_id scenario keeps (err e) s i = i
      decoded-IsSound repo_id scenario keeps (ok spec) s i =
          run_scenario-IsSound (repo_id spec) _ (scenario spec) (keeps spec) s i

      pub handle_scenario_push_n-IsSound :
          (swaps : List (ℕ × ℕ)) (body : Result (String × PushNSpec)) (s : Simulator g)
          → IsSound g s
          → IsSound g (handle_scenario_push_n g clock w pause now swaps body s).1
      unfolding handle_scenario_push_n
      handle_scenario_push_n-IsSound swaps body s i =
          decoded-IsSound (λ b. b.0) (λ b env. run_push_n env swaps b.1)
            (λ b env c. run_push_n-Stays (IsSound g) env c swaps b.1) body s i

      pub handle_scenario_race-IsSound :
          (body : Result (String × RaceSpec)) (s : Simulator g)
          → IsSound g s
          → IsSound g (handle_scenario_race g clock w pause now body s).1
      unfolding handle_scenario_race
      handle_scenario_race-IsSound body s i =
          decoded-IsSound (λ b. b.0) (λ b env. run_race env b.1)
            (λ b env c. run_race-Stays (IsSound g) env c b.1) body s i

      pub handle_scenario_mixed-IsSound :
          (body : Result (String × MixedSpec)) (s : Simulator g)
          → IsSound g s
          → IsSound g (handle_scenario_mixed g clock w pause now body s).1
      unfolding handle_scenario_mixed
      handle_scenario_mixed-IsSound body s i =
          decoded-IsSound (λ b. b.0) (λ b env. run_mixed env b.1)
            (λ b env c. run_mixed-Stays (IsSound g) env c b.1) body s i

-- ===== src/Scenario/Mixed.antt =====
-- RunMixed of pkg/scenario/mixed.go.
pub mod Laws
use git_simulator.Base.{
  ℕ, zero, suc, String, ◌==◌, Bool, true, false, if◌then◌else◌, ltb_ℤ, Option, none, some, List, [],
  ◌∷◌, map, ℤ, pos, ◌-ℤ◌, itoa, set, replicate, length, sort_stable, wrap64, scale,
}
use git_simulator.Core.Errors.{Error, message, Result, ok, err, wrap}
use git_simulator.Core.Exec.{Exec, pure, fail, lift, continue, ◌>>=◌, ◌>>◌}
use git_simulator.Scenario.Env.{Env, WebhookResult, millis, branch_or}
use git_simulator.Scenario.Pushes.{push_all}

pub record MixedCommit : Type 0 where
  pub head_delay_ms : ℤ
  pub send_after_ms : ℤ

pub record MixedSpec : Type 0 where
  pub branch : String
  pub commits : List MixedCommit
  pub secret : String
  pub target : String

pub record MixedResult : Type 0 where
  pub shas : List String
  pub webhook_results : List WebhookResult

pub record Job : Type 0 where
  pub orig_idx : ℕ
  pub sha : String
  pub send_at : ℤ

abbrev pub job_time : Job → ℤ
job_time j = j.send_at

-- jobs[i], from an index on; there are as many hashes as commits
unfoldable pub jobs_from : ℕ → List MixedCommit → List String → List Job
jobs_from i (c ∷ cs) (sha ∷ shas) =
    record { orig_idx = i; sha = sha; send_at = millis c.send_after_ms } ∷ jobs_from (suc i) cs shas
jobs_from i _ _ = []

abbrev pub zero_result : WebhookResult
zero_result = record { status_code = 0; body = []; error = none }

module _ {S : Type 0} (env : Env S) where
  -- The wait before a job that is due at `send_at` after `start`.
  unfoldable pub wait_for : ℤ → ℤ → Exec S (Unit {0})
  wait_for start send_at s =
      let (now, s') = env.now s in
      let remaining = send_at -ℤ (now -ℤ start) in
      let waited = if ltb_ℤ (pos 0) remaining then env.pause remaining s' else pure tt s' in
      if ltb_ℤ (pos 0) send_at then waited else pure tt s

  unfoldable pub fire_job : MixedSpec → Job → Exec S WebhookResult
  fire_job spec j s =
      let (r, s') = env.fire j.sha spec.target spec.secret (pos 0) s in
      (wrap "scenario: webhook for commit %d: %w" (itoa j.orig_idx ∷ []) r, s')

  -- for _, j := range jobs
  unfoldable pub run_jobs :
      MixedSpec → ℤ → List Job → List WebhookResult → Exec S (List WebhookResult)
  unfolding wait_for fire_job
  run_jobs spec start [] results = pure results
  run_jobs spec start (j ∷ jobs) results = do
    wait_for start j.send_at
    result ← fire_job spec j
    run_jobs spec start jobs (set results j.orig_idx result)

  unfoldable pub start_jobs : MixedSpec → List Job → Exec S (List WebhookResult)
  unfolding run_jobs
  start_jobs spec jobs s =
      let (start, s') = env.now s in
      run_jobs spec start jobs (replicate (length spec.commits) zero_result) s'

  unfoldable pub mix : MixedSpec → Exec S MixedResult
  unfolding start_jobs push_all jobs_from sort_stable
  mix spec = do
    shas ←
        push_all env (branch_or env.default_branch spec.branch) 0
          (map (λ c. millis c.head_delay_ms) spec.commits)
    results ← start_jobs spec (sort_stable job_time (jobs_from 0 spec.commits shas))
    pure (record { shas = shas; webhook_results = results })

  unfoldable pub checked : MixedSpec → List MixedCommit → Exec S MixedResult
  unfolding mix
  checked spec [] = fail (message "scenario: Mixed requires at least one commit" [])
  checked spec (_ ∷ _) =
      if spec.target == ""
      then fail (message "scenario: Mixed requires a Target URL" [])
      else mix spec

  -- RunMixed(ctx, repo, fire, spec)
  unfoldable pub run_mixed : MixedSpec → Exec S MixedResult
  unfolding checked
  run_mixed spec = checked spec spec.commits

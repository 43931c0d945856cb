-- ===== src/Scenario/Race.antt =====
-- RunRace of pkg/scenario/race.go.
pub mod Laws
use git_simulator.Base.{
  String, ◌==◌, Bool, true, false, if◌then◌else◌, List, [], ◌∷◌, ℤ, pos, wrap64, scale,
}
use git_simulator.Core.Errors.{Error, message, Result, ok, err, wrap}
use git_simulator.Core.Exec.{Exec, pure, fail, continue, ◌>>=◌}
use git_simulator.Scenario.Env.{Env, WebhookResult, millis, branch_or}

pub record RaceSpec : Type 0 where
  pub branch : String
  pub head_delay_ms : ℤ
  pub secret : String
  pub target : String

pub record RaceResult : Type 0 where
  pub old_sha : String
  pub new_sha : String
  pub webhook_result : WebhookResult

module _ {S : Type 0} (env : Env S) where
  unfoldable pub push_race : String → RaceSpec → Exec S String
  push_race branch spec s =
      let (r, s') = env.push_commit branch (millis spec.head_delay_ms) s in
      (wrap "scenario: push: %w" [] r, s')

  unfoldable pub fire_race : RaceSpec → String → Exec S WebhookResult
  fire_race spec sha s =
      let (r, s') = env.fire sha spec.target spec.secret (pos 0) s in
      (wrap "scenario: webhook: %w" [] r, s')

  -- From the old hash on.
  unfoldable pub race_from : String → RaceSpec → String × Bool → Exec S RaceResult
  unfolding push_race fire_race
  race_from branch spec (old_sha, false) =
      fail (message "scenario: branch %q not found" (branch ∷ []))
  race_from branch spec (old_sha, true) = do
    new_sha ← push_race branch spec
    result ← fire_race spec new_sha
    pure (record { old_sha = old_sha; new_sha = new_sha; webhook_result = result })

  -- RunRace(ctx, repo, fire, spec)
  unfoldable pub run_race : RaceSpec → Exec S RaceResult
  unfolding race_from
  run_race spec s =
      let branch = branch_or env.default_branch spec.branch in
      let (seen, s') = env.visible_commit branch s in
      let raced = race_from branch spec seen s' in
      if spec.target == ""
      then fail (message "scenario: Race requires a Target URL" []) s
      else raced

-- ===== src/Scenario/Race/Laws.antt =====
-- RunRace: what has happened when it returns no error, on any repository.
use git_simulator.Base.{
  String, ◌==◌, Bool, Bool-cases, true, false, pos, ◌≡◌, refl, ap, ◌∙◌, sym, inl, inr, subst,
}
use git_simulator.Core.Errors.{ok, wrap-ok, ok_inj}
use git_simulator.Core.Exec.{bind-runs}
use git_simulator.Scenario.Env.{Env, WebhookResult, millis, branch_or}
use git_simulator.Scenario.Race.{RaceSpec, RaceResult, push_race, fire_race, race_from, run_race}

module _ {S : Type 0} (env : Env S) (spec : RaceSpec) where
  -- From a state where a branch was read: it is pushed to, and the webhook of the new commit posted.
  pub record Raced (branch : String) (s : S) (r : RaceResult) (end : S) : Type 0 where
    pub pushed : (env.push_commit branch (millis spec.head_delay_ms) s).0 ≡ ok r.new_sha
    pub fired :
        (env.fire r.new_sha spec.target spec.secret
          (pos 0)
          (env.push_commit branch (millis spec.head_delay_ms) s).1).0
        ≡ ok r.webhook_result
    pub ends :
        end
        ≡ (env.fire r.new_sha spec.target spec.secret
            (pos 0)
            (env.push_commit branch (millis spec.head_delay_ms) s).1).1

  Raced-of_parts :
      (branch old sha : String) (result : WebhookResult) (s end : S)
      → (push_race env branch spec s).0 ≡ ok sha
      → (fire_race env spec sha (env.push_commit branch (millis spec.head_delay_ms) s).1).0
        ≡ ok result
      → end
        ≡ (env.fire sha spec.target spec.secret
            (pos 0)
            (env.push_commit branch (millis spec.head_delay_ms) s).1).1
      → Raced branch s (record { old_sha = old; new_sha = sha; webhook_result = result }) end
  unfolding push_race fire_race
  Raced-of_parts branch old sha result s end p q e = record {
    pushed = wrap-ok _ _ _ sha p;
    fired = wrap-ok _ _ _ result q;
    ends = e;
  }

  race_from-Raced :
      (branch : String) (seen : String × Bool) (s : S) (r : RaceResult)
      → (race_from env branch spec seen s).0 ≡ ok r
      → (seen ≡ (r.old_sha, true)) × Raced branch s r (race_from env branch spec seen s).1
  unfolding race_from push_race fire_race
  race_from-Raced branch (old, false) s r h = cc
  race_from-Raced branch (old, true) s r h =
      let (sha, made, run₁) = bind-runs (push_race env branch spec) _ s r h in
      let (result, posted, run₂) =
        bind-runs (fire_race env spec sha) _ _ r (ap (λ x. x.0) (sym run₁) ∙ h) in
      subst
        (λ r'.
          ◌≡◌ {A = String × Bool} (old, true) (r'.old_sha, true)
          × Raced branch s r' (race_from env branch spec (old, true) s).1)
        (ok_inj (ap (λ x. x.0) (sym (run₁ ∙ run₂)) ∙ h))
        (refl, Raced-of_parts branch old sha result s _ made posted (ap (λ x. x.1) (run₁ ∙ run₂)))

  -- When RunRace returns no error, the branch was read as OldSHA, then NewSHA was pushed with the
  -- spec's delay, then the webhook of NewSHA was posted without a delay, and nothing after that.
  pub run_race-Raced :
      (s : S) (r : RaceResult)
      → (run_race env spec s).0 ≡ ok r
      → ((env.visible_commit (branch_or env.default_branch spec.branch) s).0 ≡ (r.old_sha, true))
        × Raced
            (branch_or env.default_branch spec.branch)
            (env.visible_commit (branch_or env.default_branch spec.branch) s).1
            r
            (run_race env spec s).1
  unfolding run_race
  run_race-Raced s r h = elim (Bool-cases (spec.target == "")) [
    | inl t ↦ let h' = rw t at h in cc
    | inr t ↦ rw t (race_from-Raced _ _ _ r (rw t at h))
  ]

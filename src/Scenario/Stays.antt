-- ===== src/Scenario/Stays.antt =====
-- Predicates on states and the scenarios of pkg/scenario.
use git_simulator.Base.{
  ℕ, zero, suc, String, ◌==◌, Bool, Bool-cases, true, false, Option, none, some, List, [], ◌∷◌, ℤ,
  pos, negsuc, inl, inr, ltb_ℤ, ◌-ℤ◌, replicate, map, length, sort_stable,
}
use git_simulator.Core.Errors.{Result, ok, err}
use git_simulator.Core.Exec.{Exec, pure, continue, ◌>>=◌}
use git_simulator.Scenario.Env.{Env, WebhookResult, branch_or, millis}
use git_simulator.Scenario.Order.{resolve_order}
use git_simulator.Scenario.Pushes.{push_one, push_all}
use git_simulator.Scenario.PushN.{
  PushNResult, PushNSpec, at_index, gap, post_one, post_all, push_n, checked, run_push_n,
}
use git_simulator.Scenario.Mixed.{
  MixedResult, jobs_from, job_time, zero_result, MixedSpec, Job, MixedCommit, wait_for, fire_job,
  run_jobs, start_jobs, mix, run_mixed,
}
use git_simulator.Scenario.Mixed
use git_simulator.Scenario.Race.{RaceSpec, push_race, fire_race, race_from, run_race}

module _ {S : Type 0} (P : S → Type 0) where
  -- However the action ends, P holds after it if it held before.
  abbrev pub Stays : {A : Type 0} → Exec S A → Type 0
  Stays m = (s : S) → P s → P (m s).1

  pub Stays-bind :
      {A B : Type 0} (m : Exec S A) (f : A → Exec S B)
      → Stays m
      → ((a : A) → Stays (f a))
      → Stays (m >>= f)
  Stays-bind {A} {B} m f km kf s p = continued (m s).0 (km s p)
    where
      continued : (r : Result A) → P (m s).1 → P (continue r f (m s).1).1
      continued (ok a) q = kf a (m s).1 q
      continued (err e) q = q

  pub record Closed (env : Env S) : Type 0 where
    pub visible : (b : String) (s : S) → P s → P (env.visible_commit b s).1
    pub pushed : (b : String) (d : ℤ) → Stays (env.push_commit b d)
    pub fired : (sha target secret : String) (d : ℤ) → Stays (env.fire sha target secret d)
    pub paused : (d : ℤ) → Stays (env.pause d)
    pub read_now : (s : S) → P s → P (env.now s).1

  module _ (env : Env S) (c : Closed env) where
    push_all-Stays : (b : String) (i : ℕ) (delays : List ℤ) → Stays (push_all env b i delays)
    unfolding push_all push_one
    push_all-Stays b i [] = λ s p. p
    push_all-Stays b i (d ∷ delays) =
        Stays-bind (push_one env b i d) _ (λ s p. c.pushed b d s p)
          (λ sha.
            Stays-bind (push_all env b (suc i) delays) _ (push_all-Stays b (suc i) delays)
              (λ shas s p. p))

    gap-Stays : (i : ℕ) (ms : ℤ) → Stays (gap env i ms)
    unfolding gap
    gap-Stays zero ms s p = p
    gap-Stays (suc i) ms s p = elim (Bool-cases (ltb_ℤ (pos 0) ms)) [
      | inl e ↦ rw e (c.paused _ s p)
      | inr e ↦ rw e p
    ]

    post_one-Stays :
        (spec : PushNSpec) (idx : ℤ) (o : Option String) → Stays (post_one env spec idx o)
    unfolding post_one
    post_one-Stays spec idx none s p = p
    post_one-Stays spec idx (some sha) s p = c.fired sha spec.target spec.secret _ s p

    post_all-Stays :
        (spec : PushNSpec) (shas : List String) (i : ℕ) (order : List ℤ)
        → Stays (post_all env spec shas i order)
    unfolding post_all
    post_all-Stays spec shas i [] = λ s p. p
    post_all-Stays spec shas i (idx ∷ order) =
        Stays-bind (gap env i spec.gap_ms) _ (gap-Stays i spec.gap_ms) (λ _.
          Stays-bind (post_one env spec idx (at_index shas idx)) _
            (post_one-Stays spec idx (at_index shas idx))
            (λ r.
              Stays-bind (post_all env spec shas (suc i) order) _
                (post_all-Stays spec shas (suc i) order) (λ rs s p. p)))

    push_n-Stays :
        (swaps : List (ℕ × ℕ)) (spec : PushNSpec) (n : ℕ) → Stays (push_n env swaps spec n)
    unfolding push_n
    push_n-Stays swaps spec n =
        let branch = branch_or env.default_branch spec.branch in
        let delays = replicate n (pos 0) in
        let order = resolve_order swaps n spec.order spec.custom_order in
        let result : List String → List WebhookResult → PushNResult =
          λ shas rs. record { commits = shas; delivery_order = order; responses = rs } in
        Stays-bind {B = PushNResult} (push_all env branch 0 delays)
          (λ shas. post_all env spec shas 0 order >>= (λ rs. pure (result shas rs)))
          (push_all-Stays branch 0 delays)
          (λ shas.
            Stays-bind {B = PushNResult} (post_all env spec shas 0 order)
              (λ rs. pure (result shas rs)) (post_all-Stays spec shas 0 order) (λ rs s p. p))

    checked-Stays :
        (swaps : List (ℕ × ℕ)) (spec : PushNSpec) (n : ℤ) → Stays (checked env swaps spec n)
    unfolding checked
    checked-Stays swaps spec (negsuc n) s p = p
    checked-Stays swaps spec (pos zero) s p = p
    checked-Stays swaps spec (pos (suc n)) s p = elim (Bool-cases (spec.target == "")) [
      | inl e ↦ rw e p
      | inr e ↦ rw e (push_n-Stays swaps spec (suc n) s p)
    ]

    pub run_push_n-Stays :
        (swaps : List (ℕ × ℕ)) (spec : PushNSpec) → Stays (run_push_n env swaps spec)
    unfolding run_push_n
    run_push_n-Stays swaps spec = checked-Stays swaps spec spec.n

    wait_for-Stays : (start send_at : ℤ) → Stays (wait_for env start send_at)
    unfolding wait_for
    wait_for-Stays start send_at s p =
        let (t, s') = env.now s in
        elim (Bool-cases (ltb_ℤ (pos 0) send_at)) [
          | inr e ↦ rw e p
          | inl e ↦ elim (Bool-cases (ltb_ℤ (pos 0) (send_at -ℤ (t -ℤ start)))) [
            | inl f ↦ rw (e, f) (c.paused _ s' (c.read_now s p))
            | inr f ↦ rw (e, f) (c.read_now s p)
          ]
        ]

    run_jobs-Stays :
        (spec : MixedSpec) (start : ℤ) (jobs : List Job) (results : List WebhookResult)
        → Stays (run_jobs env spec start jobs results)
    unfolding run_jobs fire_job
    run_jobs-Stays spec start [] results = λ s p. p
    run_jobs-Stays spec start (j ∷ jobs) results =
        Stays-bind (wait_for env start j.send_at) _ (wait_for-Stays start j.send_at) (λ _.
          Stays-bind (fire_job env spec j) _ (λ s p. c.fired j.sha spec.target spec.secret _ s p)
            (λ r. run_jobs-Stays spec start jobs _))

    mix-Stays : (spec : MixedSpec) → Stays (mix env spec)
    unfolding mix start_jobs
    mix-Stays spec =
        let branch = branch_or env.default_branch spec.branch in
        let delays = map (λ c. millis c.head_delay_ms) spec.commits in
        let jobs : List String → List Job =
          λ shas. sort_stable job_time (jobs_from 0 spec.commits shas) in
        let result : List String → List WebhookResult → MixedResult =
          λ shas rs. record { shas = shas; webhook_results = rs } in
        Stays-bind {B = MixedResult} (push_all env branch 0 delays)
          (λ shas. start_jobs env spec (jobs shas) >>= (λ rs. pure (result shas rs)))
          (push_all-Stays branch 0 delays)
          (λ shas.
            Stays-bind {B = MixedResult} (start_jobs env spec (jobs shas))
              (λ rs. pure (result shas rs))
              (λ s p.
                run_jobs-Stays spec (env.now s).0 (jobs shas)
                  (replicate (length spec.commits) zero_result) (env.now s).1 (c.read_now s p))
              (λ rs s p. p))

    mixed-Stays : (spec : MixedSpec) (cs : List MixedCommit) → Stays (Mixed.checked env spec cs)
    unfolding Mixed.checked
    mixed-Stays spec [] s p = p
    mixed-Stays spec (_ ∷ _) s p = elim (Bool-cases (spec.target == "")) [
      | inl e ↦ rw e p
      | inr e ↦ rw e (mix-Stays spec s p)
    ]

    pub run_mixed-Stays : (spec : MixedSpec) → Stays (run_mixed env spec)
    unfolding run_mixed
    run_mixed-Stays spec = mixed-Stays spec spec.commits

    race_from-Stays :
        (b : String) (spec : RaceSpec) (seen : String × Bool) → Stays (race_from env b spec seen)
    unfolding race_from push_race fire_race
    race_from-Stays b spec (old, false) = λ s p. p
    race_from-Stays b spec (old, true) =
        Stays-bind (push_race env b spec) _ (λ s p. c.pushed b _ s p)
          (λ sha.
            Stays-bind (fire_race env spec sha) _ (λ s p. c.fired sha spec.target spec.secret _ s p)
              (λ r s p. p))

    pub run_race-Stays : (spec : RaceSpec) → Stays (run_race env spec)
    unfolding run_race
    run_race-Stays spec s p = elim (Bool-cases (spec.target == "")) [
      | inl e ↦ rw e p
      | inr e ↦ rw e (race_from-Stays _ spec _ _ (c.visible _ s p))
    ]

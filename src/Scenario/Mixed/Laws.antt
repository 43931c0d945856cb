-- ===== src/Scenario/Mixed/Laws.antt =====
-- RunMixed: the results are those of the commits, whatever the order of the webhooks.
use git_simulator.Base.{
  ℕ, zero, suc, ◌+◌, String, ◌==◌, Bool-cases, some, some_inj, List, [], ◌∷◌, ◌++◌, ℤ, pos, set,
  length, get_elem?, length-replicate, length-set, length-snoc, length-map, map, append_cons,
  get_elem?-append_length, get_elem?-below, get_elem?-set_self, get_elem?-set_ne, lt_of_get_elem?,
  sort_stable, sort_stable-Has, sort_stable-All, Has, All, ℕ-cases, arith, ◌≡◌, refl, sym, ◌∙◌, ap,
  subst, inl, inr, ◌⊎◌,
}
use git_simulator.Core.Errors.{ok, wrap-ok, ok_inj}
use git_simulator.Core.Exec.{bind-ok, bind-done}
use git_simulator.Scenario.Env.{Env, WebhookResult, millis, branch_or}
use git_simulator.Scenario.Pushes.{push_all, Pushes, length-Pushes, push_all-Pushes}
use git_simulator.Scenario.Mixed.{
  MixedCommit, MixedSpec, MixedResult, Job, job_time, jobs_from, zero_result, wait_for, fire_job,
  run_jobs, start_jobs, mix, checked, run_mixed,
}

abbrev job : ℕ → String → MixedCommit → Job
job i sha c = record { orig_idx = i; sha = sha; send_at = millis c.send_after_ms }

-- The job stands for the hash at its index.
abbrev Faithful : List String → Job → Type 0
Faithful shas j = get_elem? shas j.orig_idx ≡ some j.sha

jobs_from-Has :
    (k i j : ℕ) (c : MixedCommit) (sha : String) (cs : List MixedCommit) (shas : List String)
    → j ≡ i + k
    → get_elem? cs i ≡ some c
    → get_elem? shas i ≡ some sha
    → Has (job j sha c) (jobs_from k cs shas)
unfolding jobs_from
jobs_from-Has k i j c sha [] shas p h h' = cc
jobs_from-Has k i j c sha (c' ∷ cs) [] p h h' = cc
jobs_from-Has k zero j c sha (c' ∷ cs) (sha' ∷ shas) p h h' =
    let q : j ≡ k = omega arith in
    let same_commit = some_inj h in let same_sha = some_inj h' in inl (cc)
jobs_from-Has k (suc i) j c sha (c' ∷ cs) (sha' ∷ shas) p h h' =
    inr (jobs_from-Has (suc k) i j c sha cs shas (omega arith) h h')

jobs_from-Faithful :
    (before shas all : List String) (cs : List MixedCommit)
    → before ++ shas ≡ all
    → All (Faithful all) (jobs_from (length before) cs shas)
unfolding jobs_from
jobs_from-Faithful before shas all [] p = tt
jobs_from-Faithful before [] all (c ∷ cs) p = tt
jobs_from-Faithful before (sha ∷ shas) all (c ∷ cs) p = (
  subst (λ zs. get_elem? zs (length before) ≡ some sha) p (get_elem?-append_length before shas sha),
  subst (λ k. All (Faithful all) (jobs_from k cs shas)) (length-snoc before sha)
      (jobs_from-Faithful (before ++ sha ∷ []) shas all cs (append_cons before sha shas ∙ p)),
)

module _ {S : Type 0} (env : Env S) (spec : MixedSpec) where
  -- The i-th result is the answer to the webhook of `sha`.
  pub record Answered (i : ℕ) (sha : String) (results : List WebhookResult) : Type 0 where
    pub result : WebhookResult
    pub at_place : get_elem? results i ≡ some result
    pub state : S
    pub answers : (env.fire sha spec.target spec.secret (pos 0) state).0 ≡ ok result

  -- The answer to a job is put at its index, and moves no other.
  stored-Answered :
      (shas : List String) (i : ℕ) (sha : String) (c : MixedCommit) (j : Job) (jobs : List Job)
      (results : List WebhookResult) (s : S) (result : WebhookResult)
      → get_elem? shas i ≡ some sha
      → Faithful shas j
      → length results ≡ length shas
      → (env.fire j.sha spec.target spec.secret (pos 0) s).0 ≡ ok result
      → Has (job i sha c) (j ∷ jobs) ⊎ Answered i sha results
      → Has (job i sha c) jobs ⊎ Answered i sha (set results j.orig_idx result)
  stored-Answered shas i sha c j jobs results s result found faithful long fired pending =
      elim (ℕ-cases j.orig_idx i) [
        | inl p ↦
            let (r, at) =
              get_elem?-below results i (omega (arith, long, lt_of_get_elem? shas i sha found)) in
            let same : some j.sha ≡ some sha = cc in
            inr (record {
              result = result;
              at_place =
                  subst (λ k. get_elem? (set results k result) i ≡ some result) (sym p)
                    (get_elem?-set_self results i result r at);
              state = s;
              answers =
                  subst (λ x. (env.fire x spec.target spec.secret (pos 0) s).0 ≡ ok result)
                    (some_inj same) fired;
            })
        | inr p ↦ elim pending [
          | inl (inl q) ↦ absurd (p (sym (ap (λ y. y.orig_idx) q)))
          | inl (inr q) ↦ inl q
          | inr a ↦ inr (record {
            result = a.result;
            at_place = get_elem?-set_ne results j.orig_idx i result p ∙ a.at_place;
            state = a.state;
            answers = a.answers;
          })
        ]
      ]

  fire_job-fired :
      (j : Job) (s : S) (result : WebhookResult)
      → (fire_job env spec j s).0 ≡ ok result
      → (env.fire j.sha spec.target spec.secret (pos 0) s).0 ≡ ok result
  unfolding fire_job
  fire_job-fired j s result h = wrap-ok _ _ _ result h

  run_jobs-Answered :
      (start : ℤ) (shas : List String) (i : ℕ) (sha : String) (c : MixedCommit)
      → get_elem? shas i ≡ some sha
      → (jobs : List Job) (results final : List WebhookResult) (s : S) → All (Faithful shas) jobs
      → length results ≡ length shas
      → Has (job i sha c) jobs ⊎ Answered i sha results
      → (run_jobs env spec start jobs results s).0 ≡ ok final
      → Answered i sha final
  unfolding run_jobs
  run_jobs-Answered start shas i sha c found [] results final s f long (inl q) h = absurd q
  run_jobs-Answered start shas i sha c found [] results final s f long (inr a) h =
      subst (Answered i sha) (ok_inj h) a
  run_jobs-Answered start shas i sha c found (j ∷ jobs) results final s f long pending h =
      let (_, waited, left) = bind-ok (wait_for env start j.send_at) _ s final h in
      let (result, fired, done) = bind-ok (fire_job env spec j) _ _ final left in
      run_jobs-Answered start shas i sha c found jobs (set results j.orig_idx result) final _ f.1
        (length-set results j.orig_idx result ∙ long)
        (stored-Answered shas i sha c j jobs results _ result found f.0 long
          (fire_job-fired j _ result fired) pending)
        done

  -- The delays of the spec's commits.
  abbrev pub head_delays : List ℤ
  head_delays = map (λ c. millis c.head_delay_ms) spec.commits

  -- What RunMixed has done: a push for each commit with its delay, from the state where it began.
  pub record Mixed (s : S) (r : MixedResult) : Type 0 where
    pub after_pushes : S
    pub pushes :
        Pushes env (branch_or env.default_branch spec.branch) head_delays r.shas s after_pushes
    pub answers :
        (i : ℕ) (sha : String) → get_elem? r.shas i ≡ some sha → Answered i sha r.webhook_results

  mix-Mixed : (s : S) (r : MixedResult) → (mix env spec s).0 ≡ ok r → Mixed s r
  unfolding mix start_jobs
  mix-Mixed s r h =
      let branch = branch_or env.default_branch spec.branch in
      let (shas, u, made, left) =
        bind-done (push_all env branch 0 head_delays) _ s _ r
          (ap (λ x. (x, (mix env spec s).1)) h) in
      let jobs = sort_stable job_time (jobs_from 0 spec.commits shas) in
      let (results, posted, done) = bind-ok (start_jobs env spec jobs) _ _ r (ap (λ x. x.0) left) in
      let pushes = push_all-Pushes env branch 0 head_delays s u shas made in
      let long : length shas ≡ length spec.commits =
        length-Pushes env branch head_delays shas s u pushes ∙ length-map _ spec.commits in
      subst (Mixed s) (ok_inj done) (record {
        after_pushes = u;
        pushes = pushes;
        answers = λ i sha found.
            let (c, commit) =
              get_elem?-below spec.commits i
                (omega (arith, long, lt_of_get_elem? shas i sha found)) in
            run_jobs-Answered _ shas i sha c found jobs _ results _
              (sort_stable-All job_time (Faithful shas) _
                (jobs_from-Faithful [] shas shas spec.commits refl))
              (length-replicate (length spec.commits) zero_result ∙ sym long)
              (inl (
                sort_stable-Has job_time _ _
                  (jobs_from-Has 0 i i c sha spec.commits shas (omega arith) commit found)))
              posted;
      })

  checked-Mixed :
      (cs : List MixedCommit) (s : S) (r : MixedResult)
      → (checked env spec cs s).0 ≡ ok r
      → Mixed s r
  unfolding checked
  checked-Mixed [] s r h = cc
  checked-Mixed (c ∷ cs) s r h = elim (Bool-cases (spec.target == "")) [
    | inl t ↦ let h' = rw t at h in cc
    | inr t ↦ mix-Mixed s r (rw t at h)
  ]

  -- When RunMixed returns no error, it has pushed to the branch for each commit of the spec, in their
  -- order and each with its delay, the SHAs are the hashes that the pushes returned, and the i-th
  -- result is the answer to the webhook of the i-th of them.
  pub run_mixed-Mixed : (s : S) (r : MixedResult) → (run_mixed env spec s).0 ≡ ok r → Mixed s r
  unfolding run_mixed
  run_mixed-Mixed s r h = checked-Mixed spec.commits s r h

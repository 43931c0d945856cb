-- ===== src/Gitsim/ControlApi/Window.antt =====
-- The race scenario over the control API, up to what a git client is shown after it.
use git_simulator.Base.{
  ℕ, String, ◌≡◌, refl, sym, ◌∙◌, Bool, true, false, some, List, [], ◌∷◌, ℤ, pos, subst, ap,
  get_elem?, get_elem?-set_self, some_inj, lookup, string_eq,
}
use git_simulator.Core.Errors.{message, Result, ok, err}
use git_simulator.Core.Exec.{Exec}
use git_simulator.Store.Git.{Git, GitLaws, hash}
use git_simulator.Store.Repo
use git_simulator.Store.Repo.{Repo, head_ref}
use git_simulator.Store.Repo.Race.{seen_after}
use git_simulator.Store.Registry.{key_Eq, RepoRef}
use git_simulator.Emitter.World.{World, History}
use git_simulator.Scenario.Env.{Env, millis, branch_or}
use git_simulator.Scenario.Race.{RaceSpec, RaceResult, run_race}
use git_simulator.Scenario.Race.Laws.{run_race-Raced, Raced}
use git_simulator.Gitserver.Paths.{parse_path}
use git_simulator.Gitserver.Serve.{resolve_repo}
use git_simulator.Gitserver.Serve.Laws.{resolve_repo-Current}
use git_simulator.Gitsim.Options.{PushOption, on_branch, head_delay}
use git_simulator.Gitsim.SimRepo.{SimRepo, visible_commit, push_commit, push}
use git_simulator.Gitsim.RaceWindow.{race-visible, after_read}
use git_simulator.Gitsim.Simulator.{Simulator, Handle, HandleRef, view, written, load, get_repo}
use git_simulator.Gitsim.Simulator.Sound.{key_of, IsSound, same-IsSound}
use git_simulator.Gitsim.Simulator.Handles.{on_handle-IsSound, visible_commit-Safe, push-Safe}
use git_simulator.Gitsim.ControlApi.{
  replied, push_to, handle_env, ran, run_scenario, decoded, handle_scenario_race,
}
use git_simulator.Gitsim.ControlApi.Steps.{
  race_commit, race_commit-found, replied_inj, server_error-replied, on_handle-loaded,
  visible-found, fired-OnlyEvents,
}

module _ (g : Git) (clock : ℕ → ℤ) (w : World) (pause : ℤ → Exec (Simulator g) (Unit {0}))
    (now : Simulator g → ℤ × Simulator g) where
  module _ (laws : GitLaws g) (at : ℤ) (still : (n : ℕ) → clock n ≡ at) (ref : HandleRef)
      (s : Simulator g) (sound : IsSound g s) (h : Handle) (r : Repo g)
      (there : get_elem? s.handles ref ≡ some h) (leads : get_elem? s.store.heap h.repo ≡ some r)
      (spec : RaceSpec) where
    abbrev start : SimRepo g
    start = view g h s.tick r

    abbrev branch : String
    branch = branch_or r.default_branch spec.branch

    -- The handle and the simulator after the branch was read, and after it was pushed to.
    abbrev read : SimRepo g
    read = after_read g clock s.content branch start

    abbrev s_read : Simulator g
    s_read = written g ref h read s

    abbrev h_read : Handle
    h_read = record h { sha_branch = read.sha_branch; prev_sha = read.prev_sha }

    abbrev pushed : Result String × SimRepo g
    pushed = push_commit g clock s.content branch (millis spec.head_delay_ms) read

    abbrev s_pushed : Simulator g
    s_pushed = written g ref h_read pushed.1 s_read

    abbrev env : Env (Simulator g)
    env = handle_env g clock w pause now ref s

    abbrev pushes : List PushOption
    pushes = on_branch branch ∷ head_delay (millis spec.head_delay_ms) ∷ []

    loads : load g ref s ≡ some (h, start)
    loads = rw (there, leads)

    loads_read : load g ref s_read ≡ some (h_read, read)
    unfolding visible_commit
    loads_read = rw (
      get_elem?-set_self s.handles ref h_read h there,
      get_elem?-set_self s.store.heap h.repo read.repo r leads,
    )

    is_branch : branch_or env.default_branch spec.branch ≡ branch
    unfolding handle_env
    is_branch = rw (there, leads)

    env-read :
        env.visible_commit branch s ≡ ((visible_commit g clock s.content branch start).0, s_read)
    unfolding handle_env
    env-read =
        on_handle-loaded g ("", false) ref (visible_commit g clock s.content branch) s h start loads

    env-push : env.push_commit branch (millis spec.head_delay_ms) s_read ≡ (pushed.0, s_pushed)
    unfolding handle_env push_to push_commit
    env-push =
        on_handle-loaded g (err (message "nil handle" [])) ref (push g clock s.content pushes)
          s_read h_read read loads_read

    leads_pushed : get_elem? s_pushed.store.heap h.repo ≡ some pushed.1.repo
    leads_pushed =
        get_elem?-set_self s_read.store.heap h.repo pushed.1.repo read.repo
          (get_elem?-set_self s.store.heap h.repo read.repo r leads)

    s_pushed-IsSound : IsSound g s_pushed
    unfolding push_commit
    s_pushed-IsSound =
        let act = push g clock s.content pushes in
        let nil = err (message "nil handle" []) in
        let sound' : IsSound g s_read =
          subst (IsSound g)
            (ap (λ x. x.1)
              (on_handle-loaded g ("", false) ref (visible_commit g clock s.content branch) s h
                start loads))
            (on_handle-IsSound g ("", false) ref (visible_commit g clock s.content branch) s
              (visible_commit-Safe g laws clock s.content branch) sound) in
        subst (IsSound g)
          (ap (λ x. x.1) (on_handle-loaded g nil ref act s_read h_read read loads_read))
          (on_handle-IsSound g nil ref act s_read (push-Safe g laws clock s.content pushes) sound')

    -- What the run comes to: the reading, the push, and a webhook that touches no repository.
    record Run (res : RaceResult) (end : Simulator g) : Type 0 where
      seen : (visible_commit g clock s.content branch start).0 ≡ (res.old_sha, true)
      made : pushed.0 ≡ ok res.new_sha
      events : History
      ends : end ≡ record s_pushed { events = events }

    raced-Run :
        (res : RaceResult) → (run_race env spec s).0 ≡ ok res → Run res (run_race env spec s).1
    unfolding handle_env
    raced-Run res h =
        let end = (run_race env spec s).1 in
        let (seen, raced) = run_race-Raced env spec s res h in
        let seen' = subst (λ b. (env.visible_commit b s).0 ≡ (res.old_sha, true)) is_branch seen in
        let raced' : Raced env spec branch s_read res end =
          subst (λ (x : (String × Bool) × Simulator g). Raced env spec branch x.1 res end) env-read
            (subst (λ b. Raced env spec b (env.visible_commit b s).1 res end) is_branch raced) in
        let (events, only) =
          fired-OnlyEvents g clock w ref res.new_sha spec.target spec.secret (pos 0) s_pushed in
        record {
          seen = ap (λ x. x.0) (sym env-read) ∙ seen';
          made = ap (λ x. x.0) (sym env-push) ∙ raced'.pushed;
          events = events;
          ends =
              raced'.ends
              ∙ ap
                  (λ (x : Result String × Simulator g).
                    (env.fire res.new_sha spec.target spec.secret (pos 0) x.1).1)
                  env-push
              ∙ only;
        }

    module _ (res : RaceResult) (end : Simulator g) (run : Run res end) where
      end-IsSound : IsSound g end
      end-IsSound = rw (run.ends) (same-IsSound g s_pushed _ refl refl refl s_pushed-IsSound)

      end-leads : get_elem? end.store.heap h.repo ≡ some pushed.1.repo
      end-leads = ap (λ (x : Simulator g). get_elem? x.store.heap h.repo) run.ends ∙ leads_pushed

      end-visible :
          (later : ℤ)
          → (Repo.visible_commit g later branch pushed.1.repo).0
            ≡ seen_after later at
                (millis spec.head_delay_ms)
                (res.old_sha, true)
                (res.new_sha, true)
      end-visible later =
          race-visible g clock s.content laws at still branch (millis spec.head_delay_ms) start
            (res.old_sha, true) res.new_sha run.seen run.made later

      reached :
          (owner name : String) (asked : RepoRef)
          → ◌≡◌ {A = String × String} (owner, name) (r.owner, r.name)
          → lookup (record { host = r.host; owner = owner; name = name }) end.store.repos
            ≡ some asked
          → h.repo ≡ asked
      reached owner name asked names listed =
          let o = sound.held ref h there in
          let same : key_of g o.repo ≡ key_of g r =
            ap (key_of g) (some_inj (sym o.there ∙ leads)) in
          let repos : end.store.repos ≡ s.store.repos =
            ap (λ (x : Simulator g). x.store.repos) run.ends in
          let listed' : lookup (key_of g r) s.store.repos ≡ some asked =
            ap (lookup (key_of g r)) (sym repos)
            ∙ ap
                (λ (x : String × String).
                  lookup (record { host = r.host; owner = x.0; name = x.1 }) end.store.repos)
                (sym names)
            ∙ listed in
          some_inj (sym (ap (λ k. lookup k s.store.repos) (sym same) ∙ o.listed) ∙ listed')

      -- What a git client that asks for the repository is given.
      client :
          (later : ℤ) (path : String) (asked : RepoRef)
          → parse_path path ≡ some (r.owner, r.name)
          → (resolve_repo g (λ _. later) r.host path end.store).0 ≡ ok asked
          → (x : Repo g) × (get_elem?
                (resolve_repo g (λ _. later) r.host path end.store).1.heap
                h.repo
              ≡ some x)
            × (g.reference x.storer (head_ref branch)
                ≡ some (hash (g.new_hash (race_commit later at (millis spec.head_delay_ms) res))))
      client later path asked parsed answered =
          let (owner, name, parsed', c) =
            resolve_repo-Current g laws later r.host path end.store asked end-IsSound.stored
              answered in
          let names : ◌≡◌ {A = String × String} (owner, name) (r.owner, r.name) =
            some_inj (sym parsed' ∙ parsed) in
          let reached' = reached owner name asked names c.listed in
          let before_is : c.before ≡ pushed.1.repo =
            some_inj (sym (ap (get_elem? end.store.heap) reached' ∙ c.was) ∙ end-leads) in
          let shown : (Repo.visible_commit g later branch pushed.1.repo).0
              ≡ (race_commit later at (millis spec.head_delay_ms) res, true) =
            end-visible later ∙ race_commit-found later at (millis spec.head_delay_ms) res in
          let (bs, has) = visible-found g later branch _ pushed.1.repo shown in
          (
            c.after,
            ap (get_elem? (resolve_repo g (λ _. later) r.host path end.store).1.heap) reached'
                ∙ c.is_now,
            c.shows branch bs (ap (λ (x : Repo g). lookup branch x.branches) before_is ∙ has)
                ∙ ap
                    (λ (x : Repo g).
                      some (hash (g.new_hash (Repo.visible_commit g later branch x).0.0)))
                    before_is
                ∙ ap (λ (x : String × Bool). some (hash (g.new_hash x.0))) shown,
          )

    ran-replied :
        (x : Result RaceResult × Simulator g) (res : RaceResult)
        → (ran g clock w pause now x).0 ≡ replied 200 res
        → (x.0 ≡ ok res) × ((ran g clock w pause now x).1 ≡ x.1)
    unfolding ran
    ran-replied (ok a, t) res e = (ap ok (replied_inj e), refl)
    ran-replied (err e', t) res e = absurd (server_error-replied e' res e)

    -- A race over the control API, in a sound simulator on a clock that stands still during the run:
    -- when it is answered with OldSHA and NewSHA, a git client whose path names the repository and
    -- resolves is shown, as the branch's reference, OldSHA until the spec's delay has passed, and
    -- NewSHA from then on.
    pub handle_scenario_race-race_commit :
        (id : String)
        → get_repo g id s ≡ some ref
        → (res : RaceResult)
        → (handle_scenario_race g clock w pause now (ok (id, spec)) s).0 ≡ replied 200 res
        → (later : ℤ) (path : String) (asked : RepoRef) → parse_path path ≡ some (r.owner, r.name)
        → (resolve_repo g
            (λ _. later)
            r.host
            path
            (handle_scenario_race g clock w pause now (ok (id, spec)) s).1.store).0
          ≡ ok asked
        → (x : Repo g) × (get_elem?
              (resolve_repo g
                (λ _. later)
                r.host
                path
                (handle_scenario_race g clock w pause now (ok (id, spec)) s).1.store).1.heap
              h.repo
            ≡ some x)
          × (g.reference x.storer (head_ref branch)
              ≡ some (hash (g.new_hash (race_commit later at (millis spec.head_delay_ms) res))))
    unfolding handle_scenario_race decoded run_scenario
    handle_scenario_race-race_commit id found res raced later path asked parsed answered =
        let run = run_race env spec s in
        let is_run : handle_scenario_race g clock w pause now (ok (id, spec)) s
            ≡ ran g clock w pause now run =
          rw found in
        let (done, state) = ran-replied run res (ap (λ x. x.0) (sym is_run) ∙ raced) in
        client res (handle_scenario_race g clock w pause now (ok (id, spec)) s).1
          (rw (is_run, state) (raced-Run res done)) later path asked parsed answered

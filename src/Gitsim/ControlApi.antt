-- ===== src/Gitsim/ControlApi.antt =====
-- The handlers of pkg/gitsim/http_api.go. A request's body comes decoded: the error of json.Decode, or
-- the fields of the request.
pub mod Sound
pub mod Steps
pub mod Window
use git_simulator.Base.{
  ℕ, String, Bool, true, false, ◌==◌, ◌<>◌, if◌then◌else◌, ltb_ℤ, Option, none, some, List, [], ◌∷◌,
  ◌++◌, ℤ, pos,
}
use git_simulator.Core.Errors.{
  Error, message, panicked, library, sentinel, wrapped, err_already_exists, errors_is, Result, ok,
  err,
}
use git_simulator.Core.Exec.{Exec}
use git_simulator.Core.Provider.{Bytes}
use git_simulator.Store.Git.{Git}
use git_simulator.Emitter.World.{Outcome, World}
use git_simulator.Emitter.Send.{Sent}
use git_simulator.Scenario.Env.{Env, WebhookResult, millis}
use git_simulator.Scenario.PushN.{PushNSpec, PushNResult, run_push_n}
use git_simulator.Scenario.Mixed.{MixedSpec, MixedResult, run_mixed}
use git_simulator.Scenario.Race.{RaceSpec, RaceResult, run_race}
use git_simulator.Gitsim.Options.{
  PushOption, WebhookOption, on_branch, head_delay, target, send_after, secret, with_branch,
}
use git_simulator.Gitsim.SimRepo.{SimRepo, repo_key, id, clone_url, default_branch, push}
use git_simulator.Gitsim.SimRepo
use git_simulator.Gitsim.Simulator.{
  Simulator, Handle, HandleRef, load, on_handle, create_repo, get_repo, webhook,
}

-- A reply with a status and a value, an error with a status, or a connection that a panic closes.
pub data Reply (A : Type 0) : Type 0 where
  replied : ℕ → A → Reply A
  refused : ℕ → Error → Reply A
  aborted : Reply A

pub record CreateRepoReq : Type 0 where
  pub vendor : String
  pub owner : String
  pub repo : String
  pub default_branch : String

pub record CreateRepoResp : Type 0 where
  pub id : String
  pub repo_url : String
  pub clone_url : String

pub record AddCommitReq : Type 0 where
  pub branch : String
  pub head_delay_ms : ℤ

pub record FireWebhookReq : Type 0 where
  pub sha : String
  pub target : String
  pub send_after_ms : ℤ
  pub secret : String
  pub branch : String

pub record FireWebhookResp : Type 0 where
  pub status_code : ℕ
  pub body : Bytes

abbrev pub not_found : {A : Type 0} → String → Reply A
not_found id = refused 404 (message ("repo not found: " <> id) [])

-- http.Error(w, err.Error(), http.StatusInternalServerError)
abbrev pub server_error : {A : Type 0} → Error → Reply A
server_error (panicked _) = aborted
server_error e = refused 500 e

-- if s != "" { opts = append(opts, o(s)) }
abbrev pub unless_empty : {O : Type 0} → String → (String → O) → List O
unless_empty s o = if s == "" then [] else o s ∷ []

abbrev pub push_options : AddCommitReq → List PushOption
push_options req =
    unless_empty req.branch on_branch
    ++ (if ltb_ℤ (pos 0) req.head_delay_ms then head_delay (millis req.head_delay_ms) ∷ [] else [])

abbrev pub webhook_options : FireWebhookReq → List WebhookOption
webhook_options req =
    (target req.target ∷ send_after (millis req.send_after_ms) ∷ [])
    ++ unless_empty req.secret secret
    ++ unless_empty req.branch with_branch

abbrev pub fire_options : String → String → ℤ → List WebhookOption
fire_options url key d = (target url ∷ send_after d ∷ []) ++ unless_empty key secret

module _ (g : Git) where
  -- The fields of the answer to a creation.
  abbrev pub described : String → Option (Handle × SimRepo g) → CreateRepoResp
  described base none = record { id = ""; repo_url = ""; clone_url = "" }
  described base (some (h, r)) = record {
    id = id g r;
    repo_url = h.prov.repo_url r.repo.host r.repo.owner r.repo.name;
    clone_url = clone_url g base r;
  }

  created : Result HandleRef × Simulator g → Reply CreateRepoResp × Simulator g
  unfolding errors_is
  created (err e, s) =
      ((if errors_is e err_already_exists then refused 409 e else server_error e), s)
  created (ok ref, s) = (replied 201 (described s.base_url (load g ref s)), s)

  abbrev pub or_main : String → String
  or_main branch = if branch == "" then "main" else branch

  module _ (clock : ℕ → ℤ) where
    -- s.handleCreateRepo(w, r)
    unfoldable pub handle_create_repo :
        Result CreateRepoReq → Simulator g → Reply CreateRepoResp × Simulator g
    unfolding created create_repo
    handle_create_repo (err e) s = (refused 400 e, s)
    handle_create_repo (ok req) s =
        created (create_repo g clock req.vendor req.owner req.repo (or_main req.default_branch) s)

    committed : Result String × Simulator g → Reply String × Simulator g
    committed (ok sha, s) = (replied 200 sha, s)
    committed (err e, s) = (server_error e, s)

    unfoldable pub push_to : HandleRef → List PushOption → Exec (Simulator g) String
    unfolding on_handle
    push_to ref opts s =
        on_handle g (err (message "nil handle" [])) ref (λ v. push g clock s.content opts v) s

    add_commit_to :
        String → Option HandleRef → Result AddCommitReq → Simulator g → Reply String × Simulator g
    unfolding committed push_to
    add_commit_to id none body s = (not_found id, s)
    add_commit_to id (some ref) (err e) s = (refused 400 e, s)
    add_commit_to id (some ref) (ok req) s = committed (push_to ref (push_options req) s)

    -- s.handleAddCommit(w, r), for the values in the path
    unfoldable pub handle_add_commit :
        String → String → String → Result AddCommitReq → Simulator g → Reply String × Simulator g
    unfolding add_commit_to get_repo
    handle_add_commit vendor owner repo body s =
        let id = repo_key vendor owner repo in add_commit_to id (get_repo g id s) body s

    module _ (w : World) where
      fired : Sent × Simulator g → Reply FireWebhookResp × Simulator g
      fired ((o, some e), s) = (server_error e, s)
      fired ((o, none), s) =
          (replied 200 (record { status_code = o.status_code; body = o.body }), s)

      fire_webhook_of :
          String
          → Option HandleRef
          → Result FireWebhookReq
          → Simulator g
          → Reply FireWebhookResp × Simulator g
      unfolding fired
      fire_webhook_of id none body s = (not_found id, s)
      fire_webhook_of id (some ref) (err e) s = (refused 400 e, s)
      fire_webhook_of id (some ref) (ok req) s =
          fired (webhook g w ref req.sha (webhook_options req) s)

      -- s.handleFireWebhook(w, r)
      unfoldable pub handle_fire_webhook :
          String
          → String
          → String
          → Result FireWebhookReq
          → Simulator g
          → Reply FireWebhookResp × Simulator g
      unfolding fire_webhook_of get_repo webhook
      handle_fire_webhook vendor owner repo body s =
          let id = repo_key vendor owner repo in fire_webhook_of id (get_repo g id s) body s

      fire_result : Sent × Simulator g → Result WebhookResult × Simulator g
      fire_result ((o, some e), s) = (err e, s)
      fire_result ((o, none), s) =
          (ok (record { status_code = o.status_code; body = o.body; error = o.error }), s)

      -- s.makeFireFunc(sr)
      unfoldable pub make_fire_func :
          HandleRef → String → String → String → ℤ → Exec (Simulator g) WebhookResult
      unfolding fire_result webhook
      make_fire_func ref sha url key d s =
          fire_result (webhook g w ref sha (fire_options url key d) s)

      module _ (pause : ℤ → Exec (Simulator g) (Unit {0}))
          (now : Simulator g → ℤ × Simulator g) where
        abbrev default_of : Option (Handle × SimRepo g) → String
        default_of none = ""
        default_of (some (h, r)) = default_branch g r

        -- The handle as the scenarios see it, with the fire function for it.
        unfoldable pub handle_env : HandleRef → Simulator g → Env (Simulator g)
        handle_env ref s₀ = record {
          default_branch = default_of (load g ref s₀);
          visible_commit = λ branch s.
              on_handle g ("", false) ref (SimRepo.visible_commit g clock s.content branch) s;
          push_commit = λ branch delay. push_to ref (on_branch branch ∷ head_delay delay ∷ []);
          fire = make_fire_func ref;
          pause = pause;
          now = now;
        }

        ran : {A : Type 0} → Result A × Simulator g → Reply A × Simulator g
        ran (ok a, s) = (replied 200 a, s)
        ran (err e, s) = (server_error e, s)

        -- The lines that the three scenario handlers share, for the scenario to run.
        unfoldable pub run_scenario :
            {A : Type 0}
            → String
            → Option HandleRef
            → (Env (Simulator g) → Exec (Simulator g) A)
            → Simulator g
            → Reply A × Simulator g
        unfolding ran handle_env
        run_scenario id none scenario s = (not_found id, s)
        run_scenario id (some ref) scenario s = ran (scenario (handle_env ref s) s)

        decoded :
            {Spec A : Type 0}
            → (Spec → String)
            → (Spec → Env (Simulator g) → Exec (Simulator g) A)
            → Result Spec
            → Simulator g
            → Reply A × Simulator g
        unfolding run_scenario get_repo
        decoded repo_id scenario (err e) s = (refused 400 e, s)
        decoded repo_id scenario (ok spec) s =
            run_scenario (repo_id spec) (get_repo g (repo_id spec) s) (scenario spec) s

        -- s.handleScenarioPushN(w, r); the spec comes with its RepoID, and `swaps` are the calls
        -- that rand.Shuffle makes.
        unfoldable pub handle_scenario_push_n :
            List (ℕ × ℕ)
            → Result (String × PushNSpec)
            → Simulator g
            → Reply PushNResult × Simulator g
        unfolding decoded run_push_n
        handle_scenario_push_n swaps body s =
            decoded (λ b. b.0) (λ b env. run_push_n env swaps b.1) body s

        -- s.handleScenarioRace(w, r)
        unfoldable pub handle_scenario_race :
            Result (String × RaceSpec) → Simulator g → Reply RaceResult × Simulator g
        unfolding decoded
        handle_scenario_race body s = decoded (λ b. b.0) (λ b env. run_race env b.1) body s

        -- s.handleScenarioMixed(w, r)
        unfoldable pub handle_scenario_mixed :
            Result (String × MixedSpec) → Simulator g → Reply MixedResult × Simulator g
        unfolding decoded run_mixed
        handle_scenario_mixed body s = decoded (λ b. b.0) (λ b env. run_mixed env b.1) body s

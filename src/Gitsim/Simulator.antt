-- ===== src/Gitsim/Simulator.antt =====
-- Simulator of pkg/gitsim/gitsim.go: one store, one emitter, and the handles that CreateRepo returned.
-- A `*SimRepo` is an index into `handles`; the handle and the store share the repository.
pub mod Sound
pub mod Handles
pub mod Calls
pub mod Webhooks
use git_simulator.Base.{
  ℕ, suc, ◌+◌, String, Bool, true, false, ◌==◌, if◌then◌else◌, ltb_ℤ, Option, none, some, List, [],
  ◌∷◌, ◌++◌, ℤ, pos, length, get_elem?, set, string_eq, lookup, insert,
}
use git_simulator.Core.Errors.{Error, message, panicked, wrapped, Result, ok, err}
use git_simulator.Core.Exec.{Exec}
use git_simulator.Core.Content.{ContentProvider}
use git_simulator.Core.Provider.{Provider}
use git_simulator.Store.Git.{Git}
use git_simulator.Store.Repo.{Repo}
use git_simulator.Store.Registry.{RepoKey, RepoRef, Store, new_store}
use git_simulator.Store.Registry
use git_simulator.Emitter.World.{Delivery, Outcome, History, World}
use git_simulator.Emitter.Send.{Sent, new_emitter, zero_outcome, send_with_retry}
use git_simulator.Emitter.Batch.{Batch, send_batch}
use git_simulator.Gitserver.Paths.{trim_suffix}
use git_simulator.Gitsim.Options.{WebhookConfig, WebhookOption, apply}
use git_simulator.Gitsim.SimRepo.{SimRepo, repo_key, build_event}

pub record Handle : Type 0 where
  pub vendor : String
  pub prov : Provider
  pub repo : RepoRef
  pub sha_branch : List (String × String)
  pub prev_sha : List (String × String)

abbrev pub HandleRef : Type 0
HandleRef = ℕ

-- `tick` counts the readings of the clock by the store, `events` is what the emitter has done.
pub record Simulator (g : Git) : Type 0 where
  pub content : ContentProvider
  pub providers : List Provider
  pub store : Store g
  pub base_url : String
  pub host : String
  pub handles : List Handle
  pub repos : List (String × HandleRef)
  pub tick : ℕ
  pub events : History

-- providerByName(providers, name)
unfoldable pub provider_by_name : List Provider → String → Result Provider
provider_by_name [] name =
    err (message "gitsim: provider %q not enabled (add it via WithProviders)" (name ∷ []))
provider_by_name (p ∷ ps) name =
    let later = provider_by_name ps name in if p.name == name then ok p else later

abbrev pub no_options : WebhookConfig
no_options = record { target = ""; send_after = pos 0; secret = ""; branch = "" }

-- results[0]
abbrev pub first_result : List Outcome → Outcome
first_result [] = zero_outcome
first_result (o ∷ os) = o

module _ (g : Git) where
  unfoldable pub set_url : String → Result String → Exec (Simulator g) (Unit {0})
  unfolding trim_suffix
  set_url raw_url (err e) s =
      (err (panicked (wrapped "gitsim: invalid base URL %q: %v" (raw_url ∷ []) e)), s)
  set_url raw_url (ok host) s =
      (ok tt, record s { base_url = trim_suffix raw_url "/"; host = host })

  -- s.SetBaseURL(rawURL), where `parse_host` is the host that url.Parse finds.
  unfoldable pub set_base_url : (String → Result String) → String → Exec (Simulator g) (Unit {0})
  unfolding set_url
  set_base_url parse_host raw_url s = set_url raw_url (parse_host raw_url) s

  -- The handle as its methods see it: with the repository that it points to.
  abbrev pub view : Handle → ℕ → Repo g → SimRepo g
  view h tick r = record {
    vendor = h.vendor;
    repo = r;
    sha_branch = h.sha_branch;
    prev_sha = h.prev_sha;
    tick = tick;
  }

  abbrev pub written : HandleRef → Handle → SimRepo g → Simulator g → Simulator g
  written ref h v s = record s {
    store = record (s.store) { heap = set s.store.heap h.repo v.repo };
    handles = set s.handles ref (record h { sha_branch = v.sha_branch; prev_sha = v.prev_sha });
    tick = v.tick;
  }

  abbrev loaded : Handle → ℕ → Option (Repo g) → Option (Handle × SimRepo g)
  loaded h tick none = none
  loaded h tick (some r) = some (h, view h tick r)

  abbrev load_from : Simulator g → Option Handle → Option (Handle × SimRepo g)
  load_from s none = none
  load_from s (some h) = loaded h s.tick (get_elem? s.store.heap h.repo)

  -- What a `*SimRepo` points to.
  abbrev pub load : HandleRef → Simulator g → Option (Handle × SimRepo g)
  load ref s = load_from s (get_elem? s.handles ref)

  unfoldable pub run_on :
      {A : Type 0}
      → A
      → HandleRef
      → (SimRepo g → A × SimRepo g)
      → Option (Handle × SimRepo g)
      → Simulator g
      → A × Simulator g
  run_on nil ref act none s = (nil, s)
  run_on nil ref act (some (h, v)) s = let (a, v') = act v in (a, written ref h v' s)

  -- Runs a method of a handle; `nil` is returned for an index without a handle, which no code has.
  unfoldable pub on_handle :
      {A : Type 0} → A → HandleRef → (SimRepo g → A × SimRepo g) → Simulator g → A × Simulator g
  unfolding run_on
  on_handle nil ref act s = run_on nil ref act (load ref s) s

  module _ (clock : ℕ → ℤ) where
    added_handle : String → String → Provider → Result RepoRef → Exec (Simulator g) HandleRef
    added_handle id vendor p (err e) s = (err e, s)
    added_handle id vendor p (ok ref) s = (
      ok (length s.handles),
      record s {
        handles =
            s.handles
            ++ record { vendor = vendor; prov = p; repo = ref; sha_branch = []; prev_sha = [] }
              ∷ [];
        repos = insert id (length s.handles) s.repos;
      },
    )

    -- `CreateRepo` from the call of the store on.
    unfoldable pub create_with :
        String → String → String → String → Result Provider → Exec (Simulator g) HandleRef
    unfolding added_handle
    create_with vendor owner name branch (err e) s = (err e, s)
    create_with vendor owner name branch (ok p) s =
        let key : RepoKey = record { host = s.host; owner = owner; name = name } in
        let (made, store') = Registry.create_repo g (clock s.tick) s.content key branch s.store in
        added_handle (repo_key vendor owner name) vendor p made
          (record s { store = store'; tick = suc s.tick })

    -- s.CreateRepo(vendorName, owner, repoName, defaultBranch)
    unfoldable pub create_repo : String → String → String → String → Exec (Simulator g) HandleRef
    unfolding create_with provider_by_name
    create_repo vendor owner name branch s =
        if s.host == ""
        then (err (message "gitsim: SetBaseURL must be called before CreateRepo" []), s)
        else create_with vendor owner name branch (provider_by_name s.providers vendor) s

  -- s.getRepo(id)
  unfoldable pub get_repo : String → Simulator g → Option HandleRef
  get_repo id s = lookup id s.repos

  module _ (w : World) where
    -- The result of the batch of one delivery.
    batched : Simulator g → Batch w → Sent × Simulator g
    batched s ((results, some e), h) = ((zero_outcome, some e), record s { events = h })
    batched s ((results, none), h) = ((first_result results, none), record s { events = h })

    sent_now : Simulator g → Sent × History → Sent × Simulator g
    sent_now s (sent, h) = (sent, record s { events = h })

    unfoldable pub deliver_to : String → Delivery → Simulator g → Sent × Simulator g
    unfolding batched sent_now
    deliver_to target d s =
        let batch = batched s (send_batch w new_emitter target (d ∷ []) s.events) in
        let single = sent_now s (send_with_retry w new_emitter target d s.events) in
        if ltb_ℤ (pos 0) d.send_at then batch else single

    webhook_from :
        WebhookConfig → String → Option (Handle × SimRepo g) → Simulator g → Sent × Simulator g
    unfolding deliver_to build_event
    webhook_from cfg sha none s = ((zero_outcome, none), s)
    webhook_from cfg sha (some (h, v)) s =
        deliver_to cfg.target
          (record {
            provider = h.prov;
            event = build_event g sha cfg.branch v;
            secret = cfg.secret;
            send_at = cfg.send_after;
          })
          s

    webhook_with : WebhookConfig → HandleRef → String → Simulator g → Sent × Simulator g
    unfolding webhook_from
    webhook_with cfg ref sha s =
        if cfg.target == ""
        then ((zero_outcome, some (message "gitsim: Webhook requires the Target option" [])), s)
        else webhook_from cfg sha (load ref s) s

    -- s.Webhook(repo, sha, wopts...)
    unfoldable pub webhook :
        HandleRef → String → List WebhookOption → Simulator g → Sent × Simulator g
    unfolding webhook_with
    webhook ref sha opts s = webhook_with (apply opts no_options) ref sha s

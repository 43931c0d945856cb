-- ===== src/Gitsim/Mux/Served.antt =====
-- The invariant of Simulator and the requests of git clients (pkg/gitserver, pkg/provider/github/api.go).
use git_simulator.Base.{
  ℕ, String, ◌==◌, ◌≡◌, refl, sym, ◌∙◌, Bool-cases, Option, none, some, Option-cases, [], ℤ, subst,
  get_elem?, string_eq, set, ap, inl, inr,
}
use git_simulator.Core.Errors.{Result, ok, err}
use git_simulator.Core.Exec.{Exec}
use git_simulator.Core.Provider.{Provider}
use git_simulator.Store.Git.{Git, GitLaws}
use git_simulator.Store.Repo
use git_simulator.Store.Repo.{Repo, identity, visible_refs}
use git_simulator.Store.Repo.Made.{IsWell, step-IsWell}
use git_simulator.Store.Repo.Calls.{Call, step, reads_refs, reads_commit}
use git_simulator.Store.Repo.Identity.{step-frame}
use git_simulator.Store.Registry.{
  RepoKey, RepoRef, key_Eq, Store, new_store, on_repo, deref, get_repo, visible_of,
}
use git_simulator.Store.Registry
use git_simulator.Store.Registry.History
use git_simulator.Gitserver.Paths.{parse_path, cut_suffix}
use git_simulator.Gitserver.Serve.{
  Answer, not_found, refused, flushed, flush, find_repo, resolve_repo, answered, handle, serve,
  info_refs, upload_pack,
}
use git_simulator.Gitserver.Pack.{PackServer, replied, serve_http}
use git_simulator.Core.Provider.{Bytes}
use git_simulator.Gitsim.Simulator.{Simulator}
use git_simulator.Gitsim.Simulator.Sound.{IsSound, Follows-IsSound, set-leads}
use git_simulator.Gitsim.Mux.{on_store, contains, commits_path, serve_any, serve_commits}

-- The pack protocol only reads a storer.
replied-state :
    (g : Git) (p : PackServer g) (service : String) (body : Bytes) (x : Answer × Store g)
    → (replied g p service body x).1 ≡ x.1
unfolding replied
replied-state g p service body (not_found, t) = refl
replied-state g p service body (refused e, t) = refl
replied-state g p service body (info_refs ref, t) = refl
replied-state g p service body (upload_pack ref, t) = refl

module _ (g : Git) (laws : GitLaws g) (s : Simulator g) (sound : IsSound g s) where
  -- The store served one call of one of its repositories.
  abbrev Served : Store g → Type 0
  Served t = IsSound g (record s { store = t })

  module _ {A : Type 0} (ref : RepoRef) (act : Exec (Repo g) A) (c : Call)
      (is_step : (r : Repo g) → (act r).1 ≡ step g c r) where
    same_identity : (r : Repo g) → identity g (act r).1 ≡ identity g r
    unfolding identity
    same_identity r = ap (identity g) (is_step r) ∙ ap (λ f. (f.0, f.1, f.2)) (step-frame g c r)

    on_repo-Served : Served (on_repo g ref act s.store).1
    unfolding on_repo
    on_repo-Served = elim (Option-cases (get_elem? s.store.heap ref)) [
      | inl p ↦ rw p sound
      | inr (r, p) ↦ rw p (
          Follows-IsSound g s
            (record s { store = record (s.store) { heap = set s.store.heap ref (act r).1 } })
            (record {
              stored =
                  History.set-IsSound g ref r (act r).1 s.store p (same_identity r)
                    (subst (IsWell g) (sym (is_step r))
                      (step-IsWell g laws c r (sound.stored.well ref r p)))
                    sound.stored;
              registry = refl;
              leads = set-leads g s.store.heap ref r (act r).1 p (same_identity r);
              ids = refl;
              old = λ at h found. (h, found, refl);
              new = λ at h found. (h, found, refl, refl);
            })
            sound)
    ]

  flushed-Served :
      {A : Type 0} (key : RepoKey) (ref : RepoRef) (x : Result A × Store g)
      → Served x.1
      → Served (flushed g key ref x).1
  unfolding flushed
  flushed-Served key ref (ok a, t) i = i
  flushed-Served key ref (err e, t) i = i

  flush-Served :
      (at : ℕ → ℤ) (key : RepoKey) (r : Result RepoRef) → Served (flush g at key r s.store).1
  unfolding flush step
  flush-Served at key (err e) = sound
  flush-Served at key (ok ref) =
      flushed-Served key ref _ (on_repo-Served ref (visible_refs g at) (reads_refs at) (λ r. refl))

  find_repo-Served :
      (at : ℕ → ℤ) (host path : String) (o : Option (String × String))
      → Served (find_repo g at host path o s.store).1
  unfolding find_repo get_repo
  find_repo-Served at host path none = sound
  find_repo-Served at host path (some (owner, name)) =
      flush-Served at (record { host = host; owner = owner; name = name })
        (get_repo g (record { host = host; owner = owner; name = name }) s.store)

  answered-Served :
      (f : RepoRef → Answer) (x : Result RepoRef × Store g) → Served x.1 → Served (answered g f x).1
  unfolding answered
  answered-Served f (ok ref, t) i = i
  answered-Served f (err e, t) i = i

  handle-Served :
      (at : ℕ → ℤ) (host : String) (f : RepoRef → Answer) (o : Option String)
      → Served (handle g at host f o s.store).1
  unfolding handle resolve_repo
  handle-Served at host f none = sound
  handle-Served at host f (some path) =
      answered-Served f _ (find_repo-Served at host path (parse_path path))

  serve-Served :
      (at : ℕ → ℤ) (host method path : String) → Served (serve g at host method path s.store).1
  unfolding serve
  serve-Served at host method path = elim (Bool-cases (method == "GET")) [
    | inl e ↦ rw e (handle-Served at host info_refs (cut_suffix "/info/refs" path))
    | inr e ↦ elim (Bool-cases (method == "POST")) [
      | inl f ↦ rw (e, f) (handle-Served at host upload_pack (cut_suffix "/git-upload-pack" path))
      | inr f ↦ rw (e, f) sound
    ]
  ]

  visible-Served :
      (at : ℤ) (branch : String) (r : Result RepoRef) → Served (visible_of g at branch r s.store).1
  unfolding visible_of step
  visible-Served at branch (err e) = sound
  visible-Served at branch (ok ref) =
      on_repo-Served ref (λ r. let (v, r') = Repo.visible_commit g at branch r in (ok v, r'))
        (reads_commit at branch) (λ r. refl)

  visible_commit-Served :
      (at : ℤ) (key : RepoKey) (branch : String)
      → Served (Registry.visible_commit g at key branch s.store).1
  unfolding Registry.visible_commit
  visible_commit-Served at key branch = visible-Served at branch (get_repo g key s.store)

  serve_http-Served :
      (p : PackServer g) (at : ℕ → ℤ) (host method path service : String) (body : Bytes)
      → Served (serve_http g p at host method path service body s.store).1
  unfolding serve_http
  serve_http-Served p at host method path service body =
      rw (replied-state g p service body (serve g at host method path s.store))
        (serve-Served at host method path)

  pub serve_any-IsSound :
      (p : PackServer g) (at : ℕ → ℤ) (host method path service : String) (body : Bytes)
      → IsSound g (serve_any g p at host method path service body s).1
  unfolding serve_any on_store
  serve_any-IsSound p at host method path service body = elim (Bool-cases (contains path ".git")) [
    | inl e ↦ rw e (serve_http-Served p at host method path service body)
    | inr e ↦ rw e sound
  ]

  pub serve_commits-IsSound :
      (p : PackServer g) (quote : String → String) (at : ℤ) (key : RepoKey) (branch accept : String)
      (r : Result Provider)
      → IsSound g (serve_commits g p quote at key branch accept r s).1
  unfolding serve_commits on_store
  serve_commits-IsSound p quote at key branch accept (err e) =
      serve_any-IsSound p (λ _. at) key.host "GET" (commits_path g p key branch) "" []
  serve_commits-IsSound p quote at key branch accept (ok _) = visible_commit-Served at key branch

-- ===== src/Gitserver/Pack/Served.antt =====
-- What a git client is sent, from the request to the bytes.
use git_simulator.Base.{
  String, ◌==◌, ◌≡◌, ◌⊎◌, refl, sym, ◌∙◌, ap, subst, inl, inr, Option, none, some, ℤ, Bool-cases,
  eq_iff,
}
use git_simulator.Core.Errors.{Result, ok, err}
use git_simulator.Core.Provider.{Bytes}
use git_simulator.Store.Git.{Git, GitLaws}
use git_simulator.Store.Registry.{RepoRef, Store}
use git_simulator.Store.Registry.History.{IsSound}
use git_simulator.Gitserver.Paths.{parse_path, cut_suffix}
use git_simulator.Gitserver.Serve.{
  Answer, not_found, refused, info_refs, upload_pack, resolve_repo, answered, handle, serve,
}
use git_simulator.Gitserver.Serve.Laws.{Current, resolve_repo-Current}
use git_simulator.Gitserver.Pack.Sessions.{Announces, Packs, advertise-Announces, send_pack-Packs}
use git_simulator.Gitserver.Pack.{
  PackServer, sent, advertise, send_pack, on_storer, replied, serve_http,
}

-- Answers that come to an error.
abbrev IsRefusal : Answer → Type 0
IsRefusal not_found = Unit {0}
IsRefusal (refused e) = Unit {0}
IsRefusal (info_refs ref) = ⊥
IsRefusal (upload_pack ref) = ⊥

module _ (g : Git) (laws : GitLaws g) (now : ℤ) (host : String) (s : Store g) where
  -- The repository that the path names before the suffix, with its references up to date.
  pub record Found (suffix path : String) (s' : Store g) : Type 0 where
    pub ref : RepoRef
    pub repo_path : String
    pub cut : cut_suffix suffix path ≡ some repo_path
    pub owner : String
    pub name : String
    pub parsed : parse_path repo_path ≡ some (owner, name)
    pub current : Current g laws now host owner name s ref s'

  module _ (sound : IsSound g s) (answer : RepoRef → Answer) (suffix path : String) where
    abbrev Handled : Answer × Store g → Type 0
    Handled x = IsRefusal x.0 ⊎ ((f : Found suffix path x.1) × (x.0 ≡ answer f.ref))

    answered-Handled :
        (repo_path : String) (x : Result RepoRef × Store g)
        → cut_suffix suffix path ≡ some repo_path
        → resolve_repo g (λ _. now) host repo_path s ≡ x
        → Handled (answered g answer x)
    unfolding answered
    answered-Handled repo_path (err e, t) cut resolved = inl tt
    answered-Handled repo_path (ok ref, t) cut resolved =
        let (owner, name, parsed, current) =
          resolve_repo-Current g laws now host repo_path s ref sound (ap (λ x. x.0) resolved) in
        inr (
          record {
            ref = ref;
            repo_path = repo_path;
            cut = cut;
            owner = owner;
            name = name;
            parsed = parsed;
            current =
                subst (Current g laws now host owner name s ref) (ap (λ x. x.1) resolved) current;
          },
          refl,
        )

    handle-Handled :
        (o : Option String)
        → cut_suffix suffix path ≡ o
        → Handled (handle g (λ _. now) host answer o s)
    unfolding handle
    handle-Handled none cut = inl tt
    handle-Handled (some repo_path) cut = answered-Handled repo_path _ cut refl

module _ (g : Git) (laws : GitLaws g) (now : ℤ) (host : String) (s : Store g)
    (p : PackServer g) where
  -- A GET is sent the references of the repository that the path names, if it asks for
  -- git-upload-pack, and a POST a pack from it.
  pub data Sends (method path service content_type : String) (body text : Bytes) (s' : Store g)
      : Type 0 where
    announces :
        method ≡ "GET"
        → service ≡ "git-upload-pack"
        → content_type ≡ "application/x-git-upload-pack-advertisement"
        → (f : Found g laws now host s "/info/refs" path s')
        → Announces g p f.current.after.storer text
        → Sends method path service content_type body text s'
    packs :
        method ≡ "POST"
        → content_type ≡ "application/x-git-upload-pack-result"
        → (f : Found g laws now host s "/git-upload-pack" path s')
        → Packs g p f.current.after.storer body text
        → Sends method path service content_type body text s'

  module _ (path service content_type : String) (body text : Bytes) where
    refusal_unsent :
        (x : Answer × Store g)
        → IsRefusal x.0
        → (replied g p service body x).0 ≡ sent content_type text
        → ⊥
    unfolding replied
    refusal_unsent (not_found, t) r h = cc
    refusal_unsent (refused e, t) r h = cc
    refusal_unsent (info_refs ref, t) r h = r
    refusal_unsent (upload_pack ref, t) r h = r

    state-replied : (x : Answer × Store g) → (replied g p service body x).1 ≡ x.1
    unfolding replied
    state-replied (not_found, t) = refl
    state-replied (refused e, t) = refl
    state-replied (info_refs ref, t) = refl
    state-replied (upload_pack ref, t) = refl

    module _ (sound : IsSound g s) where
      get-Sends :
          (method : String) (x : Answer × Store g)
          → method ≡ "GET"
          → Handled g laws now host s sound info_refs "/info/refs" path x
          → (replied g p service body x).0 ≡ sent content_type text
          → Sends method path service content_type body text x.1
      unfolding replied
      get-Sends method x asks (inl r) h = absurd (refusal_unsent x r h)
      get-Sends method (a, t) asks (inr (f, same)) h =
          let on_found =
            sym (ap (λ o. on_storer g p (advertise g p service) o) f.current.is_now)
            ∙ sym (ap (λ b. (replied g p service body (b, t)).0) same)
            ∙ h in
          let (asked, kind, text_is) =
            advertise-Announces g p service content_type text f.current.after.storer on_found in
          announces asks asked kind f text_is

      post-Sends :
          (method : String) (x : Answer × Store g)
          → method ≡ "POST"
          → Handled g laws now host s sound upload_pack "/git-upload-pack" path x
          → (replied g p service body x).0 ≡ sent content_type text
          → Sends method path service content_type body text x.1
      unfolding replied
      post-Sends method x asks (inl r) h = absurd (refusal_unsent x r h)
      post-Sends method (a, t) asks (inr (f, same)) h =
          let on_found =
            sym (ap (λ o. on_storer g p (send_pack g p body) o) f.current.is_now)
            ∙ sym (ap (λ b. (replied g p service body (b, t)).0) same)
            ∙ h in
          let (kind, text_is) =
            send_pack-Packs g p content_type body text f.current.after.storer on_found in
          packs asks kind f text_is

      -- In a sound store, what is sent without an error is sent for a GET of /info/refs that asks for
      -- git-upload-pack or for a POST to /git-upload-pack, with the content type of its kind, and on a
      -- session on the storer of the repository that the path names, in which the reference of each
      -- branch has become the commit that is visible at that time; the session has the shallow
      -- capability. To the GET it is the header line, a flush and the references of the session, and
      -- to the POST what the session answers to the decoded body.
      pub serve_http-Sends :
          (method : String)
          → (serve_http g p (λ _. now) host method path service body s).0 ≡ sent content_type text
          → Sends method path service content_type body text
              (serve_http g p (λ _. now) host method path service body s).1
      unfolding serve_http serve
      serve_http-Sends method h = elim (Bool-cases (method == "GET")) [
        | inl e ↦
            let x = handle g (λ _. now) host info_refs (cut_suffix "/info/refs" path) s in
            let handled =
              handle-Handled g laws now host s sound info_refs "/info/refs" path _ refl in
            rw e (
              subst (Sends method path service content_type body text) (sym (state-replied x))
                (get-Sends method x ((eq_iff method "GET").0 e) handled (rw e at h)))
        | inr e ↦ elim (Bool-cases (method == "POST")) [
          | inr f ↦ absurd (refusal_unsent (not_found, s) tt (rw (e, f) at h))
          | inl f ↦
              let x = handle g (λ _. now) host upload_pack (cut_suffix "/git-upload-pack" path) s in
              let handled =
                handle-Handled g laws now host s sound upload_pack "/git-upload-pack" path _ refl in
              rw (e, f)
                (subst (Sends method path service content_type body text) (sym (state-replied x))
                  (post-Sends method x ((eq_iff method "POST").0 f) handled (rw (e, f) at h)))
        ]
      ]

-- ===== src/Providers/Vendors/Laws.antt =====
-- What a receiver can rely on in the webhooks of the six providers.
use git_simulator.Base.{
  String, ◌==◌, ◌≡◌, refl, ap, sym, ◌∙◌, ◌⊎◌, str_eq_refl, Has, Bool-cases, true, if◌then◌else◌,
  Option, none, some, List, [], ◌∷◌, string_eq, lookup, insert, inl, inr,
}
use git_simulator.Core.Errors.{Result, ok, err, ok_inj}
use git_simulator.Core.Provider.{PushEvent, Header, Bytes, Noise}
use git_simulator.Providers.Library.{Library, with_body}
use git_simulator.Providers.Registry.{ProviderRegistry, register, get, get-register}
use git_simulator.Providers.Github.Webhook
use git_simulator.Providers.Gitlab
use git_simulator.Providers.Bitbucket
use git_simulator.Providers.BitbucketServer
use git_simulator.Providers.Gogs
use git_simulator.Providers.AzureDevOps
use git_simulator.Providers.Vendors.{
  Vendor, github, gitlab, bitbucket, bitbucketserver, gogs, azuredevops, vendor_name,
  vendor_provider, register_all, identified, proof_key, proof_for,
}

-- The vendor that the webhook is taken for.
abbrev pub seen_as : Vendor → String → Vendor
seen_as bitbucket secret = if secret == "" then bitbucketserver else bitbucket
seen_as v secret = v

abbrev pub proof_if : Vendor → Library → String → Bytes → Option (List String)
proof_if v lib secret body = if secret == "" then none else some (proof_for lib v secret body ∷ [])

with_body-ok :
    (text : String) (header : Bytes → Header) (r : Result Bytes) (h : Header) (body : Bytes)
    → with_body text header r ≡ ok (h, body)
    → header body ≡ h
with_body-ok text header (err e) h body made = cc
with_body-ok text header (ok b) h body made =
    let e = ok_inj made in ap header (sym (ap (λ x. x.1) e)) ∙ ap (λ x. x.0) e

module _ (lib : Library) (noise : Noise) (event : PushEvent) (secret : String) where
  -- What a receiver reads in the headers for a body.
  abbrev Fits : Vendor → Header → Bytes → Type 0
  Fits v h body =
      (identified h ≡ some (seen_as v secret))
      × (lookup (proof_key v) h ≡ proof_if v lib secret body)

  github-Fits :
      (h : Header) (body : Bytes)
      → Webhook.build_webhook lib noise event secret ≡ ok (h, body)
      → Fits github h body
  unfolding Webhook.build_webhook identified
  github-Fits h body made =
      rw (← with_body-ok _ _ _ h body made)
        (elim (Bool-cases (secret == "")) [ inl e ↦ rw e (refl, refl) | inr e ↦ rw e (refl, refl) ])

  bitbucket-Fits :
      (h : Header) (body : Bytes)
      → Bitbucket.build_webhook lib noise event secret ≡ ok (h, body)
      → Fits bitbucket h body
  unfolding Bitbucket.build_webhook identified
  bitbucket-Fits h body made =
      rw (← with_body-ok _ _ _ h body made)
        (elim (Bool-cases (secret == "")) [ inl e ↦ rw e (refl, refl) | inr e ↦ rw e (refl, refl) ])

  bitbucketserver-Fits :
      (h : Header) (body : Bytes)
      → BitbucketServer.build_webhook lib noise event secret ≡ ok (h, body)
      → Fits bitbucketserver h body
  unfolding BitbucketServer.build_webhook identified
  bitbucketserver-Fits h body made =
      rw (← with_body-ok _ _ _ h body made)
        (elim (Bool-cases (secret == "")) [ inl e ↦ rw e (refl, refl) | inr e ↦ rw e (refl, refl) ])

  gogs-Fits :
      (h : Header) (body : Bytes)
      → Gogs.build_webhook lib noise event secret ≡ ok (h, body)
      → Fits gogs h body
  unfolding Gogs.build_webhook identified
  gogs-Fits h body made =
      rw (← with_body-ok _ _ _ h body made)
        (elim (Bool-cases (secret == "")) [ inl e ↦ rw e (refl, refl) | inr e ↦ rw e (refl, refl) ])

  azuredevops-Fits :
      (h : Header) (body : Bytes)
      → AzureDevOps.build_webhook lib noise event secret ≡ ok (h, body)
      → Fits azuredevops h body
  unfolding AzureDevOps.build_webhook identified
  azuredevops-Fits h body made =
      rw (← with_body-ok _ _ _ h body made)
        (elim (Bool-cases (secret == "")) [ inl e ↦ rw e (refl, refl) | inr e ↦ rw e (refl, refl) ])

  gitlab_header-Fits :
      (kind : String) (body : Bytes) → Fits gitlab (Gitlab.header lib kind secret) body
  unfolding Gitlab.header identified insert
  gitlab_header-Fits kind body = elim (Bool-cases (secret == "")) [
    | inl e ↦ rw e (refl, refl)
    | inr e ↦ rw e (refl, refl)
  ]

  gitlab-Fits :
      (h : Header) (body : Bytes)
      → Gitlab.build_webhook lib noise event secret ≡ ok (h, body)
      → Fits gitlab h body
  unfolding Gitlab.build_webhook
  gitlab-Fits h body made = elim (Bool-cases (event.tag == "")) [
    | inl e ↦ rw (← with_body-ok _ _ _ h body (rw e at made)) (gitlab_header-Fits "Push Hook" body)
    | inr e ↦
        rw (← with_body-ok _ _ _ h body (rw e at made)) (gitlab_header-Fits "Tag Push Hook" body)
  ]

  -- A receiver that tests the headers in the order that the packages' comments name takes a webhook
  -- for the vendor that built it, except that Bitbucket's without a secret is taken for Bitbucket
  -- Server's; and the vendor's header of proof has the value for the returned body and the secret,
  -- and is missing exactly when the secret is empty.
  pub build_webhook-Fits :
      (v : Vendor) (h : Header) (body : Bytes)
      → (vendor_provider lib v).build_webhook noise event secret ≡ ok (h, body)
      → (identified h ≡ some (seen_as v secret))
        × (lookup (proof_key v) h ≡ proof_if v lib secret body)
  build_webhook-Fits github h body made = github-Fits h body made
  build_webhook-Fits gitlab h body made = gitlab-Fits h body made
  build_webhook-Fits bitbucket h body made = bitbucket-Fits h body made
  build_webhook-Fits bitbucketserver h body made = bitbucketserver-Fits h body made
  build_webhook-Fits gogs h body made = gogs-Fits h body made
  build_webhook-Fits azuredevops h body made = azuredevops-Fits h body made

module _ (lib : Library) where
  same_name :
      (w v : Vendor)
      → (vendor_name w == vendor_name v) ≡ true
      → vendor_provider lib w ≡ vendor_provider lib v
  same_name github github h = refl
  same_name gitlab gitlab h = refl
  same_name bitbucket bitbucket h = refl
  same_name bitbucketserver bitbucketserver h = refl
  same_name gogs gogs h = refl
  same_name azuredevops azuredevops h = refl
  same_name _ _ h = cc

  own_name : (w : Vendor) → (vendor_provider lib w).name ≡ vendor_name w
  own_name github = refl
  own_name gitlab = refl
  own_name bitbucket = refl
  own_name bitbucketserver = refl
  own_name gogs = refl
  own_name azuredevops = refl

  -- A registration leaves a vendor's own provider under its name, or puts it there.
  register-own :
      (v w : Vendor) (registry : ProviderRegistry)
      → (v ≡ w) ⊎ (get (vendor_name v) registry ≡ ok (vendor_provider lib v))
      → get (vendor_name v) (register (vendor_provider lib w) registry) ≡ ok (vendor_provider lib v)
  register-own v w registry before =
      get-register (vendor_name v) (vendor_provider lib w) registry
      ∙ elim (Bool-cases ((vendor_provider lib w).name == vendor_name v)) [
        | inl e ↦ rw e (ap ok (same_name w v (ap (λ n. n == vendor_name v) (sym (own_name w)) ∙ e)))
        | inr e ↦ rw e (elim before [
          | inl i ↦
              let same : ((vendor_provider lib w).name == vendor_name v) ≡ true =
                ap (λ n. n == vendor_name v) (own_name w)
                ∙ ap (λ x. vendor_name w == vendor_name x) i
                ∙ str_eq_refl (vendor_name w) in
              cc
          | inr k ↦ k
        ])
      ]

  register_all-own :
      (v : Vendor) (vs : List Vendor) (registry : ProviderRegistry)
      → Has v vs ⊎ (get (vendor_name v) registry ≡ ok (vendor_provider lib v))
      → get (vendor_name v) (register_all lib vs registry) ≡ ok (vendor_provider lib v)
  unfolding register_all
  register_all-own v [] registry (inr k) = k
  register_all-own v [] registry (inl h) = absurd h
  register_all-own v (w ∷ vs) registry (inl (inl e)) =
      register_all-own v vs _ (inr (register-own v w registry (inl e)))
  register_all-own v (w ∷ vs) registry (inl (inr h)) = register_all-own v vs _ (inl h)
  register_all-own v (w ∷ vs) registry (inr k) =
      register_all-own v vs _ (inr (register-own v w registry (inr k)))

  -- Whichever packages are imported, in whatever order, and whatever was registered before: Get finds
  -- each vendor's own provider under its name.
  pub get-register_all :
      (v : Vendor) (vs : List Vendor) (registry : ProviderRegistry)
      → Has v vs
      → get (vendor_name v) (register_all lib vs registry) ≡ ok (vendor_provider lib v)
  get-register_all v vs registry h = register_all-own v vs registry (inl h)

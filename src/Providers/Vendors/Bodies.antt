-- ===== src/Providers/Vendors/Bodies.antt =====
-- What the bodies of the webhooks of the six providers say was pushed.
use git_simulator.Base.{
  String, ◌==◌, ◌≡◌, ap, not, ◌<>◌, ◌⊎◌, Bool, Bool-cases, true, false, if◌then◌else◌, Option, none,
  some, [], ◌∷◌, string_eq, subst, inl, inr, arith,
}
use git_simulator.Core.Errors.{Result, ok, err, ok_inj}
use git_simulator.Core.Provider.{PushEvent, Header, Bytes, Noise}
use git_simulator.Providers.Library.{Library, with_body}
use git_simulator.Providers.Github.Webhook
use git_simulator.Providers.Gitlab
use git_simulator.Providers.Bitbucket
use git_simulator.Providers.BitbucketServer
use git_simulator.Providers.Gogs
use git_simulator.Providers.AzureDevOps
use git_simulator.Providers.Vendors.{
  Vendor, github, gitlab, bitbucket, bitbucketserver, gogs, azuredevops, vendor_provider, Update,
  bitbucket_ref, Carries, github_body, gitlab_body, bitbucket_body, bitbucketserver_body, gogs_body,
  azuredevops_body,
}

-- The reference of an event that names a branch or a tag, but not both.
abbrev pub event_ref : PushEvent → String
event_ref event =
    if event.tag == "" then "refs/heads/" <> event.branch else "refs/tags/" <> event.tag

-- The commit before the push, for the vendors whose payload has it.
abbrev pub old_of : Vendor → PushEvent → Option String
old_of gitlab event = none
old_of bitbucket event = none
old_of v event = some event.before

abbrev pub update_of : Vendor → PushEvent → Update
update_of v event = record { name = event_ref event; old = old_of v event; new = event.after }

encoded_body :
    (text : String) (header : Bytes → Header) (r : Result Bytes) (h : Header) (body : Bytes)
    → with_body text header r ≡ ok (h, body)
    → r ≡ ok body
encoded_body text header (err e) h body made = cc
encoded_body text header (ok b) h body made = ap ok (ap (λ x. x.1) (ok_inj made))

either_body :
    (b : Bool) (text text' : String) (header header' : Bytes → Header) (r r' : Result Bytes)
    (h : Header) (body : Bytes)
    → (if b then with_body text header r else with_body text' header' r') ≡ ok (h, body)
    → (r ≡ ok body) ⊎ (r' ≡ ok body)
either_body true text text' header header' r r' h body made =
    inl (encoded_body text header r h body made)
either_body false text text' header header' r r' h body made =
    inr (encoded_body text' header' r' h body made)

module _ (lib : Library) (noise : Noise) (event : PushEvent) (secret : String)
    (one : (event.branch == "") ≡ not (event.tag == "")) where
  push_ref-event_ref : Webhook.push_ref event ≡ event_ref event
  push_ref-event_ref = ground arith

  bitbucket_ref-event_ref : bitbucket_ref (Bitbucket.payload event) ≡ event_ref event
  bitbucket_ref-event_ref = elim (Bool-cases (event.tag == "")) [ inl e ↦ rw e | inr e ↦ rw e ]

  -- Of an event with a branch or a tag, but not both, the body of every vendor's webhook is the
  -- encoding of a payload that names one update: the event's reference with After as the new commit,
  -- and with Before as the old one, which GitLab's and Bitbucket's payloads do not have.
  pub build_webhook-Carries :
      (v : Vendor) (h : Header) (body : Bytes)
      → (vendor_provider lib v).build_webhook noise event secret ≡ ok (h, body)
      → Carries lib body v (update_of v event ∷ [])
  unfolding Webhook.build_webhook Gitlab.build_webhook Bitbucket.build_webhook
      BitbucketServer.build_webhook Gogs.build_webhook AzureDevOps.build_webhook
  build_webhook-Carries github h body made =
      subst
        (λ r.
          Carries lib body github
            (record { name = r; old = some event.before; new = event.after } ∷ []))
        push_ref-event_ref (github_body (Webhook.payload event) (encoded_body _ _ _ h body made))
  build_webhook-Carries gitlab h body made =
      gitlab_body (Gitlab.payload event) (either_body (event.tag == "") _ _ _ _ _ _ h body made)
  build_webhook-Carries bitbucket h body made =
      subst
        (λ r. Carries lib body bitbucket (record { name = r; old = none; new = event.after } ∷ []))
        bitbucket_ref-event_ref
        (bitbucket_body (Bitbucket.payload event) (encoded_body _ _ _ h body made))
  build_webhook-Carries bitbucketserver h body made =
      bitbucketserver_body (BitbucketServer.payload lib event) (encoded_body _ _ _ h body made)
  build_webhook-Carries gogs h body made =
      gogs_body (Gogs.payload event) (encoded_body _ _ _ h body made)
  build_webhook-Carries azuredevops h body made =
      azuredevops_body (AzureDevOps.payload lib noise event) (encoded_body _ _ _ h body made)

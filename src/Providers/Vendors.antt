-- ===== src/Providers/Vendors.antt =====
-- The six providers side by side: the registry that their packages' init functions fill, and what a
-- receiver makes of their webhooks.
pub mod Laws
pub mod Bodies
use git_simulator.Base.{
  ◌≡◌, ◌⊎◌, ℕ, ◌+◌, String, ◌==◌, ◌<>◌, Bool, true, false, if◌then◌else◌, Option, none, some, List,
  [], ◌∷◌, string_eq, lookup,
}
use git_simulator.Core.Provider.{PushEvent, Provider, Header, Bytes, Noise}
use git_simulator.Providers.Bytes.{utf8, hex}
use git_simulator.Core.Errors.{ok}
use git_simulator.Providers.Library.{
  Library, GithubPush, GitlabPush, BitbucketPush, BitbucketServerPush, RepositoryChange, GogsPush,
  AzurePush, RefUpdate,
}
use git_simulator.Providers.Registry.{ProviderRegistry, register}
use git_simulator.Providers.Github.Webhook
use git_simulator.Providers.Gitlab
use git_simulator.Providers.Bitbucket
use git_simulator.Providers.BitbucketServer
use git_simulator.Providers.Gogs
use git_simulator.Providers.AzureDevOps

pub data Vendor : Type 0 where
  github gitlab bitbucket bitbucketserver gogs azuredevops : Vendor

abbrev pub vendor_name : Vendor → String
vendor_name github = "github"
vendor_name gitlab = "gitlab"
vendor_name bitbucket = "bitbucket"
vendor_name bitbucketserver = "bitbucketserver"
vendor_name gogs = "gogs"
vendor_name azuredevops = "azuredevops"

abbrev pub vendor_provider : Library → Vendor → Provider
vendor_provider lib github = Webhook.provider lib
vendor_provider lib gitlab = Gitlab.provider lib
vendor_provider lib bitbucket = Bitbucket.provider lib
vendor_provider lib bitbucketserver = BitbucketServer.provider lib
vendor_provider lib gogs = Gogs.provider lib
vendor_provider lib azuredevops = AzureDevOps.provider lib

-- provider.Register(Provider{}) of each package that is imported
unfoldable pub register_all : Library → List Vendor → ProviderRegistry → ProviderRegistry
unfolding register
register_all lib [] registry = registry
register_all lib (v ∷ vs) registry = register_all lib vs (register (vendor_provider lib v) registry)

abbrev has : String → Header → Bool
has key h = elim (lookup key h) [ none ↦ false | some _ ↦ true ]

-- The vendor that a receiver takes a webhook for, by the headers in the order that the packages'
-- comments name: X-Gogs-Event before X-GitHub-Event, X-Hook-UUID before X-Event-Key.
unfoldable pub identified : Header → Option Vendor
unfolding lookup
identified h =
    if has "X-Gogs-Event" h
    then some gogs
    else if has "X-Github-Event" h
    then some github
    else if has "X-Gitlab-Event" h
    then some gitlab
    else if has "X-Hook-Uuid" h
    then some bitbucket
    else if has "X-Event-Key" h
    then some bitbucketserver
    else if has "X-Vss-Activityid" h
    then some azuredevops
    else none

-- The header that proves the sender knows the secret, and its value for a body.
abbrev pub proof_key : Vendor → String
proof_key github = "X-Hub-Signature-256"
proof_key gitlab = "X-Gitlab-Token"
proof_key bitbucket = "X-Hook-Uuid"
proof_key bitbucketserver = "X-Hub-Signature"
proof_key gogs = "X-Gogs-Signature"
proof_key azuredevops = "Authorization"

abbrev pub proof_for : Library → Vendor → String → Bytes → String
proof_for lib github secret body = "sha256=" <> hex (lib.hmac_sha256 (utf8 secret) body)
proof_for lib gitlab secret body = secret
proof_for lib bitbucket secret body = secret
proof_for lib bitbucketserver secret body = "sha256=" <> hex (lib.hmac_sha256 (utf8 secret) body)
proof_for lib gogs secret body = hex (lib.hmac_sha256 (utf8 secret) body)
proof_for lib azuredevops secret body = "Basic " <> lib.base64 (utf8 (":" <> secret))

-- A reference with its old and its new commit, as far as a vendor's payload has them.
pub record Update : Type 0 where
  pub name : String
  pub old : Option String
  pub new : String

-- How a receiver reads the reference of a payload of Bitbucket Cloud.
abbrev pub bitbucket_ref : BitbucketPush → String
bitbucket_ref p =
    if p.new_type == "tag" then "refs/tags/" <> p.new_name else "refs/heads/" <> p.new_name

abbrev pub changes_of : List RepositoryChange → List Update
changes_of [] = []
changes_of (c ∷ cs) =
    record { name = c.reference_id; old = some c.from_hash; new = c.to_hash } ∷ changes_of cs

abbrev pub ref_updates_of : List RefUpdate → List Update
ref_updates_of [] = []
ref_updates_of (u ∷ us) =
    record { name = u.name; old = some u.old_object_id; new = u.new_object_id } ∷ ref_updates_of us

-- The body is the encoding of a payload of the vendor that has these updates.
pub data Carries (lib : Library) (body : Bytes) : Vendor → List Update → Type 0 where
  github_body :
      (p : GithubPush)
      → lib.github_push p ≡ ok body
      → Carries lib body github (record { name = p.ref; old = some p.before; new = p.after } ∷ [])
  gitlab_body :
      (p : GitlabPush)
      → (lib.gitlab_push p ≡ ok body) ⊎ (lib.gitlab_tag p ≡ ok body)
      → Carries lib body gitlab (record { name = p.ref; old = none; new = p.checkout_sha } ∷ [])
  bitbucket_body :
      (p : BitbucketPush)
      → lib.bitbucket_push p ≡ ok body
      → Carries lib body bitbucket
          (record { name = bitbucket_ref p; old = none; new = p.target_hash } ∷ [])
  bitbucketserver_body :
      (p : BitbucketServerPush)
      → lib.bitbucket_server_push p ≡ ok body
      → Carries lib body bitbucketserver (changes_of p.changes)
  gogs_body :
      (p : GogsPush)
      → lib.gogs_push p ≡ ok body
      → Carries lib body gogs (record { name = p.ref; old = some p.before; new = p.after } ∷ [])
  azuredevops_body :
      (p : AzurePush)
      → lib.azure_push p ≡ ok body
      → Carries lib body azuredevops (ref_updates_of p.ref_updates)

-- ===== src/Providers/BitbucketServer.antt =====
-- pkg/provider/bitbucketserver.
use git_simulator.Base.{String, ◌==◌, ◌<>◌, if◌then◌else◌, [], ◌∷◌, string_eq, insert}
use git_simulator.Core.Errors.{Result}
use git_simulator.Core.Provider.{PushEvent, Provider, Header, Bytes, Noise}
use git_simulator.Providers.Library.{
  Library, set_header, set_unless_empty, json_header, with_body, BitbucketServerPush,
  RepositoryChange,
}
use git_simulator.Providers.Bytes.{utf8, hex}

-- RepoURL(host, owner, repo)
abbrev pub repo_url : String → String → String → String
repo_url host owner repo = "http://" <> host <> "/" <> owner <> "/" <> repo <> ".git"

-- The reference of an event: its tag if it has one, else its branch.
abbrev pub ref_name : PushEvent → String
ref_name event =
    if event.tag == "" then "refs/heads/" <> event.branch else "refs/tags/" <> event.tag

abbrev pub ssh_url : PushEvent → String
ssh_url event = "ssh://git@" <> event.host <> ":7999/" <> event.owner <> "/" <> event.repo <> ".git"

abbrev pub change : PushEvent → RepositoryChange
change event = record {
  id = ref_name event;
  display_id = event.branch;
  reference_id = ref_name event;
  from_hash = event.before;
  to_hash = event.after;
  type = "UPDATE";
}

module _ (lib : Library) where
  abbrev pub payload : PushEvent → BitbucketServerPush
  payload event = record {
    event_key = lib.refs_changed;
    changes = change event ∷ [];
    clone = ("http", repo_url event.host event.owner event.repo) ∷ ("ssh", ssh_url event) ∷ [];
  }

  -- buildWebhook(event, secret)
  unfoldable pub build_webhook : Noise → PushEvent → String → Result (Header × Bytes)
  unfolding insert hex utf8
  build_webhook noise event secret =
      with_body "marshal bitbucketserver payload: %w"
        (λ body.
          set_unless_empty secret "X-Hub-Signature"
            ("sha256=" <> hex (lib.hmac_sha256 (utf8 secret) body))
            (set_header "X-Event-Key" lib.refs_changed json_header))
        (lib.bitbucket_server_push (payload event))

  -- Provider{}, up to APIRoutes
  abbrev pub provider : Provider
  provider = record { name = "bitbucketserver"; repo_url = repo_url; build_webhook = build_webhook }

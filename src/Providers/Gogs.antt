-- ===== src/Providers/Gogs.antt =====
-- pkg/provider/gogs.
use git_simulator.Base.{String, ◌==◌, ◌<>◌, if◌then◌else◌, string_eq, insert}
use git_simulator.Core.Errors.{Result}
use git_simulator.Core.Provider.{PushEvent, Provider, Header, Bytes, Noise}
use git_simulator.Providers.Library.{
  Library, set_header, set_unless_empty, json_header, with_body, GogsPush,
}
use git_simulator.Providers.Bytes.{utf8, hex}

-- RepoURL(host, owner, repo)
abbrev pub repo_url : String → String → String → String
repo_url host owner repo = "https://" <> host <> "/" <> owner <> "/" <> repo

-- The reference of an event: its tag if it has one, else its branch.
abbrev pub ref_name : PushEvent → String
ref_name event =
    if event.tag == "" then "refs/heads/" <> event.branch else "refs/tags/" <> event.tag

abbrev pub payload : PushEvent → GogsPush
payload event = record {
  ref = ref_name event;
  before = event.before;
  after = event.after;
  repo_name = event.repo;
  html_url = repo_url event.host event.owner event.repo;
}

module _ (lib : Library) where
  -- buildWebhook(event, secret)
  unfoldable pub build_webhook : Noise → PushEvent → String → Result (Header × Bytes)
  unfolding insert hex utf8
  build_webhook noise event secret =
      with_body "marshal gogs payload: %w"
        (λ body.
          set_unless_empty secret "X-Gogs-Signature" (hex (lib.hmac_sha256 (utf8 secret) body))
            (set_header "X-Gogs-Event" "push" json_header))
        (lib.gogs_push (payload event))

  -- Provider{}, up to APIRoutes
  abbrev pub provider : Provider
  provider = record { name = "gogs"; repo_url = repo_url; build_webhook = build_webhook }

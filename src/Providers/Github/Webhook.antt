-- ===== src/Providers/Github/Webhook.antt =====
-- pkg/provider/github/github.go and webhook.go.
use git_simulator.Base.{String, ◌==◌, ◌<>◌, if◌then◌else◌, string_eq, insert}
use git_simulator.Core.Errors.{Result}
use git_simulator.Core.Provider.{PushEvent, Provider, Header, Bytes, Noise}
use git_simulator.Providers.Library.{
  Library, set_header, set_unless_empty, json_header, with_body, GithubPush,
}
use git_simulator.Providers.Bytes.{utf8, hex, new_uuid}

-- RepoURL(host, owner, repo)
abbrev pub repo_url : String → String → String → String
repo_url host owner repo = "https://" <> host <> "/" <> owner <> "/" <> repo

abbrev pub push_ref : PushEvent → String
push_ref event =
    if event.branch == ""
    then (if event.tag == "" then "" else "refs/tags/" <> event.tag)
    else "refs/heads/" <> event.branch

abbrev pub payload : PushEvent → GithubPush
payload event = record {
  ref = push_ref event;
  before = event.before;
  after = event.after;
  html_url = repo_url event.host event.owner event.repo;
}

module _ (lib : Library) where
  -- sign256(body, secret)
  unfoldable pub sign256 : Bytes → String → String
  unfolding hex utf8
  sign256 body secret = hex (lib.hmac_sha256 (utf8 secret) body)

  abbrev header : Noise → String → Header
  header noise event =
      set_header "X-Github-Delivery" (new_uuid noise)
        (set_header "X-Github-Event" event json_header)

  -- buildPushWebhook(event, secret)
  unfoldable pub build_webhook : Noise → PushEvent → String → Result (Header × Bytes)
  unfolding sign256 new_uuid insert
  build_webhook noise event secret =
      with_body "marshal push payload: %w"
        (λ body.
          set_unless_empty secret "X-Hub-Signature-256" ("sha256=" <> sign256 body secret)
            (header noise "push"))
        (lib.github_push (payload event))

  -- BuildPingWebhook()
  unfoldable pub build_ping_webhook : Noise → Result (Header × Bytes)
  unfolding new_uuid insert
  build_ping_webhook noise =
      with_body "marshal ping payload: %w" (λ body. header noise "ping") lib.github_ping

  -- Provider{}, up to APIRoutes
  abbrev pub provider : Provider
  provider = record { name = "github"; repo_url = repo_url; build_webhook = build_webhook }

-- ===== src/Providers/Gitlab.antt =====
-- pkg/provider/gitlab.
use git_simulator.Base.{String, ◌==◌, ◌<>◌, if◌then◌else◌, string_eq, insert}
use git_simulator.Core.Errors.{Result}
use git_simulator.Core.Provider.{PushEvent, Provider, Header, Bytes, Noise}
use git_simulator.Providers.Library.{
  Library, set_header, set_unless_empty, json_header, with_body, GitlabPush,
}

-- RepoURL(host, owner, repo)
abbrev pub repo_url : String → String → String → String
repo_url host owner repo = "https://" <> host <> "/" <> owner <> "/" <> repo

-- The payload with the reference of the tag, or of the branch.
abbrev pub payload : PushEvent → GitlabPush
payload event = record {
  ref = if event.tag == "" then "refs/heads/" <> event.branch else "refs/tags/" <> event.tag;
  checkout_sha = event.after;
  web_url = repo_url event.host event.owner event.repo;
}

module _ (lib : Library) where
  unfoldable pub header : String → String → Header
  header event secret =
      set_unless_empty secret "X-Gitlab-Token" secret
        (set_header "X-Gitlab-Event" event json_header)

  -- buildWebhook(event, secret)
  unfoldable pub build_webhook : Noise → PushEvent → String → Result (Header × Bytes)
  unfolding header insert
  build_webhook noise event secret =
      if event.tag == ""
      then with_body "marshal gitlab payload: %w" (λ body. header "Push Hook" secret)
          (lib.gitlab_push (payload event))
      else with_body "marshal gitlab payload: %w" (λ body. header "Tag Push Hook" secret)
          (lib.gitlab_tag (payload event))

  -- Provider{}, up to APIRoutes
  abbrev pub provider : Provider
  provider = record { name = "gitlab"; repo_url = repo_url; build_webhook = build_webhook }

-- ===== src/Providers/Bitbucket.antt =====
-- pkg/provider/bitbucket.
use git_simulator.Base.{String, ◌==◌, ◌<>◌, if◌then◌else◌, string_eq, insert}
use git_simulator.Core.Errors.{Result}
use git_simulator.Core.Provider.{PushEvent, Provider, Header, Bytes, Noise}
use git_simulator.Providers.Library.{
  Library, set_header, set_unless_empty, json_header, with_body, BitbucketPush,
}

-- RepoURL(host, owner, repo)
abbrev pub repo_url : String → String → String → String
repo_url host owner repo = "https://" <> host <> "/" <> owner <> "/" <> repo

abbrev pub payload : PushEvent → BitbucketPush
payload event = record {
  new_type = if event.tag == "" then "branch" else "tag";
  new_name = if event.tag == "" then event.branch else event.tag;
  target_type = "commit";
  target_hash = event.after;
  html_href = repo_url event.host event.owner event.repo;
}

module _ (lib : Library) where
  -- buildWebhook(event, uuid)
  unfoldable pub build_webhook : Noise → PushEvent → String → Result (Header × Bytes)
  unfolding insert
  build_webhook noise event uuid =
      with_body "marshal bitbucket payload: %w"
        (λ body.
          set_unless_empty uuid "X-Hook-Uuid" uuid
            (set_header "X-Event-Key" "repo:push" json_header))
        (lib.bitbucket_push (payload event))

  -- Provider{}, up to APIRoutes
  abbrev pub provider : Provider
  provider = record { name = "bitbucket"; repo_url = repo_url; build_webhook = build_webhook }

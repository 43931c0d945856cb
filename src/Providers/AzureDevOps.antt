-- ===== src/Providers/AzureDevOps.antt =====
-- pkg/provider/azuredevops.
use git_simulator.Base.{String, ◌==◌, ◌<>◌, if◌then◌else◌, [], ◌∷◌, string_eq, insert, ◌+◌}
use git_simulator.Core.Errors.{Result}
use git_simulator.Core.Provider.{PushEvent, Provider, Header, Bytes, Noise}
use git_simulator.Providers.Library.{
  Library, set_header, set_unless_empty, json_header, with_body, AzurePush,
}
use git_simulator.Providers.Bytes.{utf8, new_uuid}

-- RepoURL(host, owner, repo)
abbrev pub repo_url : String → String → String → String
repo_url host owner repo = "https://" <> host <> "/" <> owner <> "/_git/" <> repo

-- The reference of an event: its tag if it has one, else its branch.
abbrev pub ref_name : PushEvent → String
ref_name event =
    if event.tag == "" then "refs/heads/" <> event.branch else "refs/tags/" <> event.tag

module _ (lib : Library) where
  -- The random bytes of three UUIDs, and the time after them.
  abbrev pub payload : Noise → PushEvent → AzurePush
  payload noise event = record {
    event_type = lib.git_push;
    id = new_uuid noise;
    publisher_id = "tfs";
    created_date = lib.rfc3339 (noise 48);
    remote_url = repo_url event.host event.owner event.repo;
    repo_name = event.repo;
    ref_updates =
        record { name = ref_name event; new_object_id = event.after; old_object_id = event.before }
        ∷ [];
  }

  -- buildWebhook(event, secret)
  unfoldable pub build_webhook : Noise → PushEvent → String → Result (Header × Bytes)
  unfolding insert new_uuid utf8
  build_webhook noise event secret =
      with_body "marshal azuredevops payload: %w"
        (λ body.
          set_unless_empty secret "Authorization" ("Basic " <> lib.base64 (utf8 (":" <> secret))) (
            set_header "X-Vss-Subscriptionid" (new_uuid (λ n. noise (32 + n)))
              (set_header "X-Vss-Activityid" (new_uuid (λ n. noise (16 + n))) json_header)))
        (lib.azure_push (payload noise event))

  -- Provider{}, up to APIRoutes
  abbrev pub provider : Provider
  provider = record { name = "azuredevops"; repo_url = repo_url; build_webhook = build_webhook }

-- ===== src/Providers/Library.antt =====
-- What the providers use of other libraries: the payload types of go-playground/webhooks and
-- gogits/go-gogs-client by the fields that the source sets, their encoding by encoding/json, and
-- HMAC-SHA256, base64 and the formatting of a time.
use git_simulator.Base.{ℕ, String, List, [], ◌∷◌, string_eq, insert, if◌then◌else◌, ◌==◌}
use git_simulator.Core.Errors.{Result, ok, err, wrapped}
use git_simulator.Core.Provider.{Bytes, Header}

pub record GithubPush : Type 0 where
  pub ref : String
  pub before : String
  pub after : String
  pub html_url : String

-- The fields of PushEventPayload and of TagEventPayload.
pub record GitlabPush : Type 0 where
  pub ref : String
  pub checkout_sha : String
  pub web_url : String

pub record BitbucketPush : Type 0 where
  pub new_type : String
  pub new_name : String
  pub target_type : String
  pub target_hash : String
  pub html_href : String

pub record RepositoryChange : Type 0 where
  pub id : String
  pub display_id : String
  pub reference_id : String
  pub from_hash : String
  pub to_hash : String
  pub type : String

pub record BitbucketServerPush : Type 0 where
  pub event_key : String
  pub changes : List RepositoryChange
  pub clone : List (String × String)

pub record GogsPush : Type 0 where
  pub ref : String
  pub before : String
  pub after : String
  pub repo_name : String
  pub html_url : String

pub record RefUpdate : Type 0 where
  pub name : String
  pub new_object_id : String
  pub old_object_id : String

pub record AzurePush : Type 0 where
  pub event_type : String
  pub id : String
  pub publisher_id : String
  pub created_date : String
  pub remote_url : String
  pub repo_name : String
  pub ref_updates : List RefUpdate

pub record Library : Type 0 where
  -- hmac.New(sha256.New, key), written the message
  pub hmac_sha256 : Bytes → Bytes → Bytes
  -- base64.StdEncoding.EncodeToString
  pub base64 : Bytes → String
  -- t.UTC().Format(time.RFC3339Nano)
  pub rfc3339 : ℕ → String
  -- json.Marshal
  pub github_push : GithubPush → Result Bytes
  pub github_ping : Result Bytes
  pub gitlab_push : GitlabPush → Result Bytes
  pub gitlab_tag : GitlabPush → Result Bytes
  pub bitbucket_push : BitbucketPush → Result Bytes
  pub bitbucket_server_push : BitbucketServerPush → Result Bytes
  pub gogs_push : GogsPush → Result Bytes
  pub azure_push : AzurePush → Result Bytes
  -- The constants of the payload packages.
  pub refs_changed : String
  pub git_push : String

-- h.Set(key, value)
abbrev pub set_header : String → String → Header → Header
set_header key value h = insert key (value ∷ []) h

-- if value != "" { h.Set(key, ...) }
abbrev pub set_unless_empty : String → String → String → Header → Header
set_unless_empty test key value h = if test == "" then h else set_header key value h

-- The header that every provider begins with.
abbrev pub json_header : Header
json_header = ("Content-Type", "application/json" ∷ []) ∷ []

-- if err != nil { return nil, nil, fmt.Errorf(text, err) }
abbrev pub with_body : String → (Bytes → Header) → Result Bytes → Result (Header × Bytes)
with_body text header (err e) = err (wrapped text [] e)
with_body text header (ok body) = ok (header body, body)

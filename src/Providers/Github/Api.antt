-- ===== src/Providers/Github/Api.antt =====
-- commitsHandler of pkg/provider/github/api.go. `quote` is the verb %q of package fmt.
use git_simulator.Base.{ℕ, String, ◌==◌, ◌<>◌, if◌then◌else◌, Bool, true, false}

-- What a handler writes; http.Error adds the newline.
pub record Written : Type 0 where
  pub status : ℕ
  pub content_type : String
  pub body : String

abbrev accept_sha : String
accept_sha = "application/vnd.github.v3.sha"

abbrev not_found_text : String → String → String → String
not_found_text owner repo branch = "not found: " <> owner <> "/" <> repo <> "@" <> branch <> "\n"

-- commitsHandler(w, r, resolve), for the commit and the flag that `resolve` returns
unfoldable pub commits_handler :
    (String → String) → String → String → String → String → String × Bool → Written
commits_handler quote owner repo branch accept (sha, false) = record {
  status = 404;
  content_type = "text/plain; charset=utf-8";
  body = not_found_text owner repo branch;
}
commits_handler quote owner repo branch accept (sha, true) =
    if accept == accept_sha
    then record { status = 200; content_type = accept_sha; body = sha }
    else record {
      status = 200;
      content_type = "application/json";
      body = "{\"sha\":" <> quote sha <> "}";
    }

-- ===== src/Providers/Toy.antt =====
-- A small library for the tests of the providers.
use git_simulator.Base.{[], ◌∷◌, ◌++◌}
use git_simulator.Core.Errors.{ok}
use git_simulator.Providers.Library.{Library}

-- A library whose encodings keep little.
abbrev pub library : Library
library = record {
  hmac_sha256 = λ key text. key ++ text;
  base64 = λ b. "b64";
  rfc3339 = λ n. "now";
  github_push = λ p. ok (123 ∷ []);
  github_ping = ok (123 ∷ []);
  gitlab_push = λ p. ok (123 ∷ []);
  gitlab_tag = λ p. ok (123 ∷ []);
  bitbucket_push = λ p. ok (123 ∷ []);
  bitbucket_server_push = λ p. ok (123 ∷ []);
  gogs_push = λ p. ok (123 ∷ []);
  azure_push = λ p. ok (123 ∷ []);
  refs_changed = "repo:refs_changed";
  git_push = "git.push";
}

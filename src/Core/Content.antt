-- ===== src/Core/Content.antt =====
-- pkg/core/content.go: where the files of a commit come from.
use git_simulator.Base.{ℕ, String, List}
use git_simulator.Core.Errors.{Result, ok}

-- map[string][]byte
abbrev pub Files : Type 0
Files = List (String × List ℕ)

pub record ContentContext : Type 0 where
  pub repo : String
  pub branch : String
  pub commit_sha : String
  pub index : ℕ

-- The interface `ContentProvider`: the answer to one call of `Files`.
abbrev pub ContentProvider : Type 0
ContentProvider = ContentContext → Result Files

-- StaticContent
unfoldable pub static_content : Files → ContentProvider
static_content files _ = ok files

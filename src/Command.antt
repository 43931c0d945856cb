-- ===== src/Command.antt =====
-- cmd/gitsim/main.go: how the flags become a simulator.
pub mod Laws
pub mod Vendors
mod Tests
use Prim.Native.Char.{Char, code}
use Prim.Native.String as Text
use git_simulator.Base.{
  ℕ, String, ◌==◌, ◌<>◌, Bool, true, false, ◌&&◌, ◌||◌, if◌then◌else◌, List, [], ◌∷◌, nat_eq, leb,
  ℤ,
}
use git_simulator.Core.Errors.{Result, ok, err}
use git_simulator.Store.Git.{Git}
use git_simulator.Providers.Registry.{ProviderRegistry}
use git_simulator.Gitsim.Simulator.{Simulator, set_base_url}
use git_simulator.Gitsim.Config.{SimOption, with_content, with_providers, new}
use git_simulator.Core.LocalDir.{Node, local_dir}

-- unicode.IsSpace
abbrev pub is_space : ℕ → Bool
is_space c =
    (leb 9 c && leb c 13)
    || nat_eq c 32
    || nat_eq c 133
    || nat_eq c 160
    || nat_eq c 5760
    || (leb 8192 c && leb c 8202)
    || nat_eq c 8232
    || nat_eq c 8233
    || nat_eq c 8239
    || nat_eq c 8287
    || nat_eq c 12288

unfoldable pub trim_left : String → String
trim_left Text.[] = ""
trim_left (Text.◌∷◌ c s) =
    let rest = trim_left s in if is_space (code c) then rest else Text.◌∷◌ c s

unfoldable pub trim_right : String → String
trim_right Text.[] = ""
trim_right (Text.◌∷◌ c s) =
    let rest = trim_right s in if is_space (code c) && (rest == "") then "" else Text.◌∷◌ c rest

-- strings.TrimSpace(s)
unfoldable pub trim_space : String → String
unfolding trim_left trim_right
trim_space s = trim_right (trim_left s)

-- A character in front of the first part.
abbrev pub grow : Char → List String → List String
grow c [] = Text.◌∷◌ c "" ∷ []
grow c (part ∷ parts) = Text.◌∷◌ c part ∷ parts

-- strings.Split(s, ",")
unfoldable pub split : String → List String
split Text.[] = "" ∷ []
split (Text.◌∷◌ c s) = let rest = split s in if nat_eq (code c) b',' then "" ∷ rest else grow c rest

-- The parts that are not empty after the spaces around them are gone.
unfoldable pub trimmed : List String → List String
unfolding trim_space
trimmed [] = []
trimmed (part ∷ parts) =
    let rest = trimmed parts in let t = trim_space part in if t == "" then rest else t ∷ rest

-- splitTrimmed(s)
unfoldable pub split_trimmed : String → List String
unfolding split trimmed
split_trimmed s = trimmed (split s)

-- The base URL, for the port that net.SplitHostPort finds in -listen, empty if there is none.
unfoldable pub base_url : String → String → String
base_url git_base_url port =
    let port' = if port == "" then "8080" else port in
    if git_base_url == "" then "http://localhost:" <> port' else git_base_url

-- The options that main gives to New; `disk` is what os.Stat finds at a path.
unfoldable pub options_of :
    ProviderRegistry → (String → Result Node) → String → String → List SimOption
unfolding split_trimmed with_providers local_dir
options_of registry disk vendors content_dir =
    let enabled = with_providers registry (split_trimmed vendors) in
    if content_dir == ""
    then enabled ∷ []
    else enabled ∷ with_content (local_dir content_dir "." (disk content_dir)) ∷ []

module _ (g : Git) (parse_host : String → Result String) where
  unfoldable pub based : String → Result ((ℕ → ℤ) × Simulator g) → Result ((ℕ → ℤ) × Simulator g)
  unfolding set_base_url
  based url (err e) = err e
  based url (ok (clock, sim)) = elim (set_base_url g parse_host url sim).0 [
    | err e ↦ err e
    | ok _ ↦ ok (clock, (set_base_url g parse_host url sim).1)
  ]

  -- main(), up to the HTTP server: the flags -vendors, -content-dir and -git-base-url, and the port
  -- of -listen
  unfoldable pub start :
      (ℕ → ℤ)
      → ProviderRegistry
      → (String → Result Node)
      → String
      → String
      → String
      → String
      → Result ((ℕ → ℤ) × Simulator g)
  unfolding based options_of base_url new
  start real registry disk vendors content_dir git_base_url port =
      based (base_url git_base_url port) (new g real (options_of registry disk vendors content_dir))

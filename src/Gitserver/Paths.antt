-- ===== src/Gitserver/Paths.antt =====
-- The paths of pkg/gitserver/resolve.go and server.go.
pub mod Laws
use mathlib.Core.Option
use Prim.Native.Char.{Char, code}
use Prim.Native.String as Text
use git_simulator.Base.{
  ℕ, String, Bool, true, false, ◌==◌, nat_eq, if◌then◌else◌, ◌&&◌, ◌||◌, Option, none, some,
}
use git_simulator.Store.Commit.{cut_slash}

-- strings.TrimPrefix(urlPath, "/")
unfoldable pub trim_slash : String → String
trim_slash Text.[] = ""
trim_slash (Text.◌∷◌ c s) = if nat_eq (code c) b'/' then s else Text.◌∷◌ c s

-- strings.HasPrefix(s, prefix)
unfoldable pub has_prefix : String → String → Bool
has_prefix s Text.[] = true
has_prefix Text.[] (Text.◌∷◌ d p) = false
has_prefix (Text.◌∷◌ c s) (Text.◌∷◌ d p) = nat_eq (code c) (code d) && has_prefix s p

-- path[:strings.Index(path, sub)], for a `sub` that is not empty; `none` is the index -1
unfoldable pub before : String → String → Option String
unfolding has_prefix
before sub Text.[] = none
before sub (Text.◌∷◌ c s) =
    let later = Option.map (λ p. Text.◌∷◌ c p) (before sub s) in
    if has_prefix (Text.◌∷◌ c s) sub then some "" else later

-- strings.CutSuffix(s, suffix): HasSuffix and TrimSuffix in one
unfoldable pub cut_suffix : String → String → Option String
cut_suffix suffix Text.[] = if "" == suffix then some "" else none
cut_suffix suffix (Text.◌∷◌ c s) =
    let later = Option.map (λ p. Text.◌∷◌ c p) (cut_suffix suffix s) in
    if Text.◌∷◌ c s == suffix then some "" else later

-- strings.TrimSuffix(s, suffix)
unfoldable pub trim_suffix : String → String → String
unfolding cut_suffix
trim_suffix s suffix = elim (cut_suffix suffix s) [ none ↦ s | some t ↦ t ]

-- parts := strings.SplitN(repoPath, "/", 2), which must be two and not empty
unfoldable pub nonempty_parts : Option (String × String) → Option (String × String)
nonempty_parts none = none
nonempty_parts (some (owner, name)) =
    if (owner == "") || (name == "") then none else some (owner, name)

unfoldable pub owner_and_name : Option String → Option (String × String)
unfolding cut_slash nonempty_parts
owner_and_name none = none
owner_and_name (some path) = nonempty_parts (cut_slash path)

-- The owner and the name in a path "/owner/repo.git[/...]".
unfoldable pub parse_path : String → Option (String × String)
unfolding trim_slash before owner_and_name
parse_path path = owner_and_name (before ".git" (trim_slash path))

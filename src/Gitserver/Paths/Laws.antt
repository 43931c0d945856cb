-- ===== src/Gitserver/Paths/Laws.antt =====
-- A clone URL leads back to its repository.
use Prim.Native.String as Text
use text.Mathlib.TextLemmas.{nil-append, cons-append, append_assoc}
use git_simulator.Base.{ℕ, String, ◌<>◌, some, ◌≡◌, ◌≢◌, refl, sym, ◌∙◌, ap, str_eq_ne}
use git_simulator.Store.Commit.Slash.{Free, cut_slash-append}
use git_simulator.Gitserver.Paths.{
  trim_slash, has_prefix, before, owner_and_name, nonempty_parts, parse_path,
}

Free-append : (n : ℕ) (s t : String) → Free n s → Free n t → Free n (s <> t)
Free-append n Text.[] t f f' = rw (nil-append t) f'
Free-append n (Text.◌∷◌ c s) t f f' = rw (cons-append c s t) (f.0, Free-append n s t f.1 f')

dot_git : String → String
dot_git rest = Text.◌∷◌ "." (Text.◌∷◌ "g" (Text.◌∷◌ "i" (Text.◌∷◌ "t" rest)))

append-dot_git : (rest : String) → ".git" <> rest ≡ dot_git rest
unfolding dot_git
append-dot_git rest =
    cons-append "." "git" rest
    ∙ ap (Text.◌∷◌ ".") (
        cons-append "g" "it" rest
        ∙ ap (Text.◌∷◌ "g") (
            cons-append "i" "t" rest
            ∙ ap (Text.◌∷◌ "i") (cons-append "t" "" rest ∙ ap (Text.◌∷◌ "t") (nil-append rest))))

before-dot_git : (x rest : String) → Free b'.' x → before ".git" (x <> dot_git rest) ≡ some x
unfolding before has_prefix dot_git
before-dot_git Text.[] rest f = rw (nil-append (dot_git rest)) refl
before-dot_git (Text.◌∷◌ c x) rest f =
    rw (cons-append c x (dot_git rest), f.0, before-dot_git x rest f.1) refl

slash-append : (s : String) → "/" <> s ≡ Text.◌∷◌ "/" s
slash-append s = cons-append "/" "" s ∙ ap (Text.◌∷◌ "/") (nil-append s)

trim_slash-slash : (s : String) → trim_slash ("/" <> s) ≡ s
unfolding trim_slash
trim_slash-slash s = rw (slash-append s) refl

-- The path of a request for a repository, with what follows ".git".
abbrev pub request_path : String → String → String → String
request_path owner name rest = "/" <> owner <> "/" <> name <> ".git" <> rest

request_path-parts :
    (owner name rest : String)
    → owner <> "/" <> name <> ".git" <> rest ≡ (owner <> Text.◌∷◌ "/" name) <> dot_git rest
request_path-parts owner name rest =
    ap (λ t. owner <> "/" <> name <> t) (append-dot_git rest)
    ∙ ap (λ t. owner <> t)
        (slash-append (name <> dot_git rest) ∙ sym (cons-append "/" name (dot_git rest)))
    ∙ sym (append_assoc owner (Text.◌∷◌ "/" name) (dot_git rest))

-- For an owner without a slash, and an owner and a name that are not empty and have no dot, the path
-- "/owner/name.git" with anything after it is read as that owner and that name.
pub parse_path-request_path :
    (owner name rest : String)
    → Free b'/' owner
    → Free b'.' owner
    → Free b'.' name
    → owner ≢ ""
    → name ≢ ""
    → parse_path (request_path owner name rest) ≡ some (owner, name)
unfolding parse_path owner_and_name nonempty_parts
parse_path-request_path owner name rest no_slash no_dot no_dot' ne ne' =
    rw
      (
        trim_slash-slash (owner <> "/" <> name <> ".git" <> rest),
        request_path-parts owner name rest,
        before-dot_git (owner <> Text.◌∷◌ "/" name) rest
            (Free-append b'.' owner (Text.◌∷◌ "/" name) no_dot (refl, no_dot')),
        cut_slash-append owner name no_slash,
        str_eq_ne owner "" ne,
        str_eq_ne name "" ne',
      )
      refl

-- ===== src/Gitserver/Pack/Answers.antt =====
-- ServeHTTP: each repository of the store can be fetched from.
use Prim.Native.String as Text
use Prim.Native.Char.{Char}
use text.Mathlib.TextLemmas.{nil-append, cons-append, append_assoc}
use git_simulator.Base.{
  ◌+◌, String, ◌<>◌, ◌≡◌, ◌≢◌, refl, ◌∙◌, ap, subst, some, ℤ, get_elem?, ◌++◌, arith, str_eq_ne,
  str_eq_refl, lookup,
}
use git_simulator.Core.Errors.{Result, ok, err, ok_inj}
use git_simulator.Core.Provider.{Bytes}
use git_simulator.Store.Git.{Git, GitLaws}
use git_simulator.Store.Commit.{text_length}
use git_simulator.Store.Commit.Total.{Succeeds}
use git_simulator.Store.Commit.Slash.{Free}
use git_simulator.Store.Repo.{Repo, visible_refs}
use git_simulator.Store.Registry.{
  RepoKey, RepoRef, key_Eq, Store, on_repo, deref, get_repo, found_or,
}
use git_simulator.Store.Registry.History.{IsSound}
use git_simulator.Gitserver.Paths.{parse_path, cut_suffix}
use git_simulator.Gitserver.Paths.Laws.{request_path, parse_path-request_path}
use git_simulator.Gitserver.Serve.{
  Answer, info_refs, flushed, flush, find_repo, resolve_repo, answered, handle, serve,
}
use git_simulator.Gitserver.Serve.Laws.{resolve_repo-Current}
use git_simulator.Gitserver.Pack.{
  PackServer, sent, shallow, announcing, announced, advertise, replied, serve_http,
}

text_length-append : (s t : String) → text_length (s <> t) ≡ text_length s + text_length t
text_length-append Text.[] t = rw (nil-append t) (omega arith)
text_length-append (Text.◌∷◌ c s) t = rw (cons-append c s t) (omega (arith, text_length-append s t))

-- A suffix that is not empty is cut from what it was put behind.
cut_suffix-append :
    (c : Char) (suffix s : String)
    → cut_suffix (Text.◌∷◌ c suffix) (s <> Text.◌∷◌ c suffix) ≡ some s
unfolding cut_suffix
cut_suffix-append c suffix Text.[] =
    rw (nil-append (Text.◌∷◌ c suffix), str_eq_refl (Text.◌∷◌ c suffix)) refl
cut_suffix-append c suffix (Text.◌∷◌ d s) =
    let longer : Text.◌∷◌ d (s <> Text.◌∷◌ c suffix) ≢ Text.◌∷◌ c suffix =
      λ e. omega (arith, ap text_length e, text_length-append s (Text.◌∷◌ c suffix)) in
    rw (cons-append d s (Text.◌∷◌ c suffix), str_eq_ne _ _ longer, cut_suffix-append c suffix s)
      refl

info_refs_path :
    (owner name : String)
    → cut_suffix "/info/refs" (request_path owner name "/info/refs")
      ≡ some (request_path owner name "")
info_refs_path owner name =
    let tail : String = "/info/refs" in
    let joined : request_path owner name "" <> tail ≡ request_path owner name tail =
      append_assoc "/" (owner <> "/" <> name <> ".git") tail
      ∙ ap (λ t. "/" <> t) (append_assoc owner ("/" <> name <> ".git") tail)
      ∙ ap (λ t. "/" <> owner <> t) (append_assoc "/" (name <> ".git") tail)
      ∙ ap (λ t. "/" <> owner <> "/" <> t) (append_assoc name ".git" tail) in
    subst (λ q. cut_suffix tail q ≡ some (request_path owner name "")) joined
      (cut_suffix-append "/" "info/refs" (request_path owner name ""))

-- What go-git's storage in memory and its sessions do: references can be listed, and a session on
-- any storer opens and lists its references.
pub record Works (g : Git) (p : PackServer g) : Type 0 where
  pub lists : (s : g.State) → Succeeds (g.iter_references s)
  pub opens : (s : g.State) → Succeeds (p.new_session s)
  pub advertises : (sess : p.Session) → Succeeds (p.advertised sess).0

module _ (g : Git) (p : PackServer g) (works : Works g p) (now : ℤ) where
  flush-ok :
      (key : RepoKey) (ref : RepoRef) (r : Repo g) (s : Store g)
      → get_elem? s.heap ref ≡ some r
      → (flush g (λ _. now) key (ok ref) s).0 ≡ ok ref
  unfolding flush flushed on_repo deref visible_refs
  flush-ok key ref r s there =
      let (refs, listed) = works.lists (visible_refs g (λ _. now) r).1.storer in
      rw (there, listed) refl

  resolve_repo-ok :
      (host owner name path : String) (ref : RepoRef) (s : Store g)
      → IsSound g s
      → parse_path path ≡ some (owner, name)
      → lookup (record { host = host; owner = owner; name = name }) s.repos ≡ some ref
      → (resolve_repo g (λ _. now) host path s).0 ≡ ok ref
  unfolding resolve_repo find_repo get_repo found_or
  resolve_repo-ok host owner name path ref s sound parsed found =
      let (r, there, _) = sound.valid.live _ ref found in
      rw (parsed, found)
        (flush-ok (record { host = host; owner = owner; name = name }) ref r s there)

  answered-ok :
      (f : RepoRef → Answer) (ref : RepoRef) (x : Result RepoRef × Store g)
      → x.0 ≡ ok ref
      → answered g f x ≡ (f ref, x.1)
  unfolding answered
  answered-ok f ref (ok ref', t) h = ap (λ i. (f i, t)) (ok_inj h)
  answered-ok f ref (err e, t) h = absurd (cc)

  advertise-sent :
      (storer : g.State)
      → (text : Bytes) × (advertise g p "git-upload-pack" storer
          ≡ sent "application/x-git-upload-pack-advertisement" text)
  unfolding advertise announcing announced
  advertise-sent storer =
      let (sess, opened) = works.opens storer in
      let (refs, listed) = works.advertises sess in
      (
        p.encode_line "# service=git-upload-pack\n"
            ++ (p.flush_line ++ p.encode_refs (p.set_shallow refs (p.advertised sess).1).0),
        rw (opened, shown sess refs (p.advertised sess) listed) refl,
      )
    where
      shown :
          (sess : p.Session) (refs : p.Refs) (y : Result p.Refs × p.Session)
          → y.0 ≡ ok refs
          → shallow g p y ≡ ok (p.set_shallow refs y.1)
      shown sess refs (ok refs', end) h = ap (λ r. ok (p.set_shallow r end)) (ok_inj h)
      shown sess refs (err e, end) h = absurd (cc)

  -- In a sound store, where go-git lists references and opens sessions, a GET of the references that
  -- asks for git-upload-pack is answered without an error for every repository of the store on the
  -- host whose owner and name can stand in a path.
  pub serve_http-Answers :
      (laws : GitLaws g) (host owner name : String) (body : Bytes) (ref : RepoRef) (s : Store g)
      → IsSound g s
      → lookup (record { host = host; owner = owner; name = name }) s.repos ≡ some ref
      → Free b'/' owner
      → Free b'.' owner
      → Free b'.' name
      → owner ≢ ""
      → name ≢ ""
      → (text : Bytes) × ((serve_http g p
            (λ _. now)
            host
            "GET"
            (request_path owner name "/info/refs")
            "git-upload-pack"
            body
            s).0
          ≡ sent "application/x-git-upload-pack-advertisement" text)
  unfolding serve_http serve handle replied
  serve_http-Answers laws host owner name body ref s sound found slash dot dot' ne ne' =
      let path = request_path owner name "" in
      let parsed = parse_path-request_path owner name "" slash dot dot' ne ne' in
      let resolved = resolve_repo-ok host owner name path ref s sound parsed found in
      let (_, _, _, current) = resolve_repo-Current g laws now host path s ref sound resolved in
      let (text, done) = advertise-sent current.after.storer in
      (
        text,
        rw
            (
              info_refs_path owner name,
              answered-ok info_refs ref (resolve_repo g (λ _. now) host path s) resolved,
              current.is_now,
            )
            done,
      )

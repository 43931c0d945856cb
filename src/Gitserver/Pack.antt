-- ===== src/Gitserver/Pack.antt =====
-- infoRefs and uploadPack of pkg/gitserver/uploadpack.go, and ServeHTTP of server.go with them.
pub mod Sessions
pub mod Served
pub mod Answers
use git_simulator.Base.{
  ℕ, String, ◌==◌, if◌then◌else◌, Bool, true, false, Option, none, some, List, [], ◌∷◌, ◌++◌, ℤ,
  get_elem?,
}
use git_simulator.Core.Errors.{Error, message, wrapped, wrap, Result, ok, err}
use git_simulator.Core.Provider.{Bytes}
use git_simulator.Store.Git.{Git}
use git_simulator.Store.Repo.{Repo}
use git_simulator.Store.Registry.{RepoRef, Store}
use git_simulator.Gitserver.Serve.{Answer, not_found, refused, info_refs, upload_pack, serve}

-- What the source uses of go-git's server: sessions on a storer, the references that a session
-- advertises, whose capabilities the session shares, and the encodings.
pub record PackServer (g : Git) : Type 1 where
  pub Session : Type 0
  pub Refs : Type 0
  pub Request : Type 0
  -- newSession: transport.NewEndpoint and NewUploadPackSession
  pub new_session : g.State → Result Session
  -- sess.AdvertisedReferencesContext
  pub advertised : Session → Result Refs × Session
  -- refs.Capabilities.Set(capability.Shallow), seen by the session too
  pub set_shallow : Refs → Session → Refs × Session
  -- pktline's Encodef and Flush, refs.Encode
  pub encode_line : String → Bytes
  pub flush_line : Bytes
  pub encode_refs : Refs → Bytes
  -- req.Decode, sess.UploadPack and the encoding of its answer
  pub decode : Bytes → Result Request
  pub upload : Session → Request → Result Bytes

-- http.Error with a status, or an answer with its Content-Type; the latter is not to be cached.
pub data HttpReply : Type 0 where
  failed : ℕ → Error → HttpReply
  sent : String → Bytes → HttpReply

module _ (g : Git) (p : PackServer g) where
  -- The session with what it advertises, after the shallow capability was set.
  abbrev pub shallow : Result p.Refs × p.Session → Result (p.Refs × p.Session)
  shallow (err e, sess) = err e
  shallow (ok refs, sess) = ok (p.set_shallow refs sess)

  -- The lines of infoRefs from newSession to the shallow capability.
  unfoldable pub announcing : Result p.Session → Result (p.Refs × p.Session)
  announcing (err e) = err (wrapped "create session: %v" [] e)
  announcing (ok sess) = wrap "advertise refs: %v" [] (shallow (p.advertised sess))

  -- The same lines of uploadPack.
  unfoldable pub uploading : Result p.Session → Result (p.Refs × p.Session)
  uploading (err e) = err (wrapped "create session: %v" [] e)
  uploading (ok sess) = wrap "init session: %v" [] (shallow (p.advertised sess))

  unfoldable pub announced : Result (p.Refs × p.Session) → HttpReply
  announced (err e) = failed 500 e
  announced (ok (refs, sess)) =
      sent "application/x-git-upload-pack-advertisement"
        (p.encode_line "# service=git-upload-pack\n" ++ (p.flush_line ++ p.encode_refs refs))

  -- infoRefs(w, r, s), for the value of `service` in the query
  unfoldable pub advertise : String → g.State → HttpReply
  unfolding announced announcing
  advertise service storer =
      if service == "git-upload-pack"
      then announced (announcing (p.new_session storer))
      else failed 403 (message "only git-upload-pack is supported" [])

  unfoldable pub uploaded : Result Bytes → HttpReply
  uploaded (err e) = failed 500 (wrapped "upload pack: %v" [] e)
  uploaded (ok pack) = sent "application/x-git-upload-pack-result" pack

  unfoldable pub requested : p.Session → Result p.Request → HttpReply
  unfolding uploaded
  requested sess (err e) = failed 400 (wrapped "decode request: %v" [] e)
  requested sess (ok req) = uploaded (p.upload sess req)

  unfoldable pub with_session : Result (p.Refs × p.Session) → Bytes → HttpReply
  unfolding requested
  with_session (err e) body = failed 500 e
  with_session (ok (refs, sess)) body = requested sess (p.decode body)

  -- uploadPack(w, r, s), for the body of the request
  unfoldable pub send_pack : Bytes → g.State → HttpReply
  unfolding with_session uploading
  send_pack body storer = with_session (uploading (p.new_session storer)) body

  -- repo.Storer() of the repository behind a pointer
  abbrev pub on_storer : (g.State → HttpReply) → Option (Repo g) → HttpReply
  on_storer f none = failed 404 (message "dangling pointer" [])
  on_storer f (some r) = f r.storer

  unfoldable pub replied : String → Bytes → Answer × Store g → HttpReply × Store g
  unfolding advertise send_pack
  replied service body (not_found, s) = (failed 404 (message "404 page not found" []), s)
  replied service body (refused e, s) = (failed 404 e, s)
  replied service body (info_refs ref, s) =
      (on_storer (advertise service) (get_elem? s.heap ref), s)
  replied service body (upload_pack ref, s) = (on_storer (send_pack body) (get_elem? s.heap ref), s)

  -- h.ServeHTTP(w, r), for the method, the path, the `service` of the query and the body
  unfoldable pub serve_http :
      (ℕ → ℤ) → String → String → String → String → Bytes → Store g → HttpReply × Store g
  unfolding replied serve
  serve_http now host method path service body s =
      replied service body (serve g now host method path s)

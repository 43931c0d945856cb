-- ===== src/Gitserver/Pack/Sessions.antt =====
-- infoRefs and uploadPack on a storer: what they write when they write no error.
use git_simulator.Base.{String, ◌==◌, ◌≡◌, refl, ◌∙◌, ap, inl, inr, ◌++◌, Bool-cases, eq_iff}
use git_simulator.Core.Errors.{Result, ok, err, ok_inj, wrap-ok, Result-cases}
use git_simulator.Core.Provider.{Bytes}
use git_simulator.Store.Git.{Git}
use git_simulator.Gitserver.Pack.{
  PackServer, sent, shallow, announcing, uploading, announced, advertise, uploaded, requested,
  with_session, send_pack,
}

module _ (g : Git) (p : PackServer g) where
  -- A session on the storer, and its references with the shallow capability.
  pub record Session (storer : g.State) : Type 0 where
    pub opened : p.Session
    pub opens : p.new_session storer ≡ ok opened
    pub plain : p.Refs
    pub listed : (p.advertised opened).0 ≡ ok plain
    pub refs : p.Refs
    pub session : p.Session
    pub capable : p.set_shallow plain (p.advertised opened).1 ≡ (refs, session)

  -- The text is the header line, a flush, and the references of a session on the storer.
  pub record Announces (storer : g.State) (text : Bytes) : Type 0 where
    pub on : Session storer
    pub lines :
        text
        ≡ p.encode_line "# service=git-upload-pack\n" ++ (p.flush_line ++ p.encode_refs on.refs)

  -- The text is what a session on the storer answers to the request in the body.
  pub record Packs (storer : g.State) (body text : Bytes) : Type 0 where
    pub on : Session storer
    pub request : p.Request
    pub decoded : p.decode body ≡ ok request
    pub answers : p.upload on.session request ≡ ok text

  shallow-Session :
      (storer : g.State) (sess : p.Session) (y : Result p.Refs × p.Session) (x : p.Refs × p.Session)
      → p.new_session storer ≡ ok sess
      → p.advertised sess ≡ y
      → shallow g p y ≡ ok x
      → (on : Session storer) × (◌≡◌ {A = p.Refs × p.Session} (on.refs, on.session) x)
  shallow-Session storer sess (err e, sess') x opens listed h = absurd (cc)
  shallow-Session storer sess (ok plain, sess') (refs, end) opens listed h = (
    record {
      opened = sess;
      opens = opens;
      plain = plain;
      listed = ap (λ y. y.0) listed;
      refs = refs;
      session = end;
      capable = ap (λ y. p.set_shallow plain y.1) listed ∙ ok_inj h;
    },
    refl,
  )

  announcing-Session :
      (storer : g.State) (x : p.Refs × p.Session)
      → announcing g p (p.new_session storer) ≡ ok x
      → (on : Session storer) × (◌≡◌ {A = p.Refs × p.Session} (on.refs, on.session) x)
  unfolding announcing
  announcing-Session storer x h = elim (Result-cases (p.new_session storer)) [
    | inr (e, q) ↦ let h' = rw q at h in absurd (cc)
    | inl (sess, q) ↦ shallow-Session storer sess _ x q refl (wrap-ok _ _ _ x (rw q at h))
  ]

  uploading-Session :
      (storer : g.State) (x : p.Refs × p.Session)
      → uploading g p (p.new_session storer) ≡ ok x
      → (on : Session storer) × (◌≡◌ {A = p.Refs × p.Session} (on.refs, on.session) x)
  unfolding uploading
  uploading-Session storer x h = elim (Result-cases (p.new_session storer)) [
    | inr (e, q) ↦ let h' = rw q at h in absurd (cc)
    | inl (sess, q) ↦ shallow-Session storer sess _ x q refl (wrap-ok _ _ _ x (rw q at h))
  ]

  announced-Announces :
      (content_type : String) (text : Bytes) (storer : g.State) (r : Result (p.Refs × p.Session))
      → announcing g p (p.new_session storer) ≡ r
      → announced g p r ≡ sent content_type text
      → (content_type ≡ "application/x-git-upload-pack-advertisement") × Announces storer text
  unfolding announced
  announced-Announces content_type text storer (err e) q h = absurd (cc)
  announced-Announces content_type text storer (ok x) q h =
      let (on, same) = announcing-Session storer x q in
      let refs : on.refs ≡ x.0 = ap (λ y. y.0) same in (cc, record { on = on; lines = cc })

  pub advertise-Announces :
      (service content_type : String) (text : Bytes) (storer : g.State)
      → advertise g p service storer ≡ sent content_type text
      → (service ≡ "git-upload-pack")
        × (content_type ≡ "application/x-git-upload-pack-advertisement")
        × Announces storer text
  unfolding advertise
  advertise-Announces service content_type text storer h =
      elim (Bool-cases (service == "git-upload-pack")) [
        | inr e ↦ let h' = rw e at h in absurd (cc)
        | inl e ↦
            let (kind, announces) =
              announced-Announces content_type text storer _ refl (rw e at h) in
            ((eq_iff service "git-upload-pack").0 e, kind, announces)
      ]

  requested-Packs :
      (content_type : String) (body text : Bytes) (storer : g.State) (x : p.Refs × p.Session)
      → uploading g p (p.new_session storer) ≡ ok x
      → requested g p x.1 (p.decode body) ≡ sent content_type text
      → (content_type ≡ "application/x-git-upload-pack-result") × Packs storer body text
  unfolding requested uploaded
  requested-Packs content_type body text storer x q h =
      let (on, same) = uploading-Session storer x q in
      let session : on.session ≡ x.1 = ap (λ y. y.1) same in
      elim (Result-cases (p.decode body)) [
        | inr (e, d) ↦ let h' = rw d at h in absurd (cc)
        | inl (req, d) ↦ elim (Result-cases (p.upload x.1 req)) [
          | inr (e, u) ↦ let h' = rw (d, u) at h in absurd (cc)
          | inl (pack, u) ↦
              let h' = rw (d, u) at h in
              let whole : pack ≡ text = cc in
              (
                cc,
                record {
                  on = on;
                  request = req;
                  decoded = d;
                  answers = ap (λ z. p.upload z req) session ∙ u ∙ ap ok whole;
                },
              )
        ]
      ]

  pub send_pack-Packs :
      (content_type : String) (body text : Bytes) (storer : g.State)
      → send_pack g p body storer ≡ sent content_type text
      → (content_type ≡ "application/x-git-upload-pack-result") × Packs storer body text
  unfolding send_pack with_session
  send_pack-Packs content_type body text storer h =
      elim (Result-cases (uploading g p (p.new_session storer))) [
        | inr (e, q) ↦ let h' = rw q at h in absurd (cc)
        | inl (x, q) ↦ requested-Packs content_type body text storer x q (rw q at h)
      ]

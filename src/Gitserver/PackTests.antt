-- ===== src/Gitserver/PackTests.antt =====
-- The pack protocol with a small server of packs.
use git_simulator.Base.{◌≡◌, refl, pos, [], ◌∷◌, lookup, some}
use git_simulator.Core.Provider.{Bytes}
use git_simulator.Store.Toy.{toy, toy_laws}
use git_simulator.Gitserver.ToyPacks.{packs}
use git_simulator.Gitserver.Pack.{sent, serve_http}
use git_simulator.Gitserver.Pack.Served.{Sends, serve_http-Sends}
use git_simulator.Gitserver.Tests.{store, store-IsSound, acme-ne, app-ne}
use git_simulator.Gitserver.Pack.Answers.{Works, serve_http-Answers}
use git_simulator.Gitserver.Paths.Laws.{request_path}
use git_simulator.Store.Registry.{key_Eq}

abbrev announcement : Bytes
announcement = 35 ∷ 48 ∷ 3 ∷ 2 ∷ []

-- acme/app at a time when its push is visible.
fetched :
    (serve_http toy packs
      (λ _. pos 400)
      "h"
      "GET"
      "/acme/app.git/info/refs"
      "git-upload-pack"
      []
      store).0
    ≡ sent "application/x-git-upload-pack-advertisement" announcement
unfolding store serve_http
fetched = refl

packed :
    (serve_http toy packs
      (λ _. pos 400)
      "h"
      "POST"
      "/acme/app.git/git-upload-pack"
      ""
      (9 ∷ [])
      store).0
    ≡ sent "application/x-git-upload-pack-result" (3 ∷ 1 ∷ 9 ∷ [])
unfolding store serve_http
packed = refl

serve_http-Sends_example :
    Sends toy toy_laws
      (pos 400)
      "h"
      store
      packs
      "GET"
      "/acme/app.git/info/refs"
      "git-upload-pack"
      "application/x-git-upload-pack-advertisement"
      []
      announcement
      (serve_http toy packs
        (λ _. pos 400)
        "h"
        "GET"
        "/acme/app.git/info/refs"
        "git-upload-pack"
        []
        store).1
serve_http-Sends_example =
    serve_http-Sends toy toy_laws (pos 400) "h" store packs "/acme/app.git/info/refs"
      "git-upload-pack" "application/x-git-upload-pack-advertisement" [] announcement store-IsSound
      "GET" fetched

packs_work : Works toy packs
packs_work = record {
  lists = λ s. (s.refs, refl);
  opens = λ s. (1 ∷ [], refl);
  advertises = λ sess. (2 ∷ [], refl);
}

registered_app : lookup (record { host = "h"; owner = "acme"; name = "app" }) store.repos ≡ some 0
unfolding store
registered_app = refl

serve_http-Answers_example :
    (text : Bytes) × ((serve_http toy packs
        (λ _. pos 400)
        "h"
        "GET"
        (request_path "acme" "app" "/info/refs")
        "git-upload-pack"
        []
        store).0
      ≡ sent "application/x-git-upload-pack-advertisement" text)
serve_http-Answers_example =
    serve_http-Answers toy packs packs_work (pos 400) toy_laws "h" "acme" "app" [] 0 store
      store-IsSound registered_app (refl, (refl, (refl, (refl, tt))))
      (refl, (refl, (refl, (refl, tt)))) (refl, (refl, (refl, tt))) acme-ne app-ne

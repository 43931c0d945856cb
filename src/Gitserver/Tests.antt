-- ===== src/Gitserver/Tests.antt =====
-- Requests of git clients at concrete inputs.
use git_simulator.Base.{◌≡◌, ◌≢◌, refl, String, some, [], ◌∷◌, pos, lookup}
use git_simulator.Core.Errors.{ok}
use git_simulator.Core.Content.{ContentProvider}
use git_simulator.Store.Toy.{toy, toy_laws}
use git_simulator.Store.Repo.{Readings}
use git_simulator.Store.Repo.Calls.{adds_commit}
use git_simulator.Store.Repo.Init.{new_repo}
use git_simulator.Store.Commit.{build_commit, new_commit}
use git_simulator.Store.Registry.{Store, new_store, create_repo}
use git_simulator.Store.Registry.History.{
  creates, calls, history, IsSound, history-new_store-IsSound,
}
use git_simulator.Gitserver.Paths.{parse_path}
use git_simulator.Gitserver.Paths.Laws.{request_path, parse_path-request_path}
use git_simulator.Gitserver.Serve.{resolve_repo, serve, info_refs}
use git_simulator.Gitserver.Serve.Laws.{Current, resolve_repo-Current}

pub acme-ne : ◌≢◌ {A = String} "acme" ""
acme-ne e = cc

pub app-ne : ◌≢◌ {A = String} "app" ""
app-ne e = cc

parse_path-request_path_example :
    parse_path (request_path "acme" "app" "/info/refs") ≡ some ("acme", "app")
parse_path-request_path_example =
    parse_path-request_path "acme" "app" "/info/refs" (refl, (refl, (refl, (refl, tt))))
      (refl, (refl, (refl, (refl, tt)))) (refl, (refl, (refl, tt))) acme-ne app-ne

-- The first ".git" of a path ends the name, also one inside the name.
cut_name : parse_path "/acme/my.github.git" ≡ some ("acme", "my")
unfolding parse_path
cut_name = refl

abbrev content : ContentProvider
content _ = ok (("README.md", 104 ∷ []) ∷ [])

abbrev at_five : Readings
at_five = record { at_resolve = pos 5; at_commit = pos 5; at_schedule = pos 5 }

unfoldable pub store : Store toy
unfolding history resolve_repo lookup create_repo new_repo build_commit new_commit
store =
    history toy
      (creates (pos 0) content (record { host = "h"; owner = "acme"; name = "app" }) "main"
        ∷ calls 0 (adds_commit at_five content "main" (pos 300))
        ∷ [])
      (new_store toy)

pub store-IsSound : IsSound toy store
unfolding store
store-IsSound = history-new_store-IsSound toy toy_laws (
    creates (pos 0) content (record { host = "h"; owner = "acme"; name = "app" }) "main"
    ∷ calls 0 (adds_commit at_five content "main" (pos 300))
    ∷ [])

resolved : (resolve_repo toy (λ _. pos 400) "h" "/acme/app.git" store).0 ≡ ok 0
unfolding store
resolved = refl

resolve_repo-Current_example :
    (owner name : String) × (parse_path "/acme/app.git" ≡ some (owner, name))
    × Current toy toy_laws
        (pos 400)
        "h"
        owner
        name
        store
        0
        (resolve_repo toy (λ _. pos 400) "h" "/acme/app.git" store).1
resolve_repo-Current_example =
    resolve_repo-Current toy toy_laws (pos 400) "h" "/acme/app.git" store 0 store-IsSound resolved

served : (serve toy (λ _. pos 400) "h" "GET" "/acme/app.git/info/refs" store).0 ≡ info_refs 0
unfolding store serve
served = refl

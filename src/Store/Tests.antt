-- ===== src/Store/Tests.antt =====
-- Runs of the repository on the storage of `Toy`, and the theorems at concrete inputs.
use git_simulator.Base.{ℕ, ◌≡◌, refl, true, [], ◌∷◌, pos, ◌+ℤ◌, lookup, itoa, string_eq, arith}
use git_simulator.Core.Errors.{Result, ok, err, library, wrapped}
use git_simulator.Core.Content.{Files, ContentProvider}
use git_simulator.Store.Commit.{build_commit, new_commit, build_tree, tree_fuel}
use git_simulator.Store.Commit.Fuel.{Nests, tree_from, build_tree-tree_fuel}
use git_simulator.Store.Repo.{Repo, Readings, add_commit, visible_commit}
use git_simulator.Store.Git.{hash}
use git_simulator.Store.Refs.{BranchState}
use git_simulator.Store.Repo.New.{new_repo-IsSynced}
use git_simulator.Store.Repo.Advertised.{visible_refs-visible_commit}
use git_simulator.Store.Repo.{head_ref, visible_refs}
use git_simulator.Base.{some}
use git_simulator.Store.Repo.Init.{new_repo}
use git_simulator.Store.Repo.Race.{visible-push, overlapping_push, visible-failed_push}
use git_simulator.Store.Repo.Sync.{IsSynced}
use git_simulator.Store.Repo.Calls.{adds_commit}
use git_simulator.Store.Registry.{RepoKey, new_store, create_repo, get_repo}
use git_simulator.Store.Registry.Laws.{lookup_after, get_repo-create_repo}
use git_simulator.Store.Registry.History.{
  creates, calls, history, IsSound, history-new_store-IsSound,
}
use git_simulator.Store.Toy.{toy, toy_laws}

abbrev pub files : Files
files = ("README.md", 104 ∷ []) ∷ ("src/main.go", 109 ∷ []) ∷ ("src/util.go", []) ∷ []

abbrev pub content : ContentProvider
content _ = ok files

abbrev pub at : ℕ → Readings
at n = record { at_resolve = pos n; at_commit = pos n; at_schedule = pos n }

abbrev get_ok : Result (Repo toy) → Repo toy → Repo toy
get_ok (ok r) d = r
get_ok (err e) d = d

abbrev no_repo : Repo toy
no_repo = record {
  host = "";
  owner = "";
  name = "";
  default_branch = "";
  storer = toy.new_storage;
  branches = [];
  tags = [];
}

-- Its line opens what the runs below compute with.
unfoldable pub widget : Repo toy
unfolding new_repo add_commit visible_commit build_commit new_commit lookup itoa ◌+ℤ◌
widget = get_ok (new_repo toy (pos 0) content "github.com" "acme" "widget" "main") no_repo

pub pushed_ok : (add_commit toy (at 5) content "main" (pos 300) widget).0 ≡ ok "aaaaaaaaaaaa"
unfolding widget
pushed_ok = refl

-- The race window is open at 304 and closed at 305.
visible-push_example :
    (visible_commit toy
      (pos 304)
      "main"
      (add_commit toy (at 5) content "main" (pos 300) widget).1).0
    ≡ ("aaaaaa", true)
unfolding widget
visible-push_example =
    visible-push toy toy_laws (at 5) content "main" (pos 300) widget "aaaaaaaaaaaa" pushed_ok
      (pos 304)

window_closed :
    (visible_commit toy
      (pos 305)
      "main"
      (add_commit toy (at 5) content "main" (pos 300) widget).1).0
    ≡ ("aaaaaaaaaaaa", true)
unfolding widget
window_closed = refl

unfoldable pub racing : Repo toy
unfolding widget
racing = (add_commit toy (at 5) content "main" (pos 300) widget).1

pushed_again_ok :
    (add_commit toy (at 100) content "main" (pos 50) racing).0 ≡ ok "aaaaaaaaaaaaaaaaaa"
unfolding racing
pushed_again_ok = refl

-- The first commit is due at 305, and readers see the second one then.
overlapping_push_example :
    (visible_commit toy
      (pos 305)
      "main"
      (add_commit toy (at 100) content "main" (pos 50) racing).1).0
    ≡ ("aaaaaaaaaaaaaaaaaa", true)
unfolding racing
overlapping_push_example =
    overlapping_push toy toy_laws (at 5) (at 100) content content "main" (pos 300) (pos 50) widget
      "aaaaaaaaaaaa" "aaaaaaaaaaaaaaaaaa" pushed_ok pushed_again_ok refl (omega arith) (pos 305)

abbrev no_content : ContentProvider
no_content _ = err (library "localdir: stat")

failed_push :
    (add_commit toy (at 400) no_content "main" (pos 0) racing).0
    ≡ err (wrapped "content for commit %d: %w" ("2" ∷ []) (library "localdir: stat"))
unfolding racing
failed_push = refl

visible-failed_push_example :
    (visible_commit toy
      (pos 400)
      "main"
      (add_commit toy (at 400) no_content "main" (pos 0) racing).1).0
    ≡ (visible_commit toy (pos 400) "main" racing).0
visible-failed_push_example =
    visible-failed_push toy toy_laws (at 400) no_content "main" (pos 0) racing
      (wrapped "content for commit %d: %w" ("2" ∷ []) (library "localdir: stat")) failed_push
      (pos 400) (omega arith)

pub widget_ok : new_repo toy (pos 0) content "github.com" "acme" "widget" "main" ≡ ok widget
unfolding widget
widget_ok = refl

abbrev key : RepoKey
key = record { host = "github.com"; owner = "acme"; name = "widget" }

get_repo-create_repo_example :
    get_repo toy key (create_repo toy (pos 0) content key "main" (new_store toy)).1
    ≡ lookup_after toy
        (pos 0)
        content
        key
        "main"
        (new_store toy)
        key
        (create_repo toy (pos 0) content key "main" (new_store toy)).0
get_repo-create_repo_example =
    get_repo-create_repo toy (pos 0) content key "main" (new_store toy) key

history-new_store-IsSound_example : IsSound toy (
    history toy
      (creates (pos 0) content key "main"
        ∷ creates (pos 1) content key "main"
        ∷ calls 0 (adds_commit (at 5) content "main" (pos 300))
        ∷ [])
      (new_store toy))
history-new_store-IsSound_example = history-new_store-IsSound toy toy_laws (
    creates (pos 0) content key "main"
    ∷ creates (pos 1) content key "main"
    ∷ calls 0 (adds_commit (at 5) content "main" (pos 300))
    ∷ [])

build_tree-tree_fuel_example :
    Nests (tree_fuel files) files
    × (build_tree toy (tree_fuel files) files
        ≡ tree_from toy (λ fs. build_tree toy (tree_fuel fs) fs) files)
    × (build_tree toy 100 files ≡ build_tree toy (tree_fuel files) files)
build_tree-tree_fuel_example = build_tree-tree_fuel toy files 100 (omega arith)

widget-IsSynced : IsSynced toy widget
widget-IsSynced =
    new_repo-IsSynced toy toy_laws (pos 0) content "github.com" "acme" "widget" "main" widget
      widget_ok

abbrev main_state : BranchState
main_state = record {
  visible_sha = "aaaaaa";
  pending_sha = "";
  promote_at = pos 0;
  commit_index = 0;
}

main_found : lookup "main" widget.branches ≡ some main_state
unfolding widget
main_found = refl

visible_refs-visible_commit_example :
    toy.reference (visible_refs toy (λ _. pos 7) widget).1.storer (head_ref "main")
    ≡ some (hash (toy.new_hash (visible_commit toy (pos 7) "main" widget).0.0))
visible_refs-visible_commit_example =
    visible_refs-visible_commit toy toy_laws (pos 7) "main" widget main_state main_found
      widget-IsSynced

-- ===== src/Store/CommitTests.antt =====
-- The theorems on the contents of commits at concrete inputs.
use git_simulator.Base.{
  eq_iff, Bool-cases, inl, inr, subst, ◌==◌, ◌≡◌, refl, true, [], ◌∷◌, pos, string_eq, lookup,
}
use git_simulator.Store.Refs.{BranchState}
use git_simulator.Store.Repo.{add_commit}
use git_simulator.Store.Repo.Calls.{run, adds_tag, reads_commit}
use git_simulator.Store.Repo.Commits.{Added, add_commit-run-Added}
use git_simulator.Store.Repo.Tagged.{Tagged}
use git_simulator.Store.Commit.{build_commit}
use git_simulator.Store.Commit.Same.{SameFiles}
use git_simulator.Store.Commit.Canonical.{build_commit_unique}
use git_simulator.Core.Content.{Files}
use git_simulator.Store.Toy.{hashing_toy, toy_addressed, toy, toy_laws, toy_objects}
use git_simulator.Store.Commit.Total.{Succeeds}
use git_simulator.Store.Repo.Init.{fresh_branch}
use git_simulator.Store.Tests.{files, content, at, widget, pushed_ok}

-- A delayed push, which is read when it is due, and then tagged.
add_commit-run-Added_example :
    Added toy toy_objects toy_laws
      (at 5)
      content
      "main"
      "aaaaaaaaaaaa"
      widget
      (run toy
        (reads_commit (pos 305) "main" ∷ adds_tag (pos 400) (pos 401) "v1" "main" true ∷ [])
        (add_commit toy (at 5) content "main" (pos 300) widget).1).storer
add_commit-run-Added_example =
    add_commit-run-Added toy toy_objects toy_laws (at 5) content "main" (pos 300) widget
      "aaaaaaaaaaaa" pushed_ok
      (reads_commit (pos 305) "main" ∷ adds_tag (pos 400) (pos 401) "v1" "main" true ∷ [])

initial : BranchState
unfolding widget
initial = fresh_branch toy "aaaaaa"

-- The same map, ranged over in another order.
abbrev reordered : Files
reordered = ("src/util.go", []) ∷ ("README.md", 104 ∷ []) ∷ ("src/main.go", 109 ∷ []) ∷ []

reordered-SameFiles : SameFiles files reordered
unfolding lookup
reordered-SameFiles = record {
  left = (refl, (refl, (refl, tt)));
  right = (refl, (refl, (refl, tt)));
  agree = λ path. elim (Bool-cases ("src/util.go" == path)) [
    | inl e ↦
        subst (λ q. lookup q files ≡ lookup q reordered) ((eq_iff "src/util.go" path).0 e) refl
    | inr e ↦ rw e refl
  ];
}

abbrev filled : hashing_toy.State
filled = (build_commit hashing_toy "" files "m" (pos 0) hashing_toy.new_storage).1

built : Succeeds (build_commit hashing_toy "" files "m" (pos 0) hashing_toy.new_storage).0
unfolding build_commit
built = (_, refl)

built_reordered : Succeeds (build_commit hashing_toy "" reordered "m" (pos 0) filled).0
unfolding build_commit
built_reordered = (_, refl)

build_commit_unique_example :
    (build_commit hashing_toy "" files "m" (pos 0) hashing_toy.new_storage).0
    ≡ (build_commit hashing_toy "" reordered "m" (pos 0) filled).0
build_commit_unique_example =
    build_commit_unique hashing_toy toy_addressed "" files reordered "m" (pos 0)
      hashing_toy.new_storage filled reordered-SameFiles built built_reordered

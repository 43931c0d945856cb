-- ===== src/Store/Registry.antt =====
-- pkg/store/store.go: the registry of the repositories. Go's `*Repo` pointers are indices into a
-- heap, so that a handle and the registry share one repository.
pub mod Laws
pub mod History
use git_simulator.Base.{
  ℕ, String, ◌≡◌, ◌↔◌, Bool, true, false, ◌==◌, ◌&&◌, Option, none, some, List, [], ◌∷◌, ◌++◌, ℤ,
  Eq, length, get_elem?, set, map, lookup, insert, eq_iff, arith,
}
use git_simulator.Core.Errors.{
  Error, message, sentinel, wrapped, err_already_exists, err_not_found, Result, ok, err,
}
use git_simulator.Core.Exec.{Exec}
use git_simulator.Core.Content.{ContentProvider}
use git_simulator.Store.Git.{Git}
use git_simulator.Store.Repo
use git_simulator.Store.Repo.{Repo}
use git_simulator.Store.Repo.Init.{new_repo}

pub record RepoKey : Type 0 where
  pub host : String
  pub owner : String
  pub name : String

abbrev pub key_eq : RepoKey → RepoKey → Bool
key_eq a b = a.host == b.host && (a.owner == b.owner && a.name == b.name)

pub key_eq_iff : (a b : RepoKey) → (key_eq a b ≡ true) ↔ (a ≡ b)
key_eq_iff a b = ground (arith, eq_iff a.host b.host, eq_iff a.owner b.owner, eq_iff a.name b.name)

instance abbrev pub key_Eq : Eq RepoKey
key_Eq = record { beq = key_eq; beq_iff = key_eq_iff }

-- A `*Repo`.
abbrev pub RepoRef : Type 0
RepoRef = ℕ

pub record Store (g : Git) : Type 0 where
  pub repos : List (RepoKey × RepoRef)
  pub heap : List (Repo g)

module _ (g : Git) where
  -- New(clock, content)
  abbrev pub new_store : Store g
  new_store = record { repos = []; heap = [] }

  abbrev pub dangling : Error
  dangling = message "dangling pointer" []

  -- Runs a method of the repository behind a pointer.
  unfoldable pub deref :
      {A : Type 0} → RepoRef → Exec (Repo g) A → Option (Repo g) → Exec (Store g) A
  deref ref act none s = (err dangling, s)
  deref ref act (some r) s = let (a, r') = act r in (a, record s { heap = set s.heap ref r' })

  unfoldable pub on_repo : {A : Type 0} → RepoRef → Exec (Repo g) A → Exec (Store g) A
  unfolding deref
  on_repo ref act s = deref ref act (get_elem? s.heap ref) s

  abbrev pub key_words : RepoKey → List String
  key_words k = k.host ∷ k.owner ∷ k.name ∷ []

  unfoldable pub register : RepoKey → Result (Repo g) → Exec (Store g) RepoRef
  register key (err e) s = (err e, s)
  register key (ok r) s = (
    ok (length s.heap),
    record { repos = insert key (length s.heap) s.repos; heap = s.heap ++ r ∷ [] },
  )

  -- s.CreateRepo(host, owner, name, defaultBranch); `now` is the time of the initial commit.
  unfoldable pub create_as :
      ℤ → ContentProvider → RepoKey → String → Option RepoRef → Exec (Store g) RepoRef
  unfolding register
  create_as now content key branch (some _) s =
      (err (wrapped "%w: %s/%s/%s" (key_words key) (sentinel err_already_exists)), s)
  create_as now content key branch none s =
      register key (new_repo g now content key.host key.owner key.name branch) s

  unfoldable pub create_repo : ℤ → ContentProvider → RepoKey → String → Exec (Store g) RepoRef
  unfolding create_as
  create_repo now content key branch s = create_as now content key branch (lookup key s.repos) s

  unfoldable pub found_or : RepoKey → Option RepoRef → Result RepoRef
  found_or key (some ref) = ok ref
  found_or key none = err (wrapped "%w: %s/%s/%s" (key_words key) (sentinel err_not_found))

  -- s.GetRepo(host, owner, name)
  unfoldable pub get_repo : RepoKey → Store g → Result RepoRef
  unfolding found_or
  get_repo key s = found_or key (lookup key s.repos)

  -- s.List()
  unfoldable pub list : Store g → List RepoRef
  list s = map (λ p. p.1) s.repos

  -- s.VisibleCommit(host, owner, name, branch)
  unfoldable pub visible_of : ℤ → String → Result RepoRef → Exec (Store g) (String × Bool)
  unfolding on_repo
  visible_of now branch (err e) s = (ok ("", false), s)
  visible_of now branch (ok ref) s =
      on_repo ref (λ r. let (v, r') = Repo.visible_commit g now branch r in (ok v, r')) s

  unfoldable pub visible_commit : ℤ → RepoKey → String → Exec (Store g) (String × Bool)
  unfolding visible_of get_repo
  visible_commit now key branch s = visible_of now branch (get_repo key s) s

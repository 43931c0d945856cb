-- ===== src/Store/Registry/History.antt =====
-- Any history of a store: repositories are created, and calls reach them through their pointers.
use native.Mathlib.Decide.{ℕ_discrete}
use git_simulator.Base.{
  String, ◌≡◌, sym, ◌∙◌, ap, subst, some, List, [], ◌∷◌, ℤ, get_elem?, set, Option-cases, inl, inr,
  arith, get_elem?-set_self, get_elem?-set_ne, last_or_before,
}
use git_simulator.Core.Errors.{ok}
use git_simulator.Core.Exec.{Exec}
use git_simulator.Core.Content.{ContentProvider}
use git_simulator.Store.Git.{Git, GitLaws}
use git_simulator.Store.Repo.{Repo, identity}
use git_simulator.Store.Repo.Made.{IsWell, new_repo-IsWell, step-IsWell}
use git_simulator.Store.Repo.Calls.{Call, step}
use git_simulator.Store.Repo.Identity.{step-frame}
use git_simulator.Store.Registry.{RepoKey, RepoRef, key_Eq, Store, new_store, create_repo, on_repo}
use git_simulator.Store.Registry.Laws.{
  IsValid, new_store-IsValid, create_repo-IsValid, set-IsValid, Creation, create_repo-cases,
  duplicate, refused, added,
}

pub data Action : Type 0 where
  creates : ℤ → ContentProvider → RepoKey → String → Action
  calls : RepoRef → Call → Action

module _ (g : Git) where
  abbrev served : Call → Exec (Repo g) (Unit {0})
  served c r = (ok tt, step g c r)

  unfoldable pub act : Action → Store g → Store g
  act (creates now content key branch) s = (create_repo g now content key branch s).1
  act (calls ref c) s = (on_repo g ref (served c) s).1

  unfoldable pub history : List Action → Store g → Store g
  unfolding act
  history [] s = s
  history (a ∷ more) s = history more (act a s)

  -- Every pointer of the registry leads to a repository of its identity, and every repository's
  -- references agree with its branches, as newRepo and some calls have made them.
  pub record IsSound (s : Store g) : Type 0 where
    pub valid : IsValid g s
    pub well : (ref : RepoRef) (r : Repo g) → get_elem? s.heap ref ≡ some r → IsWell g r

  -- A repository that is replaced by one of the same identity, in step with its references.
  pub set-IsSound :
      (ref : RepoRef) (r r' : Repo g) (s : Store g)
      → get_elem? s.heap ref ≡ some r
      → identity g r' ≡ identity g r
      → IsWell g r'
      → IsSound s
      → IsSound (record s { heap = set s.heap ref r' })
  set-IsSound ref r r' s p same in_step v = record {
    valid = set-IsValid g ref r r' s p same v.valid;
    well = λ at x h. elim (ℕ_discrete ref at) [
      | yes e ↦ subst (IsWell g) (found at x h e) in_step
      | no e ↦ v.well at x (sym (get_elem?-set_ne s.heap ref at r' e) ∙ h)
    ];
  }
    where
      found :
          (at : RepoRef) (x : Repo g)
          → get_elem? (set s.heap ref r') at ≡ some x
          → ref ≡ at
          → r' ≡ x
      found at x h e = ground (arith, get_elem?-set_self s.heap ref r' r p)

  step-identity : (c : Call) (r : Repo g) → identity g (step g c r) ≡ identity g r
  unfolding identity
  step-identity c r = ap (λ f. (f.0, f.1, f.2)) (step-frame g c r)

  module _ (laws : GitLaws g) where
    creates-IsWell :
        (now : ℤ) (content : ContentProvider) (key : RepoKey) (branch : String) (s : Store g)
        → IsSound s
        → Creation g now content key branch s
        → (ref : RepoRef) (r : Repo g)
        → get_elem? (create_repo g now content key branch s).1.heap ref ≡ some r
        → IsWell g r
    creates-IsWell now content key branch s v (duplicate _ _ _ _ _ same) ref r h =
        v.well ref r (ap (λ (t : Store g). get_elem? t.heap ref) (sym same) ∙ h)
    creates-IsWell now content key branch s v (refused _ _ _ _ same) ref r h =
        v.well ref r (ap (λ (t : Store g). get_elem? t.heap ref) (sym same) ∙ h)
    creates-IsWell now content key branch s v (added _ x made _ same) ref r h =
        elim (last_or_before s.heap x ref r
          (ap (λ (t : Store g). get_elem? t.heap ref) (sym same) ∙ h)) [
            | inl old ↦ v.well ref r old
            | inr new ↦
                subst (IsWell g) new
                  (new_repo-IsWell g laws now content key.host key.owner key.name branch x made)
          ]

    pub create_repo-IsSound :
        (now : ℤ) (content : ContentProvider) (key : RepoKey) (branch : String) (s : Store g)
        → IsSound s
        → IsSound (create_repo g now content key branch s).1
    create_repo-IsSound now content key branch s v = record {
      valid = create_repo-IsValid g now content key branch s laws v.valid;
      well =
          creates-IsWell now content key branch s v (create_repo-cases g now content key branch s);
    }

    calls-IsSound :
        (ref : RepoRef) (c : Call) (s : Store g)
        → IsSound s
        → IsSound (on_repo g ref (served c) s).1
    unfolding on_repo
    calls-IsSound ref c s v = elim (Option-cases (get_elem? s.heap ref)) [
      | inl p ↦ rw p v
      | inr (r, p) ↦ rw p (
          set-IsSound ref r (step g c r) s p (step-identity c r)
            (step-IsWell g laws c r (v.well ref r p)) v)
    ]

    act-IsSound : (a : Action) (s : Store g) → IsSound s → IsSound (act a s)
    unfolding act
    act-IsSound (creates now content key branch) s v =
        create_repo-IsSound now content key branch s v
    act-IsSound (calls ref c) s v = calls-IsSound ref c s v

    history-IsSound : (more : List Action) (s : Store g) → IsSound s → IsSound (history more s)
    unfolding history
    history-IsSound [] s v = v
    history-IsSound (a ∷ more) s v = history-IsSound more (act a s) (act-IsSound a s v)

    -- From the empty store, whatever is created and called, in whatever order: each identity that is
    -- registered leads to a repository of that identity, and in every repository the reference of
    -- each branch is its visible commit, HEAD is the default branch, and the repository is what newRepo
    -- and some calls have made of it.
    pub history-new_store-IsSound : (more : List Action) → IsSound (history more (new_store g))
    history-new_store-IsSound more =
        history-IsSound more (new_store g)
          (record { valid = new_store-IsValid g; well = λ ref r h. cc })

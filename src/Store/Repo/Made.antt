-- ===== src/Store/Repo/Made.antt =====
-- The repositories that a program can have: those that newRepo has made, after any calls.
use git_simulator.Base.{
  String, ◌≡◌, refl, ◌∙◌, ap, subst, some, List, [], ◌∷◌, ◌++◌, ℤ, string_eq, lookup,
}
use git_simulator.Core.Errors.{ok}
use git_simulator.Core.Content.{ContentProvider}
use git_simulator.Store.Git.{Git, GitLaws}
use git_simulator.Store.Refs.{BranchState}
use git_simulator.Store.Objects.{ObjectLaws}
use git_simulator.Store.Repo.{Repo}
use git_simulator.Store.Repo.Init.{new_repo}
use git_simulator.Store.Repo.Sync.{IsSynced}
use git_simulator.Store.Repo.New.{new_repo-IsSynced}
use git_simulator.Store.Repo.Calls.{Call, step, run, step-IsSynced}
use git_simulator.Store.Repo.Clones.{IsClonable, new_repo-run-IsClonable}

module _ (g : Git) where
  -- The repository is a new one after some calls.
  pub record IsMade (r : Repo g) : Type 0 where
    pub now : ℤ
    pub content : ContentProvider
    pub host : String
    pub owner : String
    pub name : String
    pub branch : String
    pub first : Repo g
    pub made : new_repo g now content host owner name branch ≡ ok first
    pub served : List Call
    pub is_now : run g served first ≡ r

  -- Its references are those of its branches, and it is a repository that a program can have.
  pub record IsWell (r : Repo g) : Type 0 where
    pub synced : IsSynced g r
    pub reached : IsMade r

  run-snoc :
      (cs : List Call) (c : Call) (r : Repo g) → run g (cs ++ c ∷ []) r ≡ step g c (run g cs r)
  unfolding run
  run-snoc [] c r = refl
  run-snoc (x ∷ cs) c r = run-snoc cs c (step g x r)

  pub IsMade-IsClonable :
      (objects : ObjectLaws g) (laws : GitLaws g) (r : Repo g)
      → IsMade r
      → (b : String) (bs : BranchState) → lookup b r.branches ≡ some bs
      → IsClonable g objects laws r b bs
  IsMade-IsClonable objects laws r m b bs found =
      subst (λ (x : Repo g). lookup b x.branches ≡ some bs → IsClonable g objects laws x b bs)
        m.is_now
        (new_repo-run-IsClonable g objects laws m.now m.content m.host m.owner m.name m.branch
          m.first m.made m.served b bs)
        found

  module _ (laws : GitLaws g) where
    pub new_repo-IsWell :
        (now : ℤ) (content : ContentProvider) (host owner name branch : String) (r : Repo g)
        → new_repo g now content host owner name branch ≡ ok r
        → IsWell r
    unfolding run
    new_repo-IsWell now content host owner name branch r made = record {
      synced = new_repo-IsSynced g laws now content host owner name branch r made;
      reached = record {
        now = now;
        content = content;
        host = host;
        owner = owner;
        name = name;
        branch = branch;
        first = r;
        made = made;
        served = [];
        is_now = refl;
      };
    }

    pub step-IsWell : (c : Call) (r : Repo g) → IsWell r → IsWell (step g c r)
    step-IsWell c r w =
        let m = w.reached in
        record {
          synced = step-IsSynced g laws c r w.synced;
          reached = record {
            now = m.now;
            content = m.content;
            host = m.host;
            owner = m.owner;
            name = m.name;
            branch = m.branch;
            first = m.first;
            made = m.made;
            served = m.served ++ c ∷ [];
            is_now = run-snoc m.served c m.first ∙ ap (step g c) m.is_now;
          };
        }

-- ===== src/Store/Repo/New.antt =====
-- A repository that `newRepo` returns.
use git_simulator.Base.{
  String, false, ◌≡◌, ap, sym, ◌∙◌, refl, ◌==◌, eq_iff, some, [], ◌∷◌, ℤ, string_eq, lookup, arith,
  inl, inr, head-ne-heads, str_eq_refl, str_eq_ne, subst,
}
use git_simulator.Core.Errors.{ok, Result-cases, ok_inj}
use git_simulator.Core.Content.{Files, ContentProvider}
use git_simulator.Store.Git.{Git, GitLaws, hash, symbolic}
use git_simulator.Store.Commit.{build_commit}
use git_simulator.Store.Commit.Effects.{build_commit-nonempty}
use git_simulator.Store.Repo.{Repo, head_ref}
use git_simulator.Store.Repo.Init.{
  new_repo, seed_repo, point_repo, fresh_branch, initial_repo, initial_context,
}
use git_simulator.Store.Repo.Sync.{IsSynced}

module _ (g : Git) (laws : GitLaws g) where
  -- What `newRepo` promises of its result.
  pub record Initial (host owner name branch : String) (r : Repo g) : Type 0 where
    pub host_eq : r.host ≡ host
    pub owner_eq : r.owner ≡ owner
    pub name_eq : r.name ≡ name
    pub default_eq : r.default_branch ≡ branch
    pub sha : String
    pub nonempty : (sha == "") ≡ false
    pub branches_eq : r.branches ≡ (branch, fresh_branch g sha) ∷ []
    pub branch_ref : g.reference r.storer (head_ref branch) ≡ some (hash (g.new_hash sha))
    pub head : g.reference r.storer "HEAD" ≡ some (symbolic (head_ref branch))

  module _ (host owner name branch sha : String) (s : g.State) where
    abbrev pub pointed : g.State
    pointed =
        let s' = (g.set_reference (head_ref branch) (hash (g.new_hash sha)) s).1 in
        (g.set_reference "HEAD" (symbolic (head_ref branch)) s').1

    pub point_repo-eq :
        (point_repo g host owner name branch sha s).0
        ≡ ok (initial_repo g host owner name branch sha pointed)
    unfolding point_repo
    point_repo-eq = rw (
      laws.set_reference_ok (head_ref branch) (hash (g.new_hash sha)) s,
      laws.set_reference_ok "HEAD" (symbolic (head_ref branch)) _,
    )

    initial_repo-Initial :
        (sha == "") ≡ false
        → Initial host owner name branch (initial_repo g host owner name branch sha pointed)
    initial_repo-Initial ne =
        let s' = (g.set_reference (head_ref branch) (hash (g.new_hash sha)) s).1 in
        record {
          host_eq = refl;
          owner_eq = refl;
          name_eq = refl;
          default_eq = refl;
          sha = sha;
          nonempty = ne;
          branches_eq = refl;
          branch_ref = ground (
            arith,
            laws.reference-set_reference "HEAD" (head_ref branch) (symbolic (head_ref branch)) s',
            laws.reference-set_reference (head_ref branch) (head_ref branch) (hash (g.new_hash sha))
                s,
            str_eq_refl (head_ref branch),
            str_eq_ne "HEAD" (head_ref branch) (head-ne-heads branch),
          );
          head = ground (
            arith,
            laws.reference-set_reference "HEAD" "HEAD" (symbolic (head_ref branch)) s',
            str_eq_refl "HEAD",
          );
        }

  point_repo-ok :
      (host owner name branch sha : String) (s : g.State) (r : Repo g)
      → (sha == "") ≡ false
      → (point_repo g host owner name branch sha s).0 ≡ ok r
      → Initial host owner name branch r
  point_repo-ok host owner name branch sha s r ne h =
      subst (Initial host owner name branch)
        (ok_inj (sym (point_repo-eq host owner name branch sha s) ∙ h))
        (initial_repo-Initial host owner name branch sha s ne)

  seed_repo-ok :
      (now : ℤ) (host owner name branch : String) (files : Files) (s : g.State) (r : Repo g)
      → (seed_repo g now host owner name branch files s).0 ≡ ok r
      → Initial host owner name branch r
  unfolding seed_repo
  seed_repo-ok now host owner name branch files s r h =
      elim (Result-cases (build_commit g "" files "initial commit" now s).0) [
        | inr (e, p) ↦ absurd (ground arith)
        | inl (sha, p) ↦
            point_repo-ok host owner name branch sha _ r
              (build_commit-nonempty g laws "" files "initial commit" now s sha p) (rw p at h)
      ]

  pub new_repo-ok :
      (now : ℤ) (content : ContentProvider) (host owner name branch : String) (r : Repo g)
      → new_repo g now content host owner name branch ≡ ok r
      → Initial host owner name branch r
  unfolding new_repo
  new_repo-ok now content host owner name branch r h =
      elim (Result-cases (content (initial_context g host owner name branch))) [
        | inr (e, p) ↦ absurd (ground arith)
        | inl (files, p) ↦ seed_repo-ok now host owner name branch files _ r (rw (p, new_repo) at h)
      ]

  -- A new repository shows one branch, its default branch, at its initial commit.
  Initial-IsSynced :
      (host owner name branch : String) (r : Repo g)
      → Initial host owner name branch r
      → IsSynced g r
  unfolding lookup
  Initial-IsSynced host owner name branch r i = record {
    shows = λ b bs h. let found = rw i.branches_eq at h in ground (arith, found, eq_iff branch b);
    head = i.head ∙ ap (λ x. some (symbolic (head_ref x))) (sym i.default_eq);
  }

  pub new_repo-IsSynced :
      (now : ℤ) (content : ContentProvider) (host owner name branch : String) (r : Repo g)
      → new_repo g now content host owner name branch ≡ ok r
      → IsSynced g r
  new_repo-IsSynced now content host owner name branch r h =
      Initial-IsSynced host owner name branch r (new_repo-ok now content host owner name branch r h)

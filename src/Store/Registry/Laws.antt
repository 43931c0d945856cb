-- ===== src/Store/Registry/Laws.antt =====
-- What CreateRepo and GetRepo promise each other, and that no pointer dangles.
use native.Mathlib.Decide.{ℕ_discrete}
use git_simulator.Base.{
  ℕ, String, ◌≡◌, refl, ◌∙◌, ap, inl, inr, true, none, some, List, [], ◌∷◌, ◌++◌, ℤ, length,
  get_elem?, set, Option-cases, Bool-cases, lookup, insert, lookup-insert, arith,
  get_elem?-append_left, get_elem?-append_length, get_elem?-set_self, get_elem?-set_ne,
  if◌then◌else◌, lookup-nil,
}
use git_simulator.Core.Errors.{
  Error, sentinel, wrapped, err_already_exists, Result, ok, err, errors_is, Result-cases,
}
use git_simulator.Core.Exec.{Exec}
use git_simulator.Core.Content.{ContentProvider}
use git_simulator.Store.Git.{Git, GitLaws}
use git_simulator.Store.Repo.{Repo, identity}
use git_simulator.Store.Repo.Init.{new_repo}
use git_simulator.Store.Repo.New.{new_repo-ok, Initial}
use git_simulator.Store.Registry.{
  RepoKey, RepoRef, key_Eq, key_eq_iff, Store, new_store, create_repo, get_repo, on_repo, register,
  create_as, key_words,
}

module _ (g : Git) where
  -- Every pointer of the registry leads to a repository of that identity.
  pub record IsValid (s : Store g) : Type 0 where
    pub live :
        (key : RepoKey) (ref : RepoRef)
        → lookup key s.repos ≡ some ref
        → (r : Repo g) × (get_elem? s.heap ref ≡ some r)
          × (identity g r ≡ (key.host, key.owner, key.name))

  pub new_store-IsValid : IsValid (new_store g)
  new_store-IsValid = record {
    live = λ key ref h. absurd (ground (arith, lookup-nil {V = RepoRef} key));
  }

  module _ (now : ℤ) (content : ContentProvider) (key : RepoKey) (branch : String)
      (s : Store g) where
    abbrev created : Store g
    created = (create_repo g now content key branch s).1

    -- The three ways in which CreateRepo ends.
    pub data Creation : Type 0 where
      duplicate :
          (ref : RepoRef)
          → lookup key s.repos ≡ some ref
          → (e : Error) → (create_repo g now content key branch s).0 ≡ err e
          → errors_is e err_already_exists ≡ true
          → created ≡ s
          → Creation
      refused :
          lookup key s.repos ≡ none
          → (e : Error) → new_repo g now content key.host key.owner key.name branch ≡ err e
          → (create_repo g now content key branch s).0 ≡ err e
          → created ≡ s
          → Creation
      added :
          lookup key s.repos ≡ none
          → (r : Repo g) → new_repo g now content key.host key.owner key.name branch ≡ ok r
          → (create_repo g now content key branch s).0 ≡ ok (length s.heap)
          → created ≡ record { repos = insert key (length s.heap) s.repos; heap = s.heap ++ r ∷ [] }
          → Creation

    pub create_repo-cases : Creation
    unfolding create_repo errors_is
    create_repo-cases = elim (Option-cases (lookup key s.repos)) [
      | inr (ref, p) ↦
          duplicate ref p (wrapped "%w: %s/%s/%s" (key_words g key) (sentinel err_already_exists))
            (rw p) refl (ap (λ o. (create_as g now content key branch o s).1) p)
      | inl p ↦ elim (Result-cases (new_repo g now content key.host key.owner key.name branch)) [
        | inr (e, q) ↦ refused p e q (rw (p, q)) (
            ap (λ o. (create_as g now content key branch o s).1) p
            ∙ ap (λ m. (register g key m s).1) q)
        | inl (r, q) ↦ added p r q (rw (p, q)) (
            ap (λ o. (create_as g now content key branch o s).1) p
            ∙ ap (λ m. (register g key m s).1) q)
      ]
    ]

    abbrev pub lookup_after : RepoKey → Result RepoRef → Result RepoRef
    lookup_after other (ok ref) = if key_Eq.beq key other then ok ref else get_repo g other s
    lookup_after other (err _) = get_repo g other s

    get_repo-creation :
        (other : RepoKey)
        → Creation
        → get_repo g other created ≡ lookup_after other (create_repo g now content key branch s).0
    unfolding get_repo
    get_repo-creation other (duplicate ref p e q _ same) = rw (q, same)
    get_repo-creation other (refused p e _ q same) = rw (q, same)
    get_repo-creation other (added p r _ q same) =
        rw (q, same) (rw (lookup-insert key other (length s.heap) s.repos) (ground arith))

    -- If CreateRepo succeeds, GetRepo returns the new pointer for the identity, and for any other
    -- identity what it returned before; if it fails, GetRepo returns what it returned before.
    pub get_repo-create_repo :
        (other : RepoKey)
        → get_repo g other created ≡ lookup_after other (create_repo g now content key branch s).0
    get_repo-create_repo other = get_repo-creation other create_repo-cases

    -- The new pointer leads to the new repository, every old one to the repository it led to, and
    -- so pointers do not dangle.
    created-IsValid : GitLaws g → IsValid s → Creation → IsValid created
    unfolding identity
    created-IsValid laws v (duplicate ref p e q _ same) = rw same v
    created-IsValid laws v (refused p e _ q same) = rw same v
    created-IsValid laws v (added p r made q same) = rw same (record {
      live = λ other ref h. elim (Bool-cases (key_Eq.beq key other)) [
        | inl e ↦ (
          r,
          rw (ref_new other ref h e) (get_elem?-append_length s.heap [] r),
          is_other other r
              (new_repo-ok g laws now content key.host key.owner key.name branch r made) e,
        )
        | inr e ↦
            let (x, there, who) =
              v.live other ref
                (ground (arith, h, lookup-insert key other (length s.heap) s.repos)) in
            (x, get_elem?-append_left s.heap (r ∷ []) ref x there, who)
      ];
    })
      where
        ref_new :
            (other : RepoKey) (ref : RepoRef)
            → lookup other (insert key (length s.heap) s.repos) ≡ some ref
            → key_Eq.beq key other ≡ true
            → ref ≡ length s.heap
        ref_new other ref h e = ground (arith, lookup-insert key other (length s.heap) s.repos)

        is_other :
            (other : RepoKey) (r : Repo g)
            → Initial g laws key.host key.owner key.name branch r
            → key_Eq.beq key other ≡ true
            → identity g r ≡ (other.host, other.owner, other.name)
        is_other other r i e =
            ground (arith, i.host_eq, i.owner_eq, i.name_eq, (key_eq_iff key other).0 e)

    pub create_repo-IsValid : GitLaws g → IsValid s → IsValid created
    create_repo-IsValid laws v = created-IsValid laws v create_repo-cases

  pointee :
      (heap : List (Repo g)) (i j : ℕ) (r x : Repo g)
      → get_elem? heap i ≡ some r
      → get_elem? heap j ≡ some x
      → i ≡ j
      → r ≡ x
  pointee heap i j r x p q e = cc

  -- A repository that is replaced by one of the same identity keeps the registry valid.
  pub set-IsValid :
      (ref : RepoRef) (r r' : Repo g) (s : Store g)
      → get_elem? s.heap ref ≡ some r
      → identity g r' ≡ identity g r
      → IsValid s
      → IsValid (record s { heap = set s.heap ref r' })
  set-IsValid ref r r' s p same v = record {
    live = λ key at h.
        let (x, there, who) = v.live key at h in
        elim (ℕ_discrete ref at) [
          | yes e ↦ (
            r',
            rw (← e) (get_elem?-set_self s.heap ref r' r p),
            same ∙ ap (identity g) (pointee s.heap ref at r x p there e) ∙ who,
          )
          | no e ↦ (x, get_elem?-set_ne s.heap ref at r' e ∙ there, who)
        ];
  }

  -- What keeps a repository's identity keeps the registry valid.
  pub on_repo-IsValid :
      {A : Type 0} (ref : RepoRef) (act : Exec (Repo g) A) (s : Store g)
      → ((r : Repo g) → identity g (act r).1 ≡ identity g r)
      → IsValid s
      → IsValid (on_repo g ref act s).1
  unfolding on_repo
  on_repo-IsValid ref act s same v = elim (Option-cases (get_elem? s.heap ref)) [
    | inl p ↦ rw p v
    | inr (r, p) ↦ rw p (set-IsValid ref r (act r).1 s p (same r) v)
  ]

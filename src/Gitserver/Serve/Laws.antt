-- ===== src/Gitserver/Serve/Laws.antt =====
-- What a git client is shown: the visible commits of the repository that its path names.
use git_simulator.Base.{
  String, Option, none, some, ℤ, ◌≡◌, refl, ◌∙◌, ap, subst, get_elem?, set, get_elem?-set_self,
  string_eq, lookup,
}
use git_simulator.Core.Errors.{Result, ok, err, ok_inj}
use git_simulator.Store.Git.{Git, GitLaws, hash}
use git_simulator.Store.Refs.{BranchState}
use git_simulator.Store.Repo.{Repo, identity, visible_refs, visible_commit, head_ref}
use git_simulator.Store.Repo.Advertised.{visible_refs-visible_commit}
use git_simulator.Store.Registry.{
  RepoKey, RepoRef, key_Eq, Store, get_repo, on_repo, deref, found_or,
}
use git_simulator.Store.Registry.History.{IsSound}
use git_simulator.Gitserver.Paths.{parse_path}
use git_simulator.Gitserver.Serve.{flushed, flush, find_repo, resolve_repo}

module _ (g : Git) (laws : GitLaws g) (now : ℤ) where
  -- The pointer leads to the repository of that owner and name, and the references of its branches
  -- are the commits that are visible at `now`.
  pub record Current (host owner name : String) (s : Store g) (ref : RepoRef) (s' : Store g)
      : Type 0 where
    pub listed : lookup (record { host = host; owner = owner; name = name }) s.repos ≡ some ref
    pub before : Repo g
    pub after : Repo g
    pub was : get_elem? s.heap ref ≡ some before
    pub named : identity g before ≡ (host, owner, name)
    pub is_now : get_elem? s'.heap ref ≡ some after
    pub shows :
        (b : String) (bs : BranchState)
        → lookup b before.branches ≡ some bs
        → g.reference after.storer (head_ref b)
          ≡ some (hash (g.new_hash (visible_commit g now b before).0.0))

  flushed-state :
      {A : Type 0} (key : RepoKey) (ref : RepoRef) (r : Result A) (s : Store g)
      → (flushed g key ref (r, s)).1 ≡ s
  unfolding flushed
  flushed-state key ref (ok a) s = refl
  flushed-state key ref (err e) s = refl

  flushed-ref :
      {A : Type 0} (key : RepoKey) (ref ref' : RepoRef) (r : Result A) (s : Store g)
      → (flushed g key ref (r, s)).0 ≡ ok ref'
      → ref ≡ ref'
  unfolding flushed
  flushed-ref key ref ref' (ok a) s h = ok_inj h
  flushed-ref key ref ref' (err e) s h = cc

  on_repo-state :
      (ref : RepoRef) (s : Store g) (r : Repo g)
      → get_elem? s.heap ref ≡ some r
      → (on_repo g ref (visible_refs g (λ _. now)) s).1
        ≡ record s { heap = set s.heap ref (visible_refs g (λ _. now) r).1 }
  unfolding on_repo deref
  on_repo-state ref s r there = ap (λ o. (deref g ref (visible_refs g (λ _. now)) o s).1) there

  flush-Current :
      (key : RepoKey) (s : Store g) (ref : RepoRef)
      → IsSound g s
      → lookup key s.repos ≡ some ref
      → Current key.host key.owner key.name s ref (flush g (λ _. now) key (ok ref) s).1
  unfolding flush
  flush-Current key s ref sound found =
      let (r, there, who) = sound.valid.live key ref found in
      record {
        listed = found;
        before = r;
        after = (visible_refs g (λ _. now) r).1;
        was = there;
        named = who;
        is_now =
            ap (λ t. get_elem? t.heap ref)
              (flushed-state key ref (on_repo g ref (visible_refs g (λ _. now)) s).0 _
                ∙ on_repo-state ref s r there)
            ∙ get_elem?-set_self s.heap ref (visible_refs g (λ _. now) r).1 r there;
        shows = λ b bs at.
            visible_refs-visible_commit g laws now b r bs at ((sound.well ref r there).synced);
      }

  flush-found :
      (key : RepoKey) (o : Option RepoRef) (s : Store g) (ref : RepoRef)
      → IsSound g s
      → lookup key s.repos ≡ o
      → (flush g (λ _. now) key (found_or g key o) s).0 ≡ ok ref
      → Current key.host key.owner key.name s ref (flush g (λ _. now) key (found_or g key o) s).1
  unfolding flush found_or
  flush-found key none s ref sound found h = cc
  flush-found key (some ref') s ref sound found h =
      subst (λ x. Current key.host key.owner key.name s x (flush g (λ _. now) key (ok ref') s).1)
        (flushed-ref key ref' ref (on_repo g ref' (visible_refs g (λ _. now)) s).0 _ h)
        (flush-Current key s ref' sound found)

  find_repo-Current :
      (host path : String) (o : Option (String × String)) (s : Store g) (ref : RepoRef)
      → IsSound g s
      → (find_repo g (λ _. now) host path o s).0 ≡ ok ref
      → (owner name : String) × (o ≡ some (owner, name))
        × Current host owner name s ref (find_repo g (λ _. now) host path o s).1
  unfolding find_repo get_repo
  find_repo-Current host path none s ref sound h = cc
  find_repo-Current host path (some (owner, name)) s ref sound h =
      let key : RepoKey = record { host = host; owner = owner; name = name } in
      (owner, name, refl, flush-found key (lookup key s.repos) s ref sound refl h)

  -- In a sound store, a path that resolves names an owner and a repository, the pointer leads to the
  -- repository of that name on the host, and the reference of each of its branches has become the
  -- commit that VisibleCommit returns at that time.
  pub resolve_repo-Current :
      (host path : String) (s : Store g) (ref : RepoRef)
      → IsSound g s
      → (resolve_repo g (λ _. now) host path s).0 ≡ ok ref
      → (owner name : String) × (parse_path path ≡ some (owner, name))
        × Current host owner name s ref (resolve_repo g (λ _. now) host path s).1
  unfolding resolve_repo
  resolve_repo-Current host path s ref sound h =
      find_repo-Current host path (parse_path path) s ref sound h

-- ===== src/Gitsim/Simulator/Sound.antt =====
-- The invariant of Simulator in pkg/gitsim/gitsim.go: handles, store and identifiers agree.
use native.Mathlib.Decide.{ℕ_discrete}
use git_simulator.Base.{
  String, ◌≡◌, refl, sym, ◌∙◌, ap, some, List, get_elem?, set, string_eq, lookup,
  get_elem?-set_self, get_elem?-set_ne,
}
use git_simulator.Store.Git.{Git}
use git_simulator.Store.Repo.{Repo, identity}
use git_simulator.Store.Registry.{RepoKey, RepoRef, key_Eq, Store}
use git_simulator.Store.Registry.History
use git_simulator.Gitsim.SimRepo.{repo_key}
use git_simulator.Gitsim.Simulator.{Simulator, Handle, HandleRef}

module _ (g : Git) where
  abbrev pub key_of : Repo g → RepoKey
  key_of r = record { host = r.host; owner = r.owner; name = r.name }

  key_of-identity : (r r' : Repo g) → identity g r' ≡ identity g r → key_of r' ≡ key_of r
  unfolding identity
  key_of-identity r r' e = ap (λ i. record { host = i.0; owner = i.1; name = i.2 }) e

  -- The handle leads to a repository, which the registry has under the repository's identity.
  pub record Held (s : Simulator g) (h : Handle) : Type 0 where
    pub repo : Repo g
    pub there : get_elem? s.store.heap h.repo ≡ some repo
    pub listed : lookup (key_of repo) s.store.repos ≡ some h.repo

  -- The identifier leads to a handle for the repository that it names.
  pub record Known (s : Simulator g) (key : String) (ref : HandleRef) : Type 0 where
    pub handle : Handle
    pub there : get_elem? s.handles ref ≡ some handle
    pub named :
        (r : Repo g)
        → get_elem? s.store.heap handle.repo ≡ some r
        → repo_key handle.vendor r.owner r.name ≡ key

  pub record IsSound (s : Simulator g) : Type 0 where
    pub stored : History.IsSound g s.store
    pub held : (ref : HandleRef) (h : Handle) → get_elem? s.handles ref ≡ some h → Held s h
    pub known : (key : String) (ref : HandleRef) → lookup key s.repos ≡ some ref → Known s key ref

  -- `t` has the handles, the identifiers and the pointers of `s`, which lead to repositories of the
  -- same identities.
  pub record Follows (s t : Simulator g) : Type 0 where
    pub stored : History.IsSound g t.store
    pub registry : t.store.repos ≡ s.store.repos
    pub leads :
        (p : RepoRef) (r : Repo g)
        → get_elem? s.store.heap p ≡ some r
        → (r' : Repo g) × (get_elem? t.store.heap p ≡ some r') × (key_of r' ≡ key_of r)
    pub ids : t.repos ≡ s.repos
    pub old :
        (ref : HandleRef) (h' : Handle)
        → get_elem? t.handles ref ≡ some h'
        → (h : Handle) × (get_elem? s.handles ref ≡ some h) × (h'.repo ≡ h.repo)
    pub new :
        (ref : HandleRef) (h : Handle)
        → get_elem? s.handles ref ≡ some h
        → (h' : Handle) × (get_elem? t.handles ref ≡ some h')
          × (h'.repo ≡ h.repo)
          × (h'.vendor ≡ h.vendor)

  module _ (s t : Simulator g) (f : Follows s t) where
    kept-Held : (x x' : Handle) → x'.repo ≡ x.repo → Held s x → Held t x'
    kept-Held x x' e o =
        let (r', there', named) = f.leads x.repo o.repo o.there in
        record {
          repo = r';
          there = ap (get_elem? t.store.heap) e ∙ there';
          listed =
              rw f.registry (ap (λ k. lookup k s.store.repos) named ∙ o.listed ∙ ap some (sym e));
        }

    kept-Known :
        (key : String) (ref : HandleRef) (k : Known s key ref) → Held s k.handle → Known t key ref
    kept-Known key ref k o =
        let (h', there', same, vendor) = f.new ref k.handle k.there in
        let (r', leads', named) = f.leads k.handle.repo o.repo o.there in
        record {
          handle = h';
          there = there';
          named = λ r at.
              let at' = rw same at at in
              let e : r ≡ r' = cc in
              rw vendor (
                ap (λ (i : RepoKey). repo_key k.handle.vendor i.owner i.name) (ap key_of e ∙ named)
                ∙ k.named o.repo o.there);
        }

    pub Follows-IsSound : IsSound s → IsSound t
    Follows-IsSound sound = record {
      stored = f.stored;
      held = λ ref h' found.
          let (h, there, same) = f.old ref h' found in kept-Held h h' same (sound.held ref h there);
      known = λ key ref found.
          let k = sound.known key ref (ap (lookup key) (sym f.ids) ∙ found) in
          kept-Known key ref k (sound.held ref k.handle k.there);
    }

  -- What else a simulator has does not matter.
  pub same-IsSound :
      (s t : Simulator g)
      → t.store ≡ s.store
      → t.handles ≡ s.handles
      → t.repos ≡ s.repos
      → IsSound s
      → IsSound t
  same-IsSound s t e f i sound =
      Follows-IsSound s t
        (record {
          stored = rw e sound.stored;
          registry = ap (λ (x : Store g). x.repos) e;
          leads = λ p r at. (r, ap (λ (x : Store g). get_elem? x.heap p) e ∙ at, refl);
          ids = i;
          old = λ ref h at. (h, ap (λ hs. get_elem? hs ref) (sym f) ∙ at, refl);
          new = λ ref h at. (h, ap (λ hs. get_elem? hs ref) f ∙ at, refl, refl);
        })
        sound

  -- Pointers after one repository was replaced by one of its identity.
  pub set-leads :
      (heap : List (Repo g)) (q : RepoRef) (x x' : Repo g)
      → get_elem? heap q ≡ some x
      → identity g x' ≡ identity g x
      → (p : RepoRef) (r : Repo g) → get_elem? heap p ≡ some r
      → (r' : Repo g) × (get_elem? (set heap q x') p ≡ some r') × (key_of r' ≡ key_of r)
  set-leads heap q x x' there same p r at = elim (ℕ_discrete q p) [
    | yes e ↦ (
      x',
      rw (← e) (get_elem?-set_self heap q x' x there),
      key_of-identity x x' same ∙ ap key_of (same_target e),
    )
    | no e ↦ (r, get_elem?-set_ne heap q p x' e ∙ at, refl)
  ]
    where
      same_target : q ≡ p → x ≡ r
      same_target e = cc

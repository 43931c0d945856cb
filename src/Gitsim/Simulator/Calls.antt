-- ===== src/Gitsim/Simulator/Calls.antt =====
-- CreateRepo and getRepo of Simulator in pkg/gitsim/gitsim.go.
use git_simulator.Base.{
  ℕ, suc, String, ◌==◌, ◌≡◌, refl, sym, ◌∙◌, ap, subst, true, false, Bool-cases, if◌then◌else◌,
  Option, none, some, [], ◌∷◌, ◌++◌, ℤ, length, get_elem?, inl, inr, arith, string_eq, lookup,
  insert, lookup-insert, lookup-insert_self, lookup-insert_ne, last_or_before,
  get_elem?-append_left, get_elem?-append_length, eq_iff,
}
use git_simulator.Core.Errors.{Result, ok, err}
use git_simulator.Core.Provider.{Provider}
use git_simulator.Store.Git.{Git, GitLaws}
use git_simulator.Store.Repo.{Repo}
use git_simulator.Store.Repo.New.{new_repo-ok}
use git_simulator.Store.Registry.{RepoKey, RepoRef, key_Eq}
use git_simulator.Store.Registry.Laws.{create_repo-cases, Creation, duplicate, refused, added}
use git_simulator.Store.Registry.History
use git_simulator.Gitsim.SimRepo.{repo_key}
use git_simulator.Gitsim.Simulator.{
  get_repo, Simulator, Handle, HandleRef, create_repo, create_with, added_handle, provider_by_name,
}
use git_simulator.Gitsim.Simulator.Sound.{same-IsSound, key_of, Held, Known, IsSound}

module _ (g : Git) (laws : GitLaws g) (clock : ℕ → ℤ) where
  module _ (s : Simulator g) (sound : IsSound g s) (key : RepoKey)
      (fresh : lookup key s.store.repos ≡ none) (r : Repo g) (is_key : key_of g r ≡ key)
      (vendor : String) (p : Provider)
      (whole : History.IsSound g (record {
        repos = insert key (length s.store.heap) s.store.repos;
        heap = s.store.heap ++ r ∷ [];
      }))
      (tick : ℕ) where
    abbrev handle : Handle
    handle = record {
      vendor = vendor;
      prov = p;
      repo = length s.store.heap;
      sha_branch = [];
      prev_sha = [];
    }

    abbrev grown : Simulator g
    grown = record s {
      store = record {
        repos = insert key (length s.store.heap) s.store.repos;
        heap = s.store.heap ++ r ∷ [];
      };
      handles = s.handles ++ handle ∷ [];
      repos = insert (repo_key vendor key.owner key.name) (length s.handles) s.repos;
      tick = tick;
    }

    old-Held : (h : Handle) → Held g s h → Held g grown h
    old-Held h o = record {
      repo = o.repo;
      there = get_elem?-append_left s.store.heap (r ∷ []) h.repo o.repo o.there;
      listed =
          let l = o.listed in
          lookup-insert_ne key (key_of g o.repo) (length s.store.heap) s.store.repos
            (λ e. let l' = rw (← e) at l in cc)
          ∙ l;
    }

    new-Held : Held g grown handle
    new-Held = record {
      repo = r;
      there = get_elem?-append_length s.store.heap [] r;
      listed = rw is_key (lookup-insert_self key (length s.store.heap) s.store.repos);
    }

    grown-Held :
        (ref : HandleRef) (h : Handle) → get_elem? grown.handles ref ≡ some h → Held g grown h
    grown-Held ref h found = elim (last_or_before s.handles handle ref h found) [
      | inl old ↦ old-Held h (sound.held ref h old)
      | inr e ↦ subst (Held g grown) e new-Held
    ]

    new-Known : Known g grown (repo_key vendor key.owner key.name) (length s.handles)
    new-Known = record {
      handle = handle;
      there = get_elem?-append_length s.handles [] handle;
      named = λ x at.
          let l : get_elem? (s.store.heap ++ r ∷ []) (length s.store.heap) ≡ some r =
            get_elem?-append_length s.store.heap [] r in
          let e : r ≡ x = cc in
          ap (λ (k : RepoKey). repo_key vendor k.owner k.name) (ap (key_of g) (sym e) ∙ is_key);
    }

    old-Known : (k : String) (ref : HandleRef) → Known g s k ref → Known g grown k ref
    old-Known k ref o = record {
      handle = o.handle;
      there = get_elem?-append_left s.handles (handle ∷ []) ref o.handle o.there;
      named = λ x at.
          let old = sound.held ref o.handle o.there in
          let l = get_elem?-append_left s.store.heap (r ∷ []) o.handle.repo old.repo old.there in
          let e : old.repo ≡ x = cc in o.named x (old.there ∙ ap some e);
    }

    grown-Known :
        (k : String) (ref : HandleRef) → lookup k grown.repos ≡ some ref → Known g grown k ref
    grown-Known k ref found = elim (Bool-cases (new_key == k)) [
      | inl e ↦ rw (is_new e) (rw (is_same e) new-Known)
      | inr e ↦ old-Known k ref (sound.known k ref (is_old e))
    ]
      where
        new_key : String
        new_key = repo_key vendor key.owner key.name

        is_same : (new_key == k) ≡ true → k ≡ new_key
        is_same e = sym ((eq_iff new_key k).0 e)

        is_new : (new_key == k) ≡ true → ref ≡ length s.handles
        is_new e = ground (arith, found, lookup-insert new_key k (length s.handles) s.repos)

        is_old : (new_key == k) ≡ false → lookup k s.repos ≡ some ref
        is_old e = ground (arith, found, lookup-insert new_key k (length s.handles) s.repos)

    grown-IsSound : IsSound g grown
    grown-IsSound = record { stored = whole; held = grown-Held; known = grown-Known }

  module _ (vendor owner name branch : String) (s : Simulator g) (sound : IsSound g s) where
    abbrev asked : RepoKey
    asked = record { host = s.host; owner = owner; name = name }

    added-IsSound :
        (p : Provider)
        → Creation g (clock s.tick) s.content asked branch s.store
        → IsSound g (create_with g clock vendor owner name branch (ok p) s).1
    unfolding create_with added_handle
    added-IsSound p (duplicate ref found e failed _ same) =
        rw failed (same-IsSound g s _ same refl refl sound)
    added-IsSound p (refused absent e _ failed same) =
        rw failed (same-IsSound g s _ same refl refl sound)
    added-IsSound p (added absent r made returned became) =
        let i = new_repo-ok g laws (clock s.tick) s.content s.host owner name branch r made in
        let is_key : key_of g r ≡ asked = ground (arith, i.host_eq, i.owner_eq, i.name_eq) in
        let whole =
          History.create_repo-IsSound g laws (clock s.tick) s.content asked branch s.store
            sound.stored in
        rw returned (
          same-IsSound g
            (grown s sound asked absent r is_key vendor p (rw became at whole) (suc s.tick)) _
            became refl refl
            (grown-IsSound s sound asked absent r is_key vendor p (rw became at whole)
              (suc s.tick)))

    made-IsSound :
        (r : Result Provider) → IsSound g (create_with g clock vendor owner name branch r s).1
    unfolding create_with
    made-IsSound (err e) = sound
    made-IsSound (ok p) =
        added-IsSound p (create_repo-cases g (clock s.tick) s.content asked branch s.store)

    pub create_repo-IsSound : IsSound g (create_repo g clock vendor owner name branch s).1
    unfolding create_repo
    create_repo-IsSound = elim (Bool-cases (s.host == "")) [
      | inl e ↦ rw e sound
      | inr e ↦ rw e (made-IsSound (provider_by_name s.providers vendor))
    ]

module _ (g : Git) (clock : ℕ → ℤ) (vendor owner name branch : String) (s : Simulator g) where
  -- When CreateRepo succeeds, its handle is found under the identifier, and every other
  -- identifier leads to what it led to; when it fails, all of them do.
  abbrev pub found_after : String → Result HandleRef → Option HandleRef
  found_after id (ok ref) = if repo_key vendor owner name == id then some ref else get_repo g id s
  found_after id (err e) = get_repo g id s

  handle-found :
      (id : String) (p : Provider) (made : Result RepoRef) (t : Simulator g)
      → t.repos ≡ s.repos
      → get_repo g id (added_handle g clock (repo_key vendor owner name) vendor p made t).1
        ≡ found_after id (added_handle g clock (repo_key vendor owner name) vendor p made t).0
  unfolding added_handle get_repo
  handle-found id p (err e) t same = ap (lookup id) same
  handle-found id p (ok ref) t same =
      lookup-insert (repo_key vendor owner name) id (length t.handles) t.repos
      ∙ ap (λ o. if repo_key vendor owner name == id then some (length t.handles) else o)
          (ap (lookup id) same)

  created-found :
      (id : String) (r : Result Provider)
      → get_repo g id (create_with g clock vendor owner name branch r s).1
        ≡ found_after id (create_with g clock vendor owner name branch r s).0
  unfolding create_with
  created-found id (err e) = refl
  created-found id (ok p) = handle-found id p _ _ refl

  pub get_repo-found_after :
      (id : String)
      → get_repo g id (create_repo g clock vendor owner name branch s).1
        ≡ found_after id (create_repo g clock vendor owner name branch s).0
  unfolding create_repo
  get_repo-found_after id = elim (Bool-cases (s.host == "")) [
    | inl e ↦ rw e
    | inr e ↦ rw e (created-found id (provider_by_name s.providers vendor))
  ]

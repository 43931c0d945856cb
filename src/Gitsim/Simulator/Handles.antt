-- ===== src/Gitsim/Simulator/Handles.antt =====
-- The invariant of Simulator and the methods of SimRepo in pkg/gitsim/gitsim.go.
use native.Mathlib.Decide.{ℕ_discrete}
use git_simulator.Base.{
  ℕ, String, ◌≡◌, refl, sym, ◌∙◌, ap, subst, some, Option-cases, List, ℤ, get_elem?, inl, inr,
  arith, string_eq, get_elem?-set_self, get_elem?-set_ne,
}
use git_simulator.Core.Errors.{Result, ok, err}
use git_simulator.Core.Content.{ContentProvider}
use git_simulator.Store.Git.{Git, GitLaws}
use git_simulator.Store.Repo.{identity}
use git_simulator.Store.Repo.Made.{IsWell, step-IsWell}
use git_simulator.Store.Repo.Calls.{adds_commit, reads_commit, step}
use git_simulator.Store.Repo.Identity.{step-frame}
use git_simulator.Store.Registry.{key_Eq}
use git_simulator.Store.Registry.History
use git_simulator.Gitsim.Options.{PushConfig, PushOption}
use git_simulator.Gitsim.SimRepo.{SimRepo, visible_commit, push, push_with, recorded, readings}
use git_simulator.Gitsim.Simulator.{Simulator, Handle, HandleRef, view, written, on_handle, run_on}
use git_simulator.Gitsim.Simulator.Sound.{IsSound, Follows-IsSound, set-leads}

module _ (g : Git) where
  -- The repository afterwards is the same one, and in step if it was.
  pub record Safe (v v' : SimRepo g) : Type 0 where
    pub same : identity g v'.repo ≡ identity g v.repo
    pub well : IsWell g v.repo → IsWell g v'.repo

  module _ (ref : HandleRef) (h : Handle) (v v' : SimRepo g) (s : Simulator g)
      (there : get_elem? s.handles ref ≡ some h)
      (leads : get_elem? s.store.heap h.repo ≡ some v.repo) (safe : Safe v v') where
    abbrev after : Simulator g
    after = written g ref h v' s

    abbrev now_handle : Handle
    now_handle = record h { sha_branch = v'.sha_branch; prev_sha = v'.prev_sha }

    handle_before :
        (at : HandleRef) (x' : Handle)
        → get_elem? after.handles at ≡ some x'
        → (x : Handle) × (get_elem? s.handles at ≡ some x) × (x'.repo ≡ x.repo)
    handle_before at x' found = elim (ℕ_discrete ref at) [
      | yes e ↦ (h, rw (← e) there, ap (λ (x : Handle). x.repo) (is_new e))
      | no e ↦ (x', sym (get_elem?-set_ne s.handles ref at now_handle e) ∙ found, refl)
    ]
      where
        is_new : ref ≡ at → x' ≡ now_handle
        is_new e = ground (arith, get_elem?-set_self s.handles ref now_handle h there)

    handle_after :
        (at : HandleRef) (x : Handle)
        → get_elem? s.handles at ≡ some x
        → (x' : Handle) × (get_elem? after.handles at ≡ some x')
          × (x'.repo ≡ x.repo)
          × (x'.vendor ≡ x.vendor)
    handle_after at x found = elim (ℕ_discrete ref at) [
      | yes e ↦ (
        now_handle,
        rw (← e) (get_elem?-set_self s.handles ref now_handle h there),
        ap (λ (y : Handle). y.repo) (is_old e),
        ap (λ (y : Handle). y.vendor) (is_old e),
      )
      | no e ↦ (x, get_elem?-set_ne s.handles ref at now_handle e ∙ found, refl, refl)
    ]
      where
        is_old : ref ≡ at → h ≡ x
        is_old e = cc

    written-IsSound : IsSound g s → IsSound g after
    written-IsSound sound =
        Follows-IsSound g s after
          (record {
            stored =
                History.set-IsSound g h.repo v.repo v'.repo s.store leads safe.same
                  (safe.well (sound.stored.well h.repo v.repo leads)) sound.stored;
            registry = refl;
            leads = set-leads g s.store.heap h.repo v.repo v'.repo leads safe.same;
            ids = refl;
            old = handle_before;
            new = handle_after;
          })
          sound

  -- A method of a handle that keeps its repository keeps the simulator sound.
  pub on_handle-IsSound :
      {A : Type 0} (nil : A) (ref : HandleRef) (act : SimRepo g → A × SimRepo g) (s : Simulator g)
      → ((v : SimRepo g) → Safe v (act v).1)
      → IsSound g s
      → IsSound g (on_handle g nil ref act s).1
  unfolding on_handle run_on
  on_handle-IsSound nil ref act s safe sound = elim (Option-cases (get_elem? s.handles ref)) [
    | inl p ↦ rw p sound
    | inr (h, p) ↦ elim (Option-cases (get_elem? s.store.heap h.repo)) [
      | inl q ↦ rw (p, q) sound
      | inr (r, q) ↦
          let v = view g h s.tick r in
          rw (p, q) (written-IsSound ref h v (act v).1 s p q (safe v) sound)
    ]
  ]

  module _ (laws : GitLaws g) (clock : ℕ → ℤ) (content : ContentProvider) where
    pub visible_commit-Safe :
        (b : String) (v : SimRepo g) → Safe v (visible_commit g clock content b v).1
    unfolding visible_commit step identity
    visible_commit-Safe b v = record {
      same = ap (λ f. (f.0, f.1, f.2)) (step-frame g (reads_commit (clock v.tick) b) v.repo);
      well = λ i. step-IsWell g laws (reads_commit (clock v.tick) b) v.repo i;
    }

    recorded-repo :
        (cfg : PushConfig) (prev : String) (made : Result String) (v : SimRepo g)
        → (recorded g clock content cfg prev made v).1.repo ≡ v.repo
    unfolding recorded
    recorded-repo cfg prev (ok sha) v = refl
    recorded-repo cfg prev (err e) v = refl

    pushed-Safe : (cfg : PushConfig) (v : SimRepo g) → Safe v (push_with g clock content cfg v).1
    unfolding push_with visible_commit step identity
    pushed-Safe cfg v =
        let v₁ = (visible_commit g clock content cfg.branch v).1 in
        let c = adds_commit (readings g clock content v₁.tick) content cfg.branch cfg.delay in
        let read = visible_commit-Safe cfg.branch v in
        let kept = recorded-repo cfg _ _ _ in
        record {
          same =
              ap (identity g) kept ∙ ap (λ f. (f.0, f.1, f.2)) (step-frame g c v₁.repo) ∙ read.same;
          well = λ i. subst (IsWell g) (sym kept) (step-IsWell g laws c v₁.repo (read.well i));
        }

    pub push-Safe :
        (opts : List PushOption) (v : SimRepo g) → Safe v (push g clock content opts v).1
    unfolding push
    push-Safe opts v = pushed-Safe _ v

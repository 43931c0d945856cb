-- ===== src/Gitsim/ControlApi/Steps.antt =====
-- The steps of the race scenario over the control API (pkg/gitsim/http_api.go).
use git_simulator.Base.{
  ℕ, String, ◌≡◌, refl, ◌∙◌, arith, true, none, some, Option-cases, ℤ, ap, lookup, string_eq, inl,
  inr,
}
use git_simulator.Core.Errors.{sentinel, library, wrapped, panicked, message, Error}
use git_simulator.Store.Git.{Git}
use git_simulator.Store.Refs.{BranchState}
use git_simulator.Store.Repo
use git_simulator.Store.Repo.{Repo, head_ref}
use git_simulator.Store.Repo.Race.{seen_after}
use git_simulator.Store.Registry.{key_Eq}
use git_simulator.Emitter.World.{World, History}
use git_simulator.Emitter.Send.{Sent}
use git_simulator.Scenario.Race.{RaceResult}
use git_simulator.Gitsim.SimRepo.{SimRepo}
use git_simulator.Gitsim.Simulator.{
  Simulator, Handle, HandleRef, written, load, on_handle, run_on, webhook,
}
use git_simulator.Gitsim.Simulator.Webhooks.{webhook-OnlyEvents}
use git_simulator.Gitsim.ControlApi.{
  server_error, replied, fire_result, fire_options, make_fire_func,
}

pub replied_inj : {A : Type 0} {n m : ℕ} {a b : A} → replied n a ≡ replied m b → a ≡ b
replied_inj e = cc

pub server_error-replied :
    (e : Error) (res : RaceResult) → ¬ (server_error {A = RaceResult} e ≡ replied 200 res)
server_error-replied (sentinel x) res h = cc
server_error-replied (library x) res h = cc
server_error-replied (message f xs) res h = cc
server_error-replied (wrapped f xs e) res h = cc
server_error-replied (panicked x) res h = cc

module _ (g : Git) where
  pub on_handle-loaded :
      {A : Type 0} (nil : A) (ref : HandleRef) (act : SimRepo g → A × SimRepo g) (s : Simulator g)
      (h : Handle) (v : SimRepo g)
      → load g ref s ≡ some (h, v)
      → on_handle g nil ref act s ≡ ((act v).0, written g ref h (act v).1 s)
  unfolding on_handle run_on
  on_handle-loaded nil ref act s h v found = ap (λ o. run_on g nil ref act o s) found

  -- A branch that a reader finds is one of the repository's.
  pub visible-found :
      (later : ℤ) (b sha : String) (r : Repo g)
      → (Repo.visible_commit g later b r).0 ≡ (sha, true)
      → (bs : BranchState) × (lookup b r.branches ≡ some bs)
  unfolding Repo.visible_commit
  visible-found later b sha r seen = elim (Option-cases (lookup b r.branches)) [
    | inl p ↦ let seen' = rw p at seen in cc
    | inr (bs, p) ↦ (bs, p)
  ]

-- The commit that is shown at `later` when the race began at `at`.
abbrev pub race_commit : ℤ → ℤ → ℤ → RaceResult → String
race_commit later at delay res =
    (seen_after later at delay (res.old_sha, true) (res.new_sha, true)).0

pub race_commit-found :
    (later at delay : ℤ) (res : RaceResult)
    → seen_after later at delay (res.old_sha, true) (res.new_sha, true)
      ≡ (race_commit later at delay res, true)
race_commit-found later at delay res = ground arith

module _ (g : Git) (clock : ℕ → ℤ) (w : World) where
  fire_result-state : (x : Sent × Simulator g) → (fire_result g clock w x).1 ≡ x.1
  unfolding fire_result
  fire_result-state ((o, none), s) = refl
  fire_result-state ((o, some e), s) = refl

  pub fired-OnlyEvents :
      (ref : HandleRef) (sha url key : String) (d : ℤ) (s : Simulator g)
      → (h : History) × ((make_fire_func g clock w ref sha url key d s).1 ≡ record s { events = h })
  unfolding make_fire_func
  fired-OnlyEvents ref sha url key d s =
      let (h, only) = webhook-OnlyEvents g w s ref sha (fire_options url key d) in
      (h, fire_result-state (webhook g w ref sha (fire_options url key d) s) ∙ only)

-- ===== src/Store/Repo/Reads.antt =====
-- Reading a branch changes nothing that a later reader sees.
use git_simulator.Base.{
  String, ◌≡◌, ap, sym, ◌∙◌, ℤ, ◌≤ℤ◌, string_eq, lookup, lookup-insert_self, Option-cases, inl, inr,
}
use git_simulator.Store.Git.{Git}
use git_simulator.Store.Repo.{Repo, visible_commit}
use git_simulator.Store.Repo.Branches.{shown, visible_commit-shown, branches-settle}
use git_simulator.Store.Repo.Race.{shown-resolve}

module _ (g : Git) where
  shown-read :
      (at now : ℤ) (b : String) (r : Repo g)
      → at ≤ℤ now
      → shown g now (lookup b (visible_commit g at b r).1.branches)
        ≡ shown g now (lookup b r.branches)
  unfolding visible_commit
  shown-read at now b r later = elim (Option-cases (lookup b r.branches)) [
    | inl p ↦ rw p (ap (shown g now) p)
    | inr (bs, p) ↦ rw p (
        ap (shown g now) (ap (lookup b) (branches-settle g at b bs r) ∙ lookup-insert_self b _ _)
        ∙ shown-resolve g at now bs later)
  ]

  -- Whoever reads the branch at `now` gets the same whether or not it was read before.
  pub visible-read :
      (at now : ℤ) (b : String) (r : Repo g)
      → at ≤ℤ now
      → (visible_commit g now b (visible_commit g at b r).1).0 ≡ (visible_commit g now b r).0
  visible-read at now b r later =
      visible_commit-shown g now b _
      ∙ shown-read at now b r later
      ∙ sym (visible_commit-shown g now b r)

-- ===== src/Gitsim/RaceWindow.antt =====
-- RunRace on a simulated repository, end to end: what git clients see after it.
use git_simulator.Base.{ℕ, suc, String, Bool, true, ℤ, ◌≡◌, refl, ap, sym, ◌∙◌, arith}
use git_simulator.Core.Errors.{Result, ok, err}
use git_simulator.Core.Exec.{Exec, Keeps}
use git_simulator.Core.Content.{ContentProvider}
use git_simulator.Store.Git.{Git, GitLaws}
use git_simulator.Store.Repo
use git_simulator.Store.Repo.{Repo, add_commit}
use git_simulator.Store.Repo.Race.{visible-push, seen_after}
use git_simulator.Store.Repo.Reads.{visible-read}
use git_simulator.Scenario.Env.{Env, WebhookResult, millis, branch_or}
use git_simulator.Scenario.Race.{RaceSpec, RaceResult, run_race}
use git_simulator.Scenario.Race.Laws.{run_race-Raced}
use git_simulator.Gitsim.Options.{PushConfig}
use git_simulator.Gitsim.SimRepo.{
  SimRepo, visible_commit, push_with, push, push_commit, readings, recorded,
}

module _ (g : Git) (clock : ℕ → ℤ) (content : ContentProvider) where
  recorded-ok :
      (cfg : PushConfig) (prev : String) (made : Result String) (s : SimRepo g) (sha : String)
      → (recorded g clock content cfg prev made s).0 ≡ ok sha
      → (made ≡ ok sha) × ((recorded g clock content cfg prev made s).1.repo ≡ s.repo)
  unfolding recorded
  recorded-ok cfg prev (ok a) s sha h = (h, refl)
  recorded-ok cfg prev (err e) s sha h = cc

  -- A reading of the branch by the handle.
  abbrev pub after_read : String → SimRepo g → SimRepo g
  after_read b s = (visible_commit g clock content b s).1

  -- The commit that a push makes, just after a reading of the branch.
  abbrev added : String → ℤ → SimRepo g → Result String × Repo g
  added b delay s =
      let s₁ = after_read b s in
      add_commit g (readings g clock content s₁.tick) content b delay s₁.repo

  push_commit-ok :
      (b : String) (delay : ℤ) (s : SimRepo g) (sha : String)
      → (push_commit g clock content b delay s).0 ≡ ok sha
      → ((added b delay s).0 ≡ ok sha)
        × ((push_commit g clock content b delay s).1.repo ≡ (added b delay s).1)
  unfolding push_commit push push_with
  push_commit-ok b delay s sha h = recorded-ok (record { branch = b; delay = delay }) _ _ _ sha h

  module _ (laws : GitLaws g) (at : ℤ) (still : (n : ℕ) → clock n ≡ at) where
    read-read :
        (b : String) (s : SimRepo g) (t : ℤ)
        → t ≡ at
        → (Repo.visible_commit g t b (after_read b s).repo).0
          ≡ (visible_commit g clock content b s).0
    unfolding visible_commit
    read-read b s t p =
        ap (λ u. (Repo.visible_commit g u b (after_read b s).repo).0) (p ∙ sym (still s.tick))
        ∙ visible-read g (clock s.tick) (clock s.tick) b s.repo (omega arith)

    after-after :
        (b : String) (s : SimRepo g) (t : ℤ)
        → t ≡ at
        → (Repo.visible_commit g t b (after_read b (after_read b s)).repo).0
          ≡ (visible_commit g clock content b s).0
    unfolding visible_commit
    after-after b s t p =
        read-read b (after_read b s) t p ∙ read-read b s (clock (suc s.tick)) (still _)

    -- A branch that was just read and is then pushed to opens the window.
    pub race-visible :
        (b : String) (delay : ℤ) (s : SimRepo g) (seen : String × Bool) (sha : String)
        → (visible_commit g clock content b s).0 ≡ seen
        → (push_commit g clock content b delay (after_read b s)).0 ≡ ok sha
        → (later : ℤ)
        → (Repo.visible_commit g later b
            (push_commit g clock content b delay (after_read b s)).1.repo).0
          ≡ seen_after later at delay seen (sha, true)
    race-visible b delay s seen sha read pushed later =
        let s₁ = after_read b s in
        let (made, kept) = push_commit-ok b delay s₁ sha pushed in
        let s₂ = after_read b s₁ in
        let old = (Repo.visible_commit g (clock s₂.tick) b s₂.repo).0 in
        ap (λ x. (Repo.visible_commit g later b x).0) kept
        ∙ visible-push g laws (readings g clock content s₂.tick) content b delay s₂.repo sha made
            later
        ∙ ap (λ t. seen_after later t delay old (sha, true)) (still (suc (suc s₂.tick)))
        ∙ ap (λ o. seen_after later at delay o (sha, true))
            (after-after b s (clock s₂.tick) (still s₂.tick) ∙ read)

module _ (g : Git) (clock : ℕ → ℤ) (content : ContentProvider)
    (fire : String → String → String → ℤ → Exec (SimRepo g) WebhookResult)
    (pause : ℤ → Exec (SimRepo g) (Unit {0})) (now : SimRepo g → ℤ × SimRepo g) where
  -- The repository as scenarios see it.
  abbrev pub sim_env : String → Env (SimRepo g)
  sim_env branch = record {
    default_branch = branch;
    visible_commit = visible_commit g clock content;
    push_commit = push_commit g clock content;
    fire = fire;
    pause = pause;
    now = now;
  }

  module _ (laws : GitLaws g) (at : ℤ) (still : (n : ℕ) → clock n ≡ at) where
    -- On a clock that stands still during the run, and with receivers of webhooks that leave the
    -- repository alone, RunRace opens the race window: after it, whoever reads the branch gets OldSHA
    -- until the spec's delay has passed, and NewSHA from then on. Without a delay it is NewSHA at once.
    pub run_race-window :
        ((sha target secret : String) (d : ℤ) → Keeps (λ s. s.repo) (fire sha target secret d))
        → (default : String) (spec : RaceSpec) (s : SimRepo g) (r : RaceResult)
        → (run_race (sim_env default) spec s).0 ≡ ok r
        → (later : ℤ)
        → (Repo.visible_commit g later
            (branch_or default spec.branch)
            (run_race (sim_env default) spec s).1.repo).0
          ≡ seen_after later at (millis spec.head_delay_ms) (r.old_sha, true) (r.new_sha, true)
    run_race-window quiet default spec s r h later =
        let b = branch_or default spec.branch in
        let (seen, raced) = run_race-Raced (sim_env default) spec s r h in
        ap (λ (x : SimRepo g). (Repo.visible_commit g later b x.repo).0) raced.ends
        ∙ ap (λ x. (Repo.visible_commit g later b x).0) ((quiet _ _ _ _).at _)
        ∙ race-visible g clock content laws at still b (millis spec.head_delay_ms) s
            (r.old_sha, true) r.new_sha seen raced.pushed later

-- ===== src/Scenario/PushN/Laws.antt =====
-- RunPushN: what a result without an error says.
use git_simulator.Base.{ℕ, suc, String, some, List, [], ◌∷◌, ℤ, pos, replicate, ◌≡◌}
use git_simulator.Core.Errors.{ok}
use git_simulator.Scenario.Env.{Env, WebhookResult, branch_or}
use git_simulator.Scenario.Order.{resolve_order}
use git_simulator.Scenario.Pushes.{Pushes}
use git_simulator.Scenario.PushN.{PushNSpec, PushNResult, at_index, gap}

module _ {S : Type 0} (env : Env S) (spec : PushNSpec) where
  -- A webhook for each index of the order, one after the other: before each but the first a wait of
  -- the gap, if there is one, and then the webhook of the commit at the index, which was answered by
  -- the response at its place. The states are those before the first and after the last.
  pub data Posts (shas : List String) : ℕ → List ℤ → List WebhookResult → S → S → Type 0 where
    no_post : {i : ℕ} {s : S} → Posts shas i [] [] s s
    post :
        {i : ℕ} {idx : ℤ} {order : List ℤ} {result : WebhookResult} {results : List WebhookResult}
        {s t end : S} (sha : String)
        → gap env i spec.gap_ms s ≡ (ok tt, t)
        → at_index shas idx ≡ some sha
        → (env.fire sha spec.target spec.secret (pos 0) t).0 ≡ ok result
        → Posts shas (suc i) order results (env.fire sha spec.target spec.secret (pos 0) t).1 end
        → Posts shas i (idx ∷ order) (result ∷ results) s end

  -- What RunPushN has done for `n` commits: `n` pushes to the branch without a delay, from the state
  -- where it began, returned the hashes.
  pub record Pushed (swaps : List (ℕ × ℕ)) (n : ℕ) (s : S) (r : PushNResult) (end : S)
      : Type 0 where
    pub after_pushes : S
    pub pushes :
        Pushes env
          (branch_or env.default_branch spec.branch)
          (replicate n (pos 0))
          r.commits
          s
          after_pushes
    pub order : r.delivery_order ≡ resolve_order swaps n spec.order spec.custom_order
    pub posts : Posts r.commits 0 r.delivery_order r.responses after_pushes end

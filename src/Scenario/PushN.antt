-- ===== src/Scenario/PushN.antt =====
-- RunPushN of pkg/scenario/pushn.go.
pub mod Laws
use git_simulator.Base.{
  ℕ, zero, suc, String, ◌==◌, Bool, true, false, if◌then◌else◌, ltb_ℤ, leb, Option, none, some,
  List, [], ◌∷◌, ℤ, pos, negsuc, itoa, ◌<>◌, get_elem?, replicate, wrap64, scale, ◌≡◌, refl, nat_eq,
}
use git_simulator.Core.Errors.{Error, library, message, panicked, Result, ok, err, wrap}
use git_simulator.Core.Exec.{Exec, pure, fail, lift, continue, ◌>>=◌, ◌>>◌}
use git_simulator.Scenario.Env.{Env, WebhookResult, millis, branch_or}
use git_simulator.Scenario.Order.{resolve_order}
use git_simulator.Scenario.Pushes.{push_all}

pub record PushNSpec : Type 0 where
  pub branch : String
  pub n : ℤ
  pub order : String
  pub custom_order : List ℤ
  pub gap_ms : ℤ
  pub secret : String
  pub target : String

pub record PushNResult : Type 0 where
  pub commits : List String
  pub delivery_order : List ℤ
  pub responses : List WebhookResult

-- `%d`
abbrev pub show_int : ℤ → String
unfolding itoa
show_int (pos n) = itoa n
show_int (negsuc n) = "-" <> itoa (suc n)

-- shas[idx]: an index out of range panics.
abbrev pub at_index : List String → ℤ → Option String
at_index shas (pos n) = get_elem? shas n
at_index shas (negsuc n) = none

module _ {S : Type 0} (env : Env S) where
  unfoldable pub gap : ℕ → ℤ → Exec S (Unit {0})
  gap zero gap_ms = pure tt
  gap (suc i) gap_ms = if ltb_ℤ (pos 0) gap_ms then env.pause (millis gap_ms) else pure tt

  unfoldable pub post_one : PushNSpec → ℤ → Option String → Exec S WebhookResult
  post_one spec idx none s = fail (panicked (library "index out of range")) s
  post_one spec idx (some sha) s =
      let (r, s') = env.fire sha spec.target spec.secret (pos 0) s in
      (wrap "scenario: webhook for commit %d: %w" (show_int idx ∷ []) r, s')

  -- The rounds of `for i, idx := range order`, from the i-th on: responses[i], ...
  unfoldable pub post_all : PushNSpec → List String → ℕ → List ℤ → Exec S (List WebhookResult)
  unfolding gap post_one
  post_all spec shas i [] = pure []
  post_all spec shas i (idx ∷ order) = do
    gap i spec.gap_ms
    result ← post_one spec idx (at_index shas idx)
    results ← post_all spec shas (suc i) order
    pure (result ∷ results)

  -- spec.N commits, for a positive N
  unfoldable pub push_n : List (ℕ × ℕ) → PushNSpec → ℕ → Exec S PushNResult
  unfolding post_all push_all resolve_order
  push_n swaps spec n = do
    shas ← push_all env (branch_or env.default_branch spec.branch) 0 (replicate n (pos 0))
    let order = resolve_order swaps n spec.order spec.custom_order
    responses ← post_all spec shas 0 order
    pure (record { commits = shas; delivery_order = order; responses = responses })

  unfoldable pub checked : List (ℕ × ℕ) → PushNSpec → ℤ → Exec S PushNResult
  unfolding push_n
  checked swaps spec (negsuc n) =
      fail (message "scenario: PushN requires N > 0, got %d" (show_int (negsuc n) ∷ []))
  checked swaps spec (pos zero) = fail (message "scenario: PushN requires N > 0, got %d" ("0" ∷ []))
  checked swaps spec (pos (suc n)) =
      if spec.target == ""
      then fail (message "scenario: PushN requires a Target URL" [])
      else push_n swaps spec (suc n)

  -- RunPushN(ctx, repo, fire, spec), where `swaps` are the calls that rand.Shuffle makes.
  unfoldable pub run_push_n : List (ℕ × ℕ) → PushNSpec → Exec S PushNResult
  unfolding checked
  run_push_n swaps spec = checked swaps spec spec.n

-- ===== src/Scenario/Tests.antt =====
-- The scenarios at concrete inputs, on a repository that numbers its commits.
use git_simulator.Base.{ℕ, suc, ◌≡◌, refl, true, none, List, [], ◌∷◌, ℤ, pos, ◌-ℤ◌, itoa, arith}
use git_simulator.Core.Errors.{ok, err, library, panicked}
use git_simulator.Scenario.Env.{Env, WebhookResult, millis}
use git_simulator.Scenario.Order.{resolve_order}
use git_simulator.Scenario.Order.Laws.{Resolved, resolve_order-Resolved}
use git_simulator.Scenario.PushN.{PushNSpec, PushNResult, run_push_n}
use git_simulator.Scenario.Mixed.{MixedSpec, MixedResult, run_mixed}
use git_simulator.Scenario.Mixed.Laws.{Mixed, run_mixed-Mixed}
use git_simulator.Scenario.Race.{RaceSpec, RaceResult, run_race}

-- The number of commits is the state; a webhook's status says how many there were.
abbrev env : Env ℕ
env = record {
  default_branch = "main";
  visible_commit = λ branch s. ((itoa s, true), s);
  push_commit = λ branch delay s. (ok (itoa (suc s)), suc s);
  fire = λ sha target secret d s. (ok (record { status_code = s; body = []; error = none }), s);
  pause = λ d s. (ok tt, s);
  now = λ s. (pos s, s);
}

abbrev answer : ℕ → WebhookResult
answer n = record { status_code = n; body = []; error = none }

abbrev no_custom : List ℤ
no_custom = []

resolve_order-Resolved_example :
    Resolved 3 "shuffle" no_custom (resolve_order ((0, 2) ∷ (1, 2) ∷ []) 3 "shuffle" no_custom)
resolve_order-Resolved_example =
    resolve_order-Resolved ((0, 2) ∷ (1, 2) ∷ []) 3 "shuffle" no_custom
      ((omega arith, omega arith), ((omega arith, omega arith), tt))

shuffled_three : resolve_order ((0, 2) ∷ (1, 2) ∷ []) 3 "shuffle" [] ≡ pos 2 ∷ pos 0 ∷ pos 1 ∷ []
unfolding resolve_order
shuffled_three = refl

abbrev three : PushNSpec
three = record {
  branch = "";
  n = pos 3;
  order = "custom";
  custom_order = pos 1 ∷ pos 2 ∷ pos 0 ∷ [];
  gap_ms = pos 5;
  secret = "";
  target = "t";
}

abbrev pushed_three : PushNResult
pushed_three = record {
  commits = "1" ∷ "2" ∷ "3" ∷ [];
  delivery_order = pos 1 ∷ pos 2 ∷ pos 0 ∷ [];
  responses = answer 3 ∷ answer 3 ∷ answer 3 ∷ [];
}

-- An index of a custom order that is out of range is no error but a panic, after the pushes.
out_of_range :
    (run_push_n env [] (record three { custom_order = pos 1 ∷ pos 3 ∷ pos 0 ∷ [] }) 0)
    ≡ (err (panicked (library "index out of range")), 3)
unfolding run_push_n itoa
out_of_range = refl

abbrev mixed : MixedSpec
mixed = record {
  branch = "dev";
  commits =
      record { head_delay_ms = pos 300; send_after_ms = pos 200 }
      ∷ record { head_delay_ms = pos 0; send_after_ms = pos 100 }
      ∷ [];
  secret = "";
  target = "t";
}

abbrev mixed_result : MixedResult
mixed_result = record { shas = "1" ∷ "2" ∷ []; webhook_results = answer 2 ∷ answer 2 ∷ [] }

mixed_run : (run_mixed env mixed 0).0 ≡ ok mixed_result
unfolding run_mixed itoa ◌-ℤ◌
mixed_run = refl

run_mixed-Mixed_example : Mixed env mixed 0 mixed_result
run_mixed-Mixed_example = run_mixed-Mixed env mixed 0 mixed_result mixed_run

abbrev race : RaceSpec
race = record { branch = ""; head_delay_ms = pos 300; secret = ""; target = "t" }

abbrev race_result : RaceResult
race_result = record { old_sha = "7"; new_sha = "8"; webhook_result = answer 8 }

race_run : (run_race env race 7).0 ≡ ok race_result
unfolding run_race itoa
race_run = refl

-- A delay in milliseconds may be too large for a Duration: 2 ^ 58 ms come out as no delay.
delay_lost : millis (pos 288_230_376_151_711_744) ≡ pos 0
delay_lost = refl

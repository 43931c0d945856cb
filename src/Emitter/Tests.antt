-- ===== src/Emitter/Tests.antt =====
-- The emitter at concrete inputs: a target that answers 503 first, and a clock that waits for exactly
-- the time that it is asked to wait.
use git_simulator.Base.{
  ◌≡◌, refl, true, if◌then◌else◌, ltb, none, List, [], ◌∷◌, ℤ, pos, negsuc, ◌+ℤ◌, ◌-ℤ◌, ◌≤ℤ◌, arith,
  +ℤ_parts, suc, ◌+◌,
}
use git_simulator.Core.Errors.{library, ok}
use git_simulator.Core.Provider.{Provider, PushEvent}
use git_simulator.Emitter.World.{
  Delivery, Event, sends, waited, cancelled, posted, History, World, ClockLaws,
}
use git_simulator.Emitter.Send.{Emitter, send_with_retry}
use git_simulator.Emitter.Batch.{send_batch}
use git_simulator.Emitter.Retry.{posts, Ending, send_with_retry-Ending}
use git_simulator.Emitter.OnTime.{IsScheduled, send_batch-IsScheduled}
use git_simulator.Emitter.Results.{Reports, send_batch-Reports}

-- A wait of a negative time ends at once.
abbrev elapsed : ℤ → ℤ
elapsed (pos n) = pos n
elapsed _ = pos 0

abbrev ticks : History → ℤ
ticks [] = pos 0
ticks (waited d ∷ h) = ticks h +ℤ elapsed d
ticks (_ ∷ h) = ticks h

abbrev world : World
world = record {
  now = ticks;
  waits = λ h d. true;
  context_error = λ h. library "context canceled";
  new_request = λ target. ok tt;
  post = λ h r. ok (record { status_code = if ltb (posts h) 1 then 503 else 202; body = [] });
  noise = λ h n. 0;
}

abbrev vendor : Provider
vendor = record {
  name = "test";
  repo_url = λ host owner repo. host;
  build_webhook = λ noise event secret. ok ([], 123 ∷ 125 ∷ []);
}

abbrev event : PushEvent
event = record {
  host = "h";
  owner = "acme";
  repo = "app";
  branch = "main";
  tag = "";
  before = "a";
  after = "b";
}

abbrev delivery : ℤ → Delivery
delivery d = record { provider = vendor; event = event; secret = ""; send_at = d }

abbrev two : List Delivery
two = delivery (pos 300) ∷ delivery (pos 100) ∷ []

abbrev patient : Emitter
patient = record { max_retries = pos 2; retry_wait = pos 50 }

grows : (x d : ℤ) → x ≤ℤ x +ℤ elapsed d
grows x (pos n) = omega (arith, +ℤ_parts x (pos n))
grows x (negsuc n) = omega (arith, +ℤ_parts x (pos 0))

ends : (x d : ℤ) → x +ℤ d ≤ℤ x +ℤ elapsed d
ends x (pos n) = omega arith
ends x (negsuc n) = omega (arith, +ℤ_parts x (negsuc n), +ℤ_parts x (pos 0))

forward : (e : Event) (h : History) → ticks h ≤ℤ ticks (e ∷ h)
forward (waited d) h = grows (ticks h) d
forward (sends d) h = omega arith
forward cancelled h = omega arith
forward (posted r) h = omega arith

world_laws : ClockLaws world
world_laws = record { forward = forward; waited_for = λ d h. ends (ticks h) d }

send_with_retry-Ending_example :
    Ending world
      (delivery (pos 0))
      (2 + suc (posts []))
      (send_with_retry world patient "t" (delivery (pos 0)) [])
send_with_retry-Ending_example =
    send_with_retry-Ending world 2 patient "t" (delivery (pos 0)) [] refl

second_try : (send_with_retry world patient "t" (delivery (pos 0)) []).0.0.status_code ≡ 202
unfolding send_with_retry
second_try = refl

send_batch-IsScheduled_example : IsScheduled world two [] (send_batch world patient "t" two [])
send_batch-IsScheduled_example = send_batch-IsScheduled world world_laws patient "t" two []

sent_all : (send_batch world patient "t" two []).0.1 ≡ none
unfolding send_batch send_with_retry ◌-ℤ◌ ◌+ℤ◌
sent_all = refl

send_batch-Reports_example :
    Reports 1 (delivery (pos 100)) (send_batch world patient "t" two []).0.0
send_batch-Reports_example =
    send_batch-Reports world patient 2 refl "t" two 1 (delivery (pos 100)) [] refl sent_all

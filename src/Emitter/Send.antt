-- ===== src/Emitter/Send.antt =====
-- sendWithRetry of pkg/emitter/emitter.go.
use git_simulator.Base.{
  ℕ, zero, suc, String, if◌then◌else◌, ltb, Option, none, some, [], ◌∷◌, ℤ, pos, negsuc, wrap64,
  scale,
}
use git_simulator.Core.Errors.{Error, wrapped, Result, ok, err}
use git_simulator.Core.Provider.{Header, Bytes}
use git_simulator.Emitter.World.{
  Delivery, Outcome, Request, Response, sends, waited, cancelled, posted, History, World,
}

pub record Emitter : Type 0 where
  pub max_retries : ℤ
  pub retry_wait : ℤ

-- New(clock): no retries, and 50 ms to wait before the first one.
abbrev pub new_emitter : Emitter
new_emitter = record { max_retries = pos 0; retry_wait = pos 50_000_000 }

-- The pair (Result, error) that is returned.
abbrev pub Sent : Type 0
Sent = Outcome × Option Error

abbrev pub failed : Delivery → Error → Outcome
failed d e = record { delivery = some d; status_code = 0; body = []; error = some e }

abbrev pub answered : Delivery → Response → Outcome
answered d r = record {
  delivery = some d;
  status_code = r.status_code;
  body = r.body;
  error = none;
}

-- `var last Result`
abbrev pub zero_outcome : Outcome
zero_outcome = record { delivery = none; status_code = 0; body = []; error = none }

-- The number of rounds of `for attempt := 0; attempt <= e.MaxRetries; attempt++`.
abbrev pub rounds : ℤ → ℕ
rounds (pos n) = suc n
rounds (negsuc n) = 0

-- How a round ends: by a return, or with the next one.
pub data Tried : Type 0 where
  returns : Sent → Tried
  continues : Outcome → Tried

module _ (w : World) where
  unfoldable pub answer : Delivery → Result Response → Tried
  answer d (err e) = continues (failed d e)
  answer d (ok r) =
      if ltb r.status_code 500 then returns (answered d r, none) else continues (answered d r)

  unfoldable pub request_or : Delivery → Request → Result (Unit {0}) → History → Tried × History
  unfolding answer
  request_or d req (err e) h =
      let e' = wrapped "new request: %w" [] e in (returns (failed d e', some e'), h)
  request_or d req (ok _) h = (answer d (w.post h req), posted req ∷ h)

  -- A round after its wait: the request is made and posted.
  unfoldable pub try_once : String → Delivery → Header → Bytes → History → Tried × History
  unfolding request_or
  try_once target d header body h =
      request_or d (record { target = target; header = header; body = body }) (w.new_request target)
        h

  abbrev pub resume : (Outcome → History → Sent × History) → Tried × History → Sent × History
  resume next (returns s, h) = (s, h)
  resume next (continues last, h) = next last h

  -- The rounds that are left after the first one; each begins with its wait.
  unfoldable pub retry :
      ℕ → String → Delivery → Header → Bytes → ℤ → Outcome → History → Sent × History
  unfolding try_once
  retry zero target d header body wait last h = ((last, last.error), h)
  retry (suc n) target d header body wait last h =
      let cut : Sent × History =
        ((failed d (w.context_error h), some (w.context_error h)), cancelled ∷ h) in
      let go : Sent × History =
        resume (retry n target d header body (wrap64 (scale 2 wait)))
          (try_once target d header body (waited wait ∷ h)) in
      if w.waits h wait then go else cut

  -- The loop: its first round does not wait.
  unfoldable pub attempts : ℕ → String → Delivery → Header → Bytes → ℤ → History → Sent × History
  unfolding retry
  attempts zero target d header body wait h = ((zero_outcome, none), h)
  attempts (suc n) target d header body wait h =
      resume (retry n target d header body wait) (try_once target d header body h)

  unfoldable pub built :
      Emitter → String → Delivery → Result (Header × Bytes) → History → Sent × History
  unfolding attempts
  built e target d (err x) h =
      let x' = wrapped "build webhook: %w" [] x in ((failed d x', some x'), h)
  built e target d (ok (header, body)) h =
      attempts (rounds e.max_retries) target d header body e.retry_wait h

  -- e.sendWithRetry(ctx, target, d)
  unfoldable pub send_with_retry : Emitter → String → Delivery → History → Sent × History
  unfolding built
  send_with_retry e target d h =
      built e target d (d.provider.build_webhook (w.noise h) d.event d.secret) (sends d ∷ h)

-- ===== src/Emitter/Retry.antt =====
-- sendWithRetry: how many requests it posts, and what a result without an error says.
use git_simulator.Base.{
  ℕ, zero, suc, ◌+◌, ◌≤◌, ◌<◌, String, Bool-cases, ltb, ltb→lt, none, some, [], ◌∷◌, ◌≡◌, refl, ℤ,
  pos, wrap64, scale, arith, ◌⊎◌, inl, inr, subst,
}
use git_simulator.Core.Errors.{Error, Result, ok, err}
use git_simulator.Core.Provider.{Header, Bytes}
use git_simulator.Emitter.World.{
  Delivery, Outcome, Request, Response, sends, waited, cancelled, posted, History, World,
}
use git_simulator.Emitter.Send.{
  Emitter, Sent, failed, answered, Tried, returns, continues, try_once, retry, attempts,
  send_with_retry, answer, request_or, built, resume,
}

-- The number of requests that have been posted.
abbrev pub posts : History → ℕ
posts [] = 0
posts (sends d ∷ h) = posts h
posts (waited d ∷ h) = posts h
posts (cancelled ∷ h) = posts h
posts (posted r ∷ h) = suc (posts h)

module _ (w : World) where
  -- The outcome is the answer to the request that was posted last.
  pub record IsAnswer (d : Delivery) (o : Outcome) (h : History) : Type 0 where
    pub before : History
    pub request : Request
    pub response : Response
    pub posted_last : h ≡ posted request ∷ before
    pub answers : w.post before request ≡ ok response
    pub reports : o ≡ answered d response

  -- What a sending of `d` ends with, where at most `limit` requests may be posted in all.
  pub record Ending (d : Delivery) (limit : ℕ) (sent : Sent × History) : Type 0 where
    pub within : posts (sent.1) ≤ limit
    pub reports_delivery : sent.0.0.delivery ≡ some d
    pub returns_error : sent.0.0.error ≡ sent.0.1
    pub if_none :
        sent.0.1 ≡ none
        → IsAnswer d sent.0.0 sent.1 × ((sent.0.0.status_code < 500) ⊎ (posts (sent.1) ≡ limit))

  -- The outcome that a round hands to the next one.
  abbrev Pending : Delivery → Outcome → History → Type 0
  Pending d o h = (o.delivery ≡ some d) × (o.error ≡ none → IsAnswer d o h)

  abbrev Round : Delivery → ℕ → Tried × History → Type 0
  Round d m (returns s, h) = (n : ℕ) → Ending d (n + suc m) (s, h)
  Round d m (continues o, h) = (posts h ≡ suc m) × Pending d o h

  Ending-failed :
      (d : Delivery) (e : Error) (limit : ℕ) (h : History)
      → posts h ≤ limit
      → Ending d limit ((failed d e, some e), h)
  Ending-failed d e limit h b = record {
    within = b;
    reports_delivery = refl;
    returns_error = refl;
    if_none = λ p. cc;
  }

  answer-Round :
      (d : Delivery) (req : Request) (h : History) (a : Result Response)
      → w.post h req ≡ a
      → Round d (posts h) (answer w d a, posted req ∷ h)
  unfolding answer
  answer-Round d req h (err e) p = (refl, (refl, λ q. cc))
  answer-Round d req h (ok r) p =
      let told : IsAnswer d (answered d r) (posted req ∷ h) = record {
        before = h;
        request = req;
        response = r;
        posted_last = refl;
        answers = p;
        reports = refl;
      } in
      elim (Bool-cases (ltb r.status_code 500)) [
        | inl b ↦ rw b (λ n. record {
          within = omega arith;
          reports_delivery = refl;
          returns_error = refl;
          if_none = λ q. (told, inl (ltb→lt r.status_code 500 b));
        })
        | inr b ↦ rw b (refl, (refl, λ q. told))
      ]

  request_or-Round :
      (d : Delivery) (req : Request) (made : Result (Unit {0})) (h : History)
      → Round d (posts h) (request_or w d req made h)
  unfolding request_or
  request_or-Round d req (err e) h = λ n. Ending-failed d _ _ h (omega arith)
  request_or-Round d req (ok _) h = answer-Round d req h _ refl

  try_once-Round :
      (target : String) (d : Delivery) (header : Header) (body : Bytes) (h : History)
      → Round d (posts h) (try_once w target d header body h)
  unfolding try_once
  try_once-Round target d header body h = request_or-Round d _ _ h

  resume-Ending :
      (d : Delivery) (n m limit : ℕ)
      → n + suc m ≡ limit
      → (next : Outcome → History → Sent × History)
      → ((o : Outcome) (h : History)
          → posts h ≡ suc m
          → Pending d o h
          → Ending d (n + suc m) (next o h))
      → (t : Tried × History) → Round d m t
      → Ending d limit (resume w next t)
  resume-Ending d n m limit p next step (returns s, h) r = subst (λ k. Ending d k (s, h)) p (r n)
  resume-Ending d n m limit p next step (continues o, h) r =
      subst (λ k. Ending d k (next o h)) p (step o h r.0 r.1)

  moved : (n m : ℕ) → n + suc m ≡ suc n + m
  moved n m = omega arith

  retry-Ending :
      (n m : ℕ) (target : String) (d : Delivery) (header : Header) (body : Bytes) (wait : ℤ)
      (last : Outcome) (h : History)
      → posts h ≡ m
      → Pending d last h
      → Ending d (n + m) (retry w n target d header body wait last h)
  unfolding retry
  retry-Ending zero m target d header body wait last h count pending = record {
    within = omega arith;
    reports_delivery = pending.0;
    returns_error = refl;
    if_none = λ q. (pending.1 q, inr (omega arith));
  }
  retry-Ending (suc n) m target d header body wait last h count pending =
      elim (Bool-cases (w.waits h wait)) [
        | inl b ↦ rw b (
            resume-Ending d n m (suc n + m) (moved n m)
              (retry w n target d header body (wrap64 (scale 2 wait)))
              (λ o h'. retry-Ending n (suc m) target d header body _ o h')
              (try_once w target d header body (waited wait ∷ h))
              (subst (λ k. Round d k (try_once w target d header body (waited wait ∷ h))) count
                (try_once-Round target d header body (waited wait ∷ h))))
        | inr b ↦ rw b (Ending-failed d _ _ (cancelled ∷ h) (omega arith))
      ]

  built-Ending :
      (n : ℕ) (e : Emitter) (target : String) (d : Delivery) (made : Result (Header × Bytes))
      (h : History)
      → e.max_retries ≡ pos n
      → Ending d (n + suc (posts h)) (built w e target d made h)
  unfolding built attempts
  built-Ending n e target d (err x) h limit = Ending-failed d _ _ h (omega arith)
  built-Ending n e target d (ok (header, body)) h limit = rw limit (
      resume-Ending d n (posts h) _ refl (retry w n target d header body e.retry_wait)
        (λ o h'. retry-Ending n (suc (posts h)) target d header body _ o h')
        (try_once w target d header body h) (try_once-Round target d header body h))

  -- With n retries a sending posts at most n + 1 requests. Its result names the delivery and holds
  -- the error that is returned. If that is none, the result is the answer to the last request, and
  -- its status is below 500 or all n + 1 requests were posted.
  pub send_with_retry-Ending :
      (n : ℕ) (e : Emitter) (target : String) (d : Delivery) (h : History)
      → e.max_retries ≡ pos n
      → Ending d (n + suc (posts h)) (send_with_retry w e target d h)
  unfolding send_with_retry
  send_with_retry-Ending n e target d h limit = built-Ending n e target d _ (sends d ∷ h) limit

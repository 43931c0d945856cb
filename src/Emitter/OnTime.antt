-- ===== src/Emitter/OnTime.antt =====
-- sendBatch: in which order and when the deliveries are sent.
use git_simulator.Base.{
  ℕ, zero, suc, String, Bool-cases, true, none, List, [], ◌∷◌, ◌++◌, map, ◌≡◌, refl, ℤ, pos, ◌+ℤ◌,
  ◌-ℤ◌, ◌≤ℤ◌, ltb_ℤ, ltb_ℤ→ge, wrap64, scale, arith, append_cons, subst, sort_stable-perm,
  sort_stable-IsSorted, with_key-sort_stable, with_key, IsSorted, Perm, inl, inr, set, +ℤ_parts,
  -ℤ_parts,
}
use git_simulator.Core.Errors.{Result, ok, err}
use git_simulator.Core.Provider.{Header, Bytes}
use git_simulator.Emitter.World.{
  Delivery, Outcome, Request, Event, sends, waited, cancelled, posted, History, World, ClockLaws,
}
use git_simulator.Emitter.Send.{
  Emitter, Sent, Tried, returns, continues, try_once, retry, attempts, send_with_retry, request_or,
  built, resume,
}
use git_simulator.Emitter.Batch.{
  Entry, hold, deliver, Batch, in_order, entries_from, send_time, send_batch,
}

-- No delivery is sent by it.
pub data IsQuiet : Event → Type 0 where
  waiting : {d : ℤ} → IsQuiet (waited d)
  cancelling : IsQuiet cancelled
  posting : {r : Request} → IsQuiet (posted r)

module _ (w : World) where
  -- From `start` on, in the history h₀, the deliveries `ds` are sent in this order, each no earlier
  -- than its SendAt after `start`.
  pub data Progress (start : ℤ) (h₀ : History) : List Delivery → History → Type 0 where
    begins : Progress start h₀ [] h₀
    quiet :
        {ds : List Delivery} {h : History} (e : Event)
        → IsQuiet e
        → Progress start h₀ ds h
        → Progress start h₀ ds (e ∷ h)
    sent :
        {ds : List Delivery} {h : History} (d : Delivery)
        → start +ℤ d.send_at ≤ℤ w.now h
        → Progress start h₀ ds h
        → Progress start h₀ (ds ++ d ∷ []) (sends d ∷ h)

  -- What no wait and no request breaks.
  record Quiet (P : History → Type 0) : Type 0 where
    keeps : (e : Event) (h : History) → IsQuiet e → P h → P (e ∷ h)

  module _ (P : History → Type 0) (q : Quiet P) where
    request_or-Quiet :
        (d : Delivery) (req : Request) (made : Result (Unit {0})) (h : History)
        → P h
        → P (request_or w d req made h).1
    unfolding request_or
    request_or-Quiet d req (err e) h p = p
    request_or-Quiet d req (ok _) h p = q.keeps _ h posting p

    resume-Quiet :
        (next : Outcome → History → Sent × History)
        → ((o : Outcome) (h : History) → P h → P (next o h).1)
        → (t : Tried × History) → P t.1
        → P (resume w next t).1
    resume-Quiet next step (returns s, h) p = p
    resume-Quiet next step (continues o, h) p = step o h p

    try_once-Quiet :
        (target : String) (d : Delivery) (header : Header) (body : Bytes) (h : History)
        → P h
        → P (try_once w target d header body h).1
    unfolding try_once
    try_once-Quiet target d header body h p = request_or-Quiet d _ _ h p

    retry-Quiet :
        (n : ℕ) (target : String) (d : Delivery) (header : Header) (body : Bytes) (wait : ℤ)
        (last : Outcome) (h : History)
        → P h
        → P (retry w n target d header body wait last h).1
    unfolding retry
    retry-Quiet zero target d header body wait last h p = p
    retry-Quiet (suc n) target d header body wait last h p = elim (Bool-cases (w.waits h wait)) [
      | inl b ↦ rw b (
          resume-Quiet (retry w n target d header body (wrap64 (scale 2 wait)))
            (λ o h' p'. retry-Quiet n target d header body _ o h' p')
            (try_once w target d header body (waited wait ∷ h))
            (try_once-Quiet target d header body _ (q.keeps _ h waiting p)))
      | inr b ↦ rw b (q.keeps _ h cancelling p)
    ]

    attempts-Quiet :
        (n : ℕ) (target : String) (d : Delivery) (header : Header) (body : Bytes) (wait : ℤ)
        (h : History)
        → P h
        → P (attempts w n target d header body wait h).1
    unfolding attempts
    attempts-Quiet zero target d header body wait h p = p
    attempts-Quiet (suc n) target d header body wait h p =
        resume-Quiet (retry w n target d header body wait)
          (λ o h' p'. retry-Quiet n target d header body wait o h' p')
          (try_once w target d header body h) (try_once-Quiet target d header body h p)

    built-Quiet :
        (e : Emitter) (target : String) (d : Delivery) (made : Result (Header × Bytes))
        (h : History)
        → P h
        → P (built w e target d made h).1
    unfolding built
    built-Quiet e target d (err x) h p = p
    built-Quiet e target d (ok (header, body)) h p = attempts-Quiet _ target d header body _ h p

    send_with_retry-Quiet :
        (e : Emitter) (target : String) (d : Delivery) (h : History)
        → P (sends d ∷ h)
        → P (send_with_retry w e target d h).1
    unfolding send_with_retry
    send_with_retry-Quiet e target d h p = built-Quiet e target d _ _ p

  Progress-Quiet : (start : ℤ) (h₀ : History) (ds : List Delivery) → Quiet (Progress start h₀ ds)
  Progress-Quiet start h₀ ds = record { keeps = λ e h q p. quiet e q p }

  -- What a run does from where `done` has been sent and `due` is left.
  pub record Sends (h₀ : History) (all : List Delivery) (b : Batch w) : Type 0 where
    pub done : List Delivery
    pub late : List Delivery
    pub progress : Progress (w.now h₀) h₀ done b.1
    pub order : all ≡ done ++ late
    pub if_none : b.0.1 ≡ none → late ≡ []

  module _ (laws : ClockLaws w) where
    Progress-now :
        {h₀ : History} {ds : List Delivery} {h : History}
        → Progress (w.now h₀) h₀ ds h
        → w.now h₀ ≤ℤ w.now h
    Progress-now begins = omega arith
    Progress-now (quiet {h = h} e q p) = omega (arith, Progress-now p, laws.forward e h)
    Progress-now (sent {h = h} d t p) = omega (arith, Progress-now p, laws.forward (sends d) h)

    -- Once the wait has ended, the delivery is due.
    hold-due :
        (start at : ℤ) (h : History)
        → start ≤ℤ w.now h
        → (hold w start at h).0 ≡ true
        → start +ℤ at ≤ℤ w.now (hold w start at h).1
    unfolding hold
    hold-due start at h later =
        let remaining = at -ℤ (w.now h -ℤ start) in
        elim (Bool-cases (ltb_ℤ (pos 0) at)) [
          | inr b ↦ rw b (λ go. omega (arith, later, ltb_ℤ→ge (pos 0) at b, +ℤ_parts start at))
          | inl b ↦ elim (Bool-cases (ltb_ℤ (pos 0) remaining)) [
            | inr c ↦
                rw (b, c)
                  (λ go. omega (
                    arith,
                    ltb_ℤ→ge (pos 0) remaining c,
                    +ℤ_parts start at,
                    -ℤ_parts at (w.now h -ℤ start),
                    -ℤ_parts (w.now h) start,
                  ))
            | inl c ↦ elim (Bool-cases (w.waits h remaining)) [
              | inr f ↦ rw (b, c, f) (λ go. cc)
              | inl f ↦
                  rw (b, c, f)
                    (λ go. omega (
                      arith,
                      laws.waited_for remaining h,
                      +ℤ_parts start at,
                      +ℤ_parts (w.now h) remaining,
                      -ℤ_parts at (w.now h -ℤ start),
                      -ℤ_parts (w.now h) start,
                    ))
            ]
          ]
        ]

    hold-Quiet :
        (P : History → Type 0)
        → Quiet P
        → (start at : ℤ) (h : History) → P h
        → P (hold w start at h).1
    unfolding hold
    hold-Quiet P q start at h p =
        let remaining = at -ℤ (w.now h -ℤ start) in
        elim (Bool-cases (ltb_ℤ (pos 0) at)) [
          | inr b ↦ rw b p
          | inl b ↦ elim (Bool-cases (ltb_ℤ (pos 0) remaining)) [
            | inr c ↦ rw (b, c) p
            | inl c ↦ elim (Bool-cases (w.waits h remaining)) [
              | inr f ↦ rw (b, c, f) (q.keeps _ h cancelling p)
              | inl f ↦ rw (b, c, f) (q.keeps _ h waiting p)
            ]
          ]
        ]

    deliver-Sends :
        (e : Emitter) (target : String) (h₀ : History) (xs : List Entry) (results : List Outcome)
        (done : List Delivery) (h : History)
        → Progress (w.now h₀) h₀ done h
        → Sends h₀ (done ++ map (λ x. x.delivery) xs) (deliver w e target (w.now h₀) xs results h)
    unfolding deliver
    deliver-Sends e target h₀ [] results done h p = record {
      done = done;
      late = [];
      progress = p;
      order = refl;
      if_none = λ q. refl;
    }
    deliver-Sends e target h₀ (x ∷ xs) results done h p =
        let d = x.delivery in
        let held = (hold w (w.now h₀) d.send_at h).1 in
        let p' =
          hold-Quiet (Progress (w.now h₀) h₀ done) (Progress-Quiet _ _ _) (w.now h₀) d.send_at h
            p in
        elim (Bool-cases (hold w (w.now h₀) d.send_at h).0) [
          | inr b ↦ rw b (record {
            done = done;
            late = map (λ x. x.delivery) (x ∷ xs);
            progress = p';
            order = refl;
            if_none = λ q. cc;
          })
          | inl b ↦ rw b (
              subst
                (λ ds. Sends h₀ ds (
                  deliver w e target (w.now h₀) xs
                    (set results x.orig_idx (send_with_retry w e target d held).0.0)
                    (send_with_retry w e target d held).1))
                (append_cons done d (map (λ x. x.delivery) xs))
                (deliver-Sends e target h₀ xs _ (done ++ d ∷ []) _ (
                  send_with_retry-Quiet (Progress (w.now h₀) h₀ (done ++ d ∷ []))
                    (Progress-Quiet _ _ _) e target d held
                    (sent d (hold-due (w.now h₀) d.send_at h (Progress-now p) b) p'))))
        ]

  in_order-IsSorted : (ds : List Delivery) → IsSorted send_time (in_order ds)
  unfolding in_order
  in_order-IsSorted ds = sort_stable-IsSorted send_time (entries_from 0 ds)

  in_order-Perm : (ds : List Delivery) → Perm (in_order ds) (entries_from 0 ds)
  unfolding in_order
  in_order-Perm ds = sort_stable-perm send_time (entries_from 0 ds)

  with_key-in_order :
      (k : ℤ) (ds : List Delivery)
      → with_key send_time k (in_order ds) ≡ with_key send_time k (entries_from 0 ds)
  unfolding in_order
  with_key-in_order k ds = with_key-sort_stable send_time k (entries_from 0 ds)

  -- How a batch is sent: the schedule holds each delivery once, sorted by SendAt and in the order of
  -- the slice where SendAt is equal; it is followed, no delivery before its SendAt, and to its end
  -- unless an error is returned.
  pub record IsScheduled (ds : List Delivery) (h : History) (b : Batch w) : Type 0 where
    pub sorted : IsSorted send_time (in_order ds)
    pub complete : Perm (in_order ds) (entries_from 0 ds)
    pub stable :
        (k : ℤ) → with_key send_time k (in_order ds) ≡ with_key send_time k (entries_from 0 ds)
    pub follows : Sends h (map (λ x. x.delivery) (in_order ds)) b

  -- On a clock that does not go back, sendBatch sends in the order of SendAt (in the order of the
  -- slice where SendAt is equal), each delivery no earlier than its SendAt after the start, and it
  -- sends them all unless it returns an error.
  pub send_batch-IsScheduled :
      ClockLaws w
      → (e : Emitter) (target : String) (ds : List Delivery) (h : History)
      → IsScheduled ds h (send_batch w e target ds h)
  unfolding send_batch
  send_batch-IsScheduled laws e target ds h = record {
    sorted = in_order-IsSorted ds;
    complete = in_order-Perm ds;
    stable = λ k. with_key-in_order k ds;
    follows = deliver-Sends laws e target h (in_order ds) _ [] h begins;
  }

-- ===== src/Core/Clock/Laws.antt =====
-- What the manual clock promises while one goroutine uses it at a time.
use git_simulator.Base.{
  ℤ, ◌+ℤ◌, ◌≤ℤ◌, ◌<ℤ◌, ltb_ℤ, ◌≡◌, ◌≢◌, Option, none, some, List, [], ◌∷◌, arith, ltb_ℤ→lt,
  ltb_ℤ→ge, Bool-cases, inl, inr,
}
use git_simulator.Core.Clock.{
  ManualClock, zero_time, new_manual_clock, now, set_clock, advance, poll, after,
}

-- A clock that was set shows that time, and Advance adds to the time that it showed; reading
-- changes nothing.
now-set_advance :
    (t d : ℤ) (m : ManualClock)
    → ((now (set_clock t m)).0 ≡ t) × ((now (advance d m)).0 ≡ (now m).0 +ℤ d) × ((now m).1 ≡ m)
unfolding now set_clock advance
now-set_advance t d m = ground arith

-- A new clock shows the zero time, whatever time it was made with.
now-new_manual_clock : (t : ℤ) → t ≢ zero_time → (now (new_manual_clock t)).0 ≢ t
unfolding now new_manual_clock
now-new_manual_clock t ne e = ground arith

-- The first of the times that is no earlier than the deadline.
pub data Fires (deadline : ℤ) : List ℤ → ℤ → Type 0 where
  fires : (t : ℤ) (ts : List ℤ) → deadline ≤ℤ t → Fires deadline (t ∷ ts) t
  waits : {t u : ℤ} {ts : List ℤ} → t <ℤ deadline → Fires deadline ts u → Fires deadline (t ∷ ts) u

abbrev pub AllBefore : ℤ → List ℤ → Type 0
AllBefore deadline [] = Unit {0}
AllBefore deadline (t ∷ ts) = (t <ℤ deadline) × AllBefore deadline ts

abbrev pub Polled : ℤ → List ℤ → Option ℤ → Type 0
Polled deadline ts none = AllBefore deadline ts
Polled deadline ts (some u) = Fires deadline ts u

abbrev polled_later :
    (deadline t : ℤ) (ts : List ℤ) (o : Option ℤ)
    → t <ℤ deadline
    → Polled deadline ts o
    → Polled deadline (t ∷ ts) o
polled_later deadline t ts none h k = (h, k)
polled_later deadline t ts (some u) h k = waits h k

poll-Polled : (deadline : ℤ) (ts : List ℤ) → Polled deadline ts (poll deadline ts)
unfolding poll
poll-Polled deadline [] = tt
poll-Polled deadline (t ∷ ts) = elim (Bool-cases (ltb_ℤ t deadline)) [
  | inl early ↦ rw early (
      polled_later deadline t ts (poll deadline ts) (ltb_ℤ→lt t deadline early)
        (poll-Polled deadline ts))
  | inr due ↦ rw due (fires t ts (ltb_ℤ→ge t deadline due))
]

-- The channel of After(d) gets the first of the polled times that is at least d after the first
-- reading, and it gets nothing only while all of them are earlier than that.
pub after-Polled : (d first : ℤ) (ts : List ℤ) → Polled (first +ℤ d) ts (after d (first ∷ ts))
unfolding after
after-Polled d first ts = poll-Polled (first +ℤ d) ts

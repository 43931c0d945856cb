-- ===== src/Core/Clock.antt =====
-- pkg/core/clock.go. A time is the nanoseconds since `time.Time{}`, a duration is nanoseconds; both
-- are integers without a bound. The channel of `ManualClock` has room for one time.
pub mod Threads
pub mod Laws
use git_simulator.Base.{
  ℕ, ℤ, pos, ◌+ℤ◌, ltb_ℤ, not, Bool, true, false, if◌then◌else◌, Option, none, some, List, [], ◌∷◌,
}

-- time.Time{}
abbrev pub zero_time : ℤ
zero_time = pos 0

pub record ManualClock : Type 0 where
  pub cell : Option ℤ

-- NewManualClock(t): the channel is made empty.
unfoldable pub new_manual_clock : ℤ → ManualClock
new_manual_clock t = record { cell = none }

-- The two cases of the `select` of m.Now(): a received time is sent back.
now_from : Option ℤ → ℤ × ManualClock
now_from (some t) = (t, record { cell = some t })
now_from none = (zero_time, record { cell = none })

-- m.Now(), with no other goroutine between its receive and its send
unfoldable pub now : ManualClock → ℤ × ManualClock
unfolding now_from
now m = now_from m.cell

-- m.Set(t)
unfoldable pub set_clock : ℤ → ManualClock → ManualClock
set_clock t m = record { cell = some t }

-- m.Advance(d)
unfoldable pub advance : ℤ → ManualClock → ManualClock
unfolding now set_clock
advance d m = let (t, m') = now m in set_clock (t +ℤ d) m'

-- The loop of the goroutine of m.After(d), over the times that its calls of m.Now() return; `none`
-- means that it is still polling.
poll : ℤ → List ℤ → Option ℤ
poll deadline [] = none
poll deadline (t ∷ ts) =
    let later = poll deadline ts in if not (ltb_ℤ t deadline) then some t else later

-- m.After(d): the first reading gives the deadline.
unfoldable pub after : ℤ → List ℤ → Option ℤ
unfolding poll
after d [] = none
after d (t ∷ ts) = poll (t +ℤ d) ts

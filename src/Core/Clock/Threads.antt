-- ===== src/Core/Clock/Threads.antt =====
-- `ManualClock` under goroutines that run at the same time: each step is one operation on the
-- channel. A receive and the send that follows it are two steps, so others can come between.
pub mod Readers
pub mod Torn
use git_simulator.Base.{ℕ, suc, ℤ, ◌+ℤ◌, ◌≡◌, Option, none, some, List, [], ◌∷◌, get_elem?, set}
use git_simulator.Core.Clock.{zero_time}

-- Where a goroutine stands in a call of the clock, with what it holds.
pub data Thread : Type 0 where
  -- m.Now(): before the select, with a time received and not yet sent back, and returned
  now_start : Thread
  now_holding : ℤ → Thread
  now_returned : ℤ → Thread
  -- m.Set(t): before the select, before the send, and returned
  set_start : ℤ → Thread
  set_sending : ℤ → Thread
  set_returned : Thread
  -- m.Advance(d): in its call of m.Now(), before and after the receive
  advance_start : ℤ → Thread
  advance_holding : ℤ → ℤ → Thread

-- The next step of a goroutine at a channel: the channel and the goroutine after it. `none` means
-- that it cannot go on: it has returned, or it waits to send into the full channel.
unfoldable pub move : Option ℤ → Thread → Option (Option ℤ × Thread)
move (some t) now_start = some (none, now_holding t)
move none now_start = some (none, now_returned zero_time)
move none (now_holding t) = some (some t, now_returned t)
move (some _) (now_holding t) = none
move cell (now_returned t) = none
move cell (set_start t) = some (none, set_sending t)
move none (set_sending t) = some (some t, set_returned)
move (some _) (set_sending t) = none
move cell set_returned = none
move (some t) (advance_start d) = some (none, advance_holding d t)
move none (advance_start d) = some (none, set_start (zero_time +ℤ d))
move none (advance_holding d t) = some (some t, set_start (t +ℤ d))
move (some _) (advance_holding d t) = none

pub record Config : Type 0 where
  pub cell : Option ℤ
  pub threads : List Thread

-- A step of the i-th goroutine.
pub data Step (i : ℕ) : Config → Config → Type 0 where
  moves :
      {c : Config} {cell : Option ℤ} (th th' : Thread)
      → get_elem? c.threads i ≡ some th
      → move c.cell th ≡ some (cell, th')
      → Step i c (record { cell = cell; threads = set c.threads i th' })

pub data Reach (c : Config) : Config → Type 0 where
  here : Reach c c
  next : {i : ℕ} {d e : Config} → Reach c d → Step i d e → Reach c e

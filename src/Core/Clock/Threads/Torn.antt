-- ===== src/Core/Clock/Threads/Torn.antt =====
-- Calls of the manual clock that overlap are not atomic.
use git_simulator.Base.{
  ℕ, zero, suc, ℤ, ◌+ℤ◌, ◌≡◌, refl, Option, some, [], ◌∷◌, get_elem?, some_inj,
}
use git_simulator.Core.Clock.{zero_time}
use git_simulator.Core.Clock.Threads.{
  Thread, now_start, now_holding, now_returned, set_start, set_sending, set_returned, advance_start,
  move, Config, Step, moves, Reach, here, next,
}

abbrev pub config : Option ℤ → Thread → Thread → Config
config cell a b = record { cell = cell; threads = a ∷ b ∷ [] }

-- Nobody can take a step.
abbrev pub IsStuck : Config → Type 0
IsStuck c = (i : ℕ) (d : Config) → ¬ Step i c d

-- While one call of Now is between its receive and its send, another one finds the channel empty
-- and returns the zero time, whatever the clock was set to.
pub torn_read :
    (t : ℤ)
    → Reach
        (config (some t) now_start now_start)
        (config (some t) (now_returned t) (now_returned zero_time))
unfolding move
torn_read t =
    let holding = next {i = 0} here (moves now_start (now_holding t) refl refl) in
    let torn = next {i = 1} holding (moves now_start (now_returned zero_time) refl refl) in
    next {i = 0} torn (moves (now_holding t) (now_returned t) refl refl)

-- The same window makes Advance start from the zero time: a clock at t that is advanced by d ends at
-- d, and so goes back whenever t is later than the zero time.
pub advance_from_zero :
    (t d : ℤ)
    → Reach
        (config (some t) now_start (advance_start d))
        (config (some (zero_time +ℤ d)) (now_returned t) set_returned)
unfolding move
advance_from_zero t d =
    let start = zero_time +ℤ d in
    let holding = next {i = 0} here (moves now_start (now_holding t) refl refl) in
    let torn = next {i = 1} holding (moves (advance_start d) (set_start start) refl refl) in
    let returned = next {i = 0} torn (moves (now_holding t) (now_returned t) refl refl) in
    let drained = next {i = 1} returned (moves (set_start start) (set_sending start) refl refl) in
    next {i = 1} drained (moves (set_sending start) set_returned refl refl)

stuck_at :
    (t u : ℤ) (i : ℕ) (th th' : Thread) (cell : Option ℤ)
    → get_elem? (now_holding t ∷ set_returned ∷ []) i ≡ some th
    → move (some u) th ≡ some (cell, th')
    → ⊥
unfolding move
stuck_at t u zero th th' cell at m = cc (rw (← some_inj at) at m)
stuck_at t u (suc zero) th th' cell at m = cc (rw (← some_inj at) at m)
stuck_at t u (suc (suc i)) th th' cell at m = cc

stuck : (t u : ℤ) → IsStuck (config (some u) (now_holding t) set_returned)
stuck t u i d (moves {cell = cell} th th' at m) = stuck_at t u i th th' cell at m

-- And it can block a reader for good: a Set that comes between fills the channel, and the reader's
-- send waits with nobody left to receive.
pub set_blocks_reader :
    (t u : ℤ)
    → Reach (config (some t) now_start (set_start u)) (config (some u) (now_holding t) set_returned)
      × IsStuck (config (some u) (now_holding t) set_returned)
unfolding move
set_blocks_reader t u =
    let holding = next {i = 0} here (moves now_start (now_holding t) refl refl) in
    let sending = next {i = 1} holding (moves (set_start u) (set_sending u) refl refl) in
    (next {i = 1} sending (moves (set_sending u) set_returned refl refl), stuck t u)

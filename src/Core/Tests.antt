-- ===== src/Core/Tests.antt =====
-- The manual clock at concrete inputs.
use git_simulator.Base.{◌≡◌, refl, pos, ◌+ℤ◌, none, some, [], ◌∷◌}
use git_simulator.Core.Clock.{ManualClock, now, set_clock, advance, after, zero_time}
use git_simulator.Core.Clock.Laws.{after-Polled, Polled}
use git_simulator.Core.Clock.Threads.{
  Reach, here, next, moves, move, now_start, now_holding, now_returned, advance_start, set_start,
  set_returned,
}
use git_simulator.Core.Clock.Threads.Torn.{
  config, torn_read, advance_from_zero, set_blocks_reader, IsStuck,
}
use git_simulator.Core.Clock.Threads.Readers.{IsKept, Reach-IsKept}

abbrev noon : ManualClock
noon = record { cell = some (pos 12) }

advanced : (now (advance (pos 3) noon)).0 ≡ pos 15
unfolding now advance set_clock ◌+ℤ◌
advanced = refl

after-Polled_example :
    Polled (pos 2 +ℤ pos 5) (pos 3 ∷ pos 9 ∷ []) (after (pos 5) (pos 2 ∷ pos 3 ∷ pos 9 ∷ []))
after-Polled_example = after-Polled (pos 5) (pos 2) (pos 3 ∷ pos 9 ∷ [])

fired_at_nine : after (pos 5) (pos 2 ∷ pos 3 ∷ pos 9 ∷ []) ≡ some (pos 9)
unfolding after ◌+ℤ◌
fired_at_nine = refl

torn_read_example :
    Reach
      (config (some (pos 12)) now_start now_start)
      (config (some (pos 12)) (now_returned (pos 12)) (now_returned zero_time))
torn_read_example = torn_read (pos 12)

advance_from_zero_example :
    Reach
      (config (some (pos 12)) now_start (advance_start (pos 3)))
      (config (some (zero_time +ℤ pos 3)) (now_returned (pos 12)) set_returned)
advance_from_zero_example = advance_from_zero (pos 12) (pos 3)

set_blocks_reader_example :
    Reach
      (config (some (pos 12)) now_start (set_start (pos 20)))
      (config (some (pos 20)) (now_holding (pos 12)) set_returned)
    × IsStuck (config (some (pos 20)) (now_holding (pos 12)) set_returned)
set_blocks_reader_example = set_blocks_reader (pos 12) (pos 20)

reading :
    Reach
      (config (some (pos 12)) now_start now_start)
      (config none (now_holding (pos 12)) now_start)
unfolding move
reading = next {i = 0} here (moves now_start (now_holding (pos 12)) refl refl)

started : IsKept (pos 12) (config (some (pos 12)) now_start now_start)
started = record { readers = (tt, (tt, tt)); shows = refl; once = refl }

Reach-IsKept_example : IsKept (pos 12) (config none (now_holding (pos 12)) now_start)
Reach-IsKept_example = Reach-IsKept reading started

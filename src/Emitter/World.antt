-- ===== src/Emitter/World.antt =====
-- What an emitter meets: a clock, a context that may be cancelled, and a target that answers. An
-- answer may depend on everything that has happened, and so every behaviour of them is a `World`.
use git_simulator.Base.{ℕ, String, Bool, List, ◌∷◌, ℤ, ◌+ℤ◌, ◌≤ℤ◌, Option}
use git_simulator.Core.Errors.{Error, Result}
use git_simulator.Core.Provider.{Provider, PushEvent, Header, Bytes, Noise}

pub record Delivery : Type 0 where
  pub provider : Provider
  pub event : PushEvent
  pub secret : String
  pub send_at : ℤ

-- Result: the zero value of a field stands where the source leaves it out.
pub record Outcome : Type 0 where
  pub delivery : Option Delivery
  pub status_code : ℕ
  pub body : Bytes
  pub error : Option Error

pub record Request : Type 0 where
  pub target : String
  pub header : Header
  pub body : Bytes

pub record Response : Type 0 where
  pub status_code : ℕ
  pub body : Bytes

-- A call of sendWithRetry, a wait on the clock that has ended, one that the context has cut short,
-- and a request that was posted.
pub data Event : Type 0 where
  sends : Delivery → Event
  waited : ℤ → Event
  cancelled : Event
  posted : Request → Event

-- Newest first.
abbrev pub History : Type 0
History = List Event

pub record World : Type 0 where
  -- clock.Now()
  pub now : History → ℤ
  -- the select on clock.After(d) and ctx.Done(): whether the timer wins
  pub waits : History → ℤ → Bool
  -- ctx.Err()
  pub context_error : History → Error
  -- http.NewRequestWithContext
  pub new_request : String → Result (Unit {0})
  -- client.Do
  pub post : History → Request → Result Response
  pub noise : History → Noise

-- A clock does not go back, and a wait of d that has ended has taken d.
pub record ClockLaws (w : World) : Type 0 where
  pub forward : (e : Event) (h : History) → w.now h ≤ℤ w.now (e ∷ h)
  pub waited_for : (d : ℤ) (h : History) → w.now h +ℤ d ≤ℤ w.now (waited d ∷ h)

-- ===== src/Core/Provider.antt =====
-- pkg/core/provider.go: what a hosting vendor supplies.
use git_simulator.Base.{ℕ, String, List}
use git_simulator.Core.Errors.{Result}

pub record PushEvent : Type 0 where
  pub host : String
  pub owner : String
  pub repo : String
  pub branch : String
  pub tag : String
  pub before : String
  pub after : String

-- http.Header, in the canonical spelling of its keys
abbrev pub Header : Type 0
Header = List (String × List String)

abbrev pub Bytes : Type 0
Bytes = List ℕ

-- The random bytes and the clock that a webhook is made with.
abbrev pub Noise : Type 0
Noise = ℕ → ℕ

pub record Provider : Type 0 where
  pub name : String
  pub repo_url : String → String → String → String
  pub build_webhook : Noise → PushEvent → String → Result (Header × Bytes)

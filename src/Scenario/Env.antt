-- ===== src/Scenario/Env.antt =====
-- pkg/scenario/scenario.go, and what a scenario does to the world: it pushes to a repository, posts
-- webhooks and waits. `S` is the state of all of it.
use git_simulator.Base.{ℕ, String, Bool, ◌==◌, if◌then◌else◌, ℤ, wrap64, scale, Option}
use git_simulator.Core.Errors.{Error}
use git_simulator.Core.Exec.{Exec}
use git_simulator.Core.Provider.{Bytes}

pub record WebhookResult : Type 0 where
  pub status_code : ℕ
  pub body : Bytes
  pub error : Option Error

pub record Env (S : Type 0) : Type 0 where
  -- repo.DefaultBranch()
  pub default_branch : String
  -- repo.VisibleCommit(branch)
  pub visible_commit : String → S → (String × Bool) × S
  -- repo.PushCommit(branch, delay)
  pub push_commit : String → ℤ → Exec S String
  -- fire(sha, target, secret, sendAfter)
  pub fire : String → String → String → ℤ → Exec S WebhookResult
  -- the select on ctx.Done() and time.After(d): ctx.Err() if the context ends it
  pub pause : ℤ → Exec S (Unit {0})
  -- time.Now()
  pub now : S → ℤ × S

-- time.Duration(ms) * time.Millisecond
abbrev pub millis : ℤ → ℤ
millis ms = wrap64 (scale 1_000_000 ms)

-- if branch == "" { branch = repo.DefaultBranch() }
abbrev pub branch_or : String → String → String
branch_or default branch = if branch == "" then default else branch

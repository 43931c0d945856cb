-- ===== src/Store/Refs.antt =====
-- pkg/store/refs.go: the visible and the pending commit of a branch.
use git_simulator.Base.{ℕ, String, Bool, true, false, not, ◌&&◌, ◌==◌, ℤ, pos, ltb_ℤ, if◌then◌else◌}

-- time.Time{}; a time is the nanoseconds since it.
abbrev pub zero_time : ℤ
zero_time = pos 0

pub record BranchState : Type 0 where
  pub visible_sha : String
  pub pending_sha : String
  pub promote_at : ℤ
  pub commit_index : ℕ

-- b.pendingSHA != "" && !clock.Now().Before(b.promoteAt)
abbrev pub is_due : ℤ → BranchState → Bool
is_due now b = not (b.pending_sha == "") && not (ltb_ℤ now b.promote_at)

abbrev pub promoted : BranchState → BranchState
promoted b = record b { visible_sha = b.pending_sha; pending_sha = ""; promote_at = zero_time }

-- b.resolve(clock), for the clock's reading `now`: the new state, the visible SHA, and whether it
-- was promoted.
unfoldable pub resolve : ℤ → BranchState → BranchState × String × Bool
resolve now b =
    if is_due now b then (promoted b, b.pending_sha, true) else (b, b.visible_sha, false)

pub record TagState : Type 0 where
  pub commit_sha : String
  pub annotated : Bool
  pub tag_obj_sha : String

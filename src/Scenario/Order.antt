-- ===== src/Scenario/Order.antt =====
-- resolveOrder of pkg/scenario/pushn.go: the indices of the commits in the order of their webhooks.
pub mod Swaps
pub mod Laws
use git_simulator.Base.{
  ℕ, zero, suc, ◌+◌, ◌-◌, ◌<◌, ◌≤◌, String, ◌==◌, Bool, true, false, if◌then◌else◌, ltb, nat_eq, ℤ,
  pos, Option, none, some, List, [], ◌∷◌, length, get_elem?, set,
}

-- indices[i] = i, from an index on, for `n` of them
abbrev pub indices_from : ℕ → ℕ → List ℤ
indices_from i zero = []
indices_from i (suc n) = pos i ∷ indices_from (suc i) n

-- indices[i] and indices[j] once both have been read
abbrev write_both : ℕ → ℕ → List ℤ → Option ℤ → Option ℤ → List ℤ
write_both i j xs (some x) (some y) = set (set xs i y) j x
write_both i j xs _ _ = xs

-- xs[i], xs[j] = xs[j], xs[i]
unfoldable pub swap : ℕ → ℕ → List ℤ → List ℤ
swap i j xs = write_both i j xs (get_elem? xs i) (get_elem? xs j)

-- for i < j { swap; i++; j-- }: each round narrows the gap, so `j` rounds are enough.
unfoldable pub swap_ends : ℕ → ℕ → ℕ → List ℤ → List ℤ
unfolding swap
swap_ends zero i j xs = xs
swap_ends (suc fuel) i j xs =
    let rest = swap_ends fuel (suc i) (j - 1) (swap i j xs) in if ltb i j then rest else xs

-- The swaps that rand.Shuffle asks for, one after the other.
unfoldable pub swap_all : List (ℕ × ℕ) → List ℤ → List ℤ
unfolding swap
swap_all [] xs = xs
swap_all ((i, j) ∷ ps) xs = swap_all ps (swap i j xs)

-- resolveOrder(n, order, custom), where `swaps` are the calls that rand.Shuffle(n, ...) makes.
unfoldable pub resolve_order : List (ℕ × ℕ) → ℕ → String → List ℤ → List ℤ
unfolding swap_ends swap_all
resolve_order swaps n order custom =
    let indices = indices_from 0 n in
    if order == "desc"
    then swap_ends n 0 (n - 1) indices
    else if order == "shuffle"
    then swap_all swaps indices
    else if order == "custom"
    then (if nat_eq (length custom) n then custom else indices)
    else indices

-- ===== src/Base/Decimal.antt =====
-- `%d` of package fmt, for a number that is not negative.
use Prim.Native.Nat.{ℕ, zero, suc, ◌/◌, ◌%◌}
use Prim.Native.String.{String}
use git_simulator.Base.Tests.{nat_eq, if◌then◌else◌}
use git_simulator.Base.Text.{◌<>◌}

abbrev digit : ℕ → String
digit zero = "0"
digit (suc zero) = "1"
digit (suc (suc zero)) = "2"
digit (suc (suc (suc zero))) = "3"
digit (suc (suc (suc (suc zero)))) = "4"
digit (suc (suc (suc (suc (suc zero))))) = "5"
digit (suc (suc (suc (suc (suc (suc zero)))))) = "6"
digit (suc (suc (suc (suc (suc (suc (suc zero))))))) = "7"
digit (suc (suc (suc (suc (suc (suc (suc (suc zero)))))))) = "8"
digit _ = "9"

digits : ℕ → ℕ → String → String
digits zero n done = done
digits (suc fuel) n done =
    let longer = digit (n % 10) <> done in
    let rest = digits fuel (n / 10) longer in if nat_eq (n / 10) 0 then longer else rest

-- A number has at most as many digits as one more than itself.
unfoldable pub itoa : ℕ → String
unfolding digits
itoa n = digits (suc n) n ""

-- ===== src/Core/Errors.antt =====
-- Go's error values, as pkg/core/errors.go and the calls of `fmt.Errorf` make them.
use git_simulator.Base.{String, Bool, true, false, List, ◌≡◌, refl, ◌⊎◌, inl, inr}

-- errors.go
pub data Sentinel : Type 0 where
  err_not_found err_already_exists err_no_commits : Sentinel

-- A format and its operands stand for the text that `fmt.Errorf` makes of them.
pub data Error : Type 0 where
  sentinel : Sentinel → Error
  library : String → Error
  message : String → List String → Error
  wrapped : String → List String → Error → Error
  -- Not an error value: a panic with that text, which ends a call as well, with no result.
  panicked : Error → Error

abbrev pub same_sentinel : Sentinel → Sentinel → Bool
same_sentinel err_not_found err_not_found = true
same_sentinel err_already_exists err_already_exists = true
same_sentinel err_no_commits err_no_commits = true
same_sentinel _ _ = false

-- errors.Is(err, target) for a sentinel: it follows the wrapped errors.
unfoldable pub errors_is : Error → Sentinel → Bool
errors_is (sentinel s) t = same_sentinel s t
errors_is (library _) t = false
errors_is (panicked _) t = false
errors_is (message _ _) t = false
errors_is (wrapped _ _ e) t = errors_is e t

pub data Result {ℓ} (A : Type ℓ) : Type ℓ where
  ok : A → Result A
  err : Error → Result A

-- if err != nil { return nil, fmt.Errorf("...: %w", ..., err) }
abbrev pub wrap {ℓ} : {A : Type ℓ} → String → List String → Result A → Result A
wrap f xs (ok a) = ok a
wrap f xs (err e) = err (wrapped f xs e)

pub Result-cases {ℓ} :
    {A : Type ℓ} (r : Result A) → ((a : A) × (r ≡ ok a)) ⊎ ((e : Error) × (r ≡ err e))
Result-cases (ok a) = inl (a, refl)
Result-cases (err e) = inr (e, refl)

pub ok_inj {ℓ} : {A : Type ℓ} {a b : A} → ok a ≡ ok b → a ≡ b
ok_inj h = cc

-- What an error path wraps was the error: a wrapped result that is good was good.
pub wrap-ok {ℓ} :
    {A : Type ℓ} (f : String) (xs : List String) (r : Result A) (a : A)
    → wrap f xs r ≡ ok a
    → r ≡ ok a
wrap-ok f xs (ok b) a h = h
wrap-ok f xs (err e) a h = cc

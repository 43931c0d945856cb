-- ===== src/Base/Text.antt =====
-- Texts: their code points, and the emptiness test that Go writes `s == ""`.
use Prim.Native.Char.{code}
use Prim.Native.Nat.{ℕ, zero, suc}
use Prim.Native.String as Text
use Prim.Native.String.{String}
use mathlib.Core.Path.{◌≡◌, refl, ap, sym, ◌∙◌}
use mathlib.Core.Bool.{true, false}
use mathlib.Core.Logic.{◌≢◌}
use mathlib.Core.List.{List, [], ◌∷◌, ◌++◌}
use native.Mathlib.Omega.{arith}
use text.Mathlib.Text.{◌==◌}
use text.Mathlib.TextEquality.{eq_iff}
use text.Mathlib.TextLemmas.{nil-append, cons-append}

abbrev pub codes : String → List ℕ
codes String.[] = []
codes (String.◌∷◌ c s) = code c ∷ codes s

infixr 65 ◌<>◌
abbrev pub ◌<>◌ : String → String → String
s <> t = Text.◌++◌ s t

pub codes-append : (s t : String) → codes (s <> t) ≡ codes s ++ codes t
codes-append String.[] t = rw (nil-append t)
codes-append (String.◌∷◌ c s) t = rw (cons-append c s t, codes-append s t)

pub str_eq_refl : (s : String) → (s == s) ≡ true
str_eq_refl s = (eq_iff s s).1 refl

pub str_eq_ne : (s t : String) → s ≢ t → (s == t) ≡ false
str_eq_ne s t h = ground (arith, eq_iff s t)

-- The code point at an index, 0 past the end.
abbrev code_at : ℕ → List ℕ → ℕ
code_at n [] = 0
code_at zero (c ∷ cs) = c
code_at (suc n) (c ∷ cs) = code_at n cs

-- Texts whose beginnings differ at some index differ.
differ_at :
    (n : ℕ) (s t x y : String)
    → code_at n (codes s ++ codes x) ≢ code_at n (codes t ++ codes y)
    → (s <> x) ≢ (t <> y)
differ_at n s t x y h e =
    h (ap (code_at n) (sym (codes-append s x) ∙ ap codes e ∙ codes-append t y))

pub heads-ne-tags : (x y : String) → ("refs/heads/" <> x) ≢ ("refs/tags/" <> y)
heads-ne-tags x y = differ_at 5 "refs/heads/" "refs/tags/" x y (omega arith)

pub head-ne-heads : (x : String) → "HEAD" ≢ ("refs/heads/" <> x)
head-ne-heads x = differ_at 0 "HEAD" "refs/heads/" "" x (omega arith)

pub head-ne-tags : (x : String) → "HEAD" ≢ ("refs/tags/" <> x)
head-ne-tags x = differ_at 0 "HEAD" "refs/tags/" "" x (omega arith)

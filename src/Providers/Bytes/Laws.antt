-- ===== src/Providers/Bytes/Laws.antt =====
-- The form of the UUIDs of newUUID (pkg/provider/github/webhook.go).
use Prim.Native.Char.{Char, code}
use Prim.Native.String as Text
use Prim.Native.String.{String}
use git_simulator.Base.{
  ℕ, zero, suc, ◌/◌, ◌%◌, ◌<◌, ◌<>◌, ◌≡◌, refl, sym, ◌∙◌, Bool, true, false, ◌&&◌, ◌||◌, List, [],
  ◌∷◌, Bool-cases, inl, inr, All, nat_eq, length, ap, leb, ltb, arith,
}
use text.Mathlib.TextLemmas.{append-nil, append_assoc, cons-append, nil-append}
use git_simulator.Core.Provider.{Bytes, Noise}
use git_simulator.Providers.Bytes.{hex_digits, digit_at, hex_digit, hex, version, variant, new_uuid}

abbrev is_hex : ℕ → Bool
is_hex c = (leb b'0' c && leb c b'9') || (leb b'a' c && leb c b'f')

-- One character of a form: x for a hexadecimal digit, y for 8, 9, a or b, any other for itself.
abbrev fits : ℕ → ℕ → Bool
fits f c =
    (nat_eq f b'x' && is_hex c)
    || (nat_eq f b'y' && (nat_eq c b'8' || nat_eq c b'9' || nat_eq c b'a' || nat_eq c b'b'))
    || (nat_eq f c && (nat_eq f b'-' || nat_eq f b'4'))

unfoldable pub has_form : String → String → Bool
has_form Text.[] Text.[] = true
has_form Text.[] (Text.◌∷◌ c s) = false
has_form (Text.◌∷◌ f form) Text.[] = false
has_form (Text.◌∷◌ f form) (Text.◌∷◌ c s) = fits (code f) (code c) && has_form form s

-- A text that takes the place of one character x, and of one character y, of a form.
abbrev FillsX : String → Type 0
FillsX d = (form rest : String) → has_form ("x" <> form) (d <> rest) ≡ has_form form rest

abbrev FillsY : String → Type 0
FillsY d = (form rest : String) → has_form ("y" <> form) (d <> rest) ≡ has_form form rest

char-FillsX : (c : Char) → is_hex (code c) ≡ true → FillsX (Text.◌∷◌ c "")
unfolding has_form
char-FillsX c h form rest =
    rw (cons-append c "" rest, nil-append rest, cons-append "x" "" form, nil-append form, h)

char-FillsY : (c : Char) → fits b'y' (code c) ≡ true → FillsY (Text.◌∷◌ c "")
unfolding has_form
char-FillsY c h form rest =
    rw (cons-append c "" rest, nil-append rest, cons-append "y" "" form, nil-append form, h)

hex_digits-All : All FillsX hex_digits
hex_digits-All = (
  char-FillsX "0" refl,
  (
    char-FillsX "1" refl,
    (
      char-FillsX "2" refl,
      (
        char-FillsX "3" refl,
        (
          char-FillsX "4" refl,
          (
            char-FillsX "5" refl,
            (
              char-FillsX "6" refl,
              (
                char-FillsX "7" refl,
                (
                  char-FillsX "8" refl,
                  (
                    char-FillsX "9" refl,
                    (
                      char-FillsX "a" refl,
                      (
                        char-FillsX "b" refl,
                        (
                          char-FillsX "c" refl,
                          (
                            char-FillsX "d" refl,
                            (char-FillsX "e" refl, (char-FillsX "f" refl, tt)),
                          ),
                        ),
                      ),
                    ),
                  ),
                ),
              ),
            ),
          ),
        ),
      ),
    ),
  ),
)

digit_at-FillsX : (ds : List String) (n : ℕ) → All FillsX ds → FillsX (digit_at ds n)
digit_at-FillsX [] n a = char-FillsX "0" refl
digit_at-FillsX (d ∷ ds) zero a = a.0
digit_at-FillsX (d ∷ ds) (suc n) a = digit_at-FillsX ds n a.1

hex_digit-FillsX : (n : ℕ) → FillsX (hex_digit n)
unfolding hex_digit
hex_digit-FillsX n = digit_at-FillsX hex_digits n hex_digits-All

-- A test of every number below a bound.
abbrev all_below : ℕ → (ℕ → Bool) → Bool
all_below zero f = true
all_below (suc n) f = let rest = all_below n f in f n && rest

all_below-at : (n i : ℕ) (f : ℕ → Bool) → all_below n f ≡ true → i < n → f i ≡ true
all_below-at zero i f h l = absurd (omega (arith, l))
all_below-at (suc n) i f h l = elim (Bool-cases (nat_eq n i)) [
  | inl e ↦ ground arith
  | inr e ↦ all_below-at n i f (ground arith) (ground arith)
]

-- What the bits of a byte come to.
version-high : (b : ℕ) → b < 256 → version b / 16 ≡ 4
version-high b l = ground (arith, all_below-at 256 b (λ n. nat_eq (version n / 16) 4) refl l)

variant-high : (b : ℕ) → b < 256 → (leb 8 (variant b / 16) && ltb (variant b / 16) 12) ≡ true
variant-high b l =
    all_below-at 256 b (λ n. leb 8 (variant n / 16) && ltb (variant n / 16) 12) refl l

digit-FillsY : (n : ℕ) → (leb 8 n && ltb n 12) ≡ true → FillsY (hex_digit n)
unfolding hex_digit
digit-FillsY (suc (suc (suc (suc (suc (suc (suc (suc zero)))))))) h = char-FillsY "8" refl
digit-FillsY (suc (suc (suc (suc (suc (suc (suc (suc (suc zero))))))))) h = char-FillsY "9" refl
digit-FillsY (suc (suc (suc (suc (suc (suc (suc (suc (suc (suc zero)))))))))) h =
    char-FillsY "a" refl
digit-FillsY (suc (suc (suc (suc (suc (suc (suc (suc (suc (suc (suc zero))))))))))) h =
    char-FillsY "b" refl
digit-FillsY n h = absurd (ground (arith, h))

-- The forms of bytes in hexadecimal.
abbrev pub xs : ℕ → String → String
xs zero form = form
xs (suc n) form = "x" <> "x" <> xs n form

hex-form :
    (bs : Bytes) (form rest : String)
    → has_form (xs (length bs) form) (hex bs <> rest) ≡ has_form form rest
unfolding hex
hex-form [] form rest = rw (nil-append rest)
hex-form (b ∷ bs) form rest =
    let high = hex_digit (b / 16) in
    let low = hex_digit (b % 16) in
    ap (has_form (xs (suc (length bs)) form)) (
      append_assoc high (low <> hex bs) rest ∙ ap (λ t. high <> t) (append_assoc low (hex bs) rest))
    ∙ hex_digit-FillsX (b / 16) ("x" <> xs (length bs) form) (low <> (hex bs <> rest))
    ∙ hex_digit-FillsX (b % 16) (xs (length bs) form) (hex bs <> rest)
    ∙ hex-form bs form rest

mark-form : (form rest : String) → has_form ("-" <> form) ("-" <> rest) ≡ has_form form rest
unfolding has_form
mark-form form rest =
    rw (cons-append "-" "" rest, nil-append rest, cons-append "-" "" form, nil-append form)

four-form : (form rest : String) → has_form ("4" <> form) ("4" <> rest) ≡ has_form form rest
unfolding has_form
four-form form rest =
    rw (cons-append "4" "" rest, nil-append rest, cons-append "4" "" form, nil-append form)

-- A group of bytes with the mark after it.
group-form :
    (bs : Bytes) (form rest : String)
    → has_form (xs (length bs) ("-" <> form)) (hex bs <> "-" <> rest) ≡ has_form form rest
group-form bs form rest = hex-form bs ("-" <> form) ("-" <> rest) ∙ mark-form form rest

-- A group of two bytes whose first digit has a place of its own in the form.
special-form :
    (f : String) (b c : ℕ) (form rest : String)
    → ((form' rest' : String)
        → has_form (f <> form') (hex_digit (b / 16) <> rest') ≡ has_form form' rest')
    → has_form (f <> "x" <> xs 1 ("-" <> form)) (hex (b ∷ c ∷ []) <> "-" <> rest)
      ≡ has_form form rest
unfolding hex
special-form f b c form rest first =
    let high = hex_digit (b / 16) in
    let low = hex_digit (b % 16) in
    let more = hex (c ∷ []) in
    ap (has_form (f <> "x" <> xs 1 ("-" <> form))) (
      append_assoc high (low <> more) ("-" <> rest)
      ∙ ap (λ t. high <> t) (append_assoc low more ("-" <> rest)))
    ∙ first ("x" <> xs 1 ("-" <> form)) (low <> (more <> ("-" <> rest)))
    ∙ hex_digit-FillsX (b % 16) (xs 1 ("-" <> form)) (more <> ("-" <> rest))
    ∙ group-form (c ∷ []) form rest

version-form :
    (b : ℕ)
    → b < 256
    → (form rest : String)
    → has_form ("4" <> form) (hex_digit (version b / 16) <> rest) ≡ has_form form rest
unfolding hex_digit
version-form b l form rest =
    ap (λ n. has_form ("4" <> form) (hex_digit n <> rest)) (version-high b l) ∙ four-form form rest

-- Whatever bytes rand.Read returns, newUUID makes a text of the form of a version-4 UUID: hexadecimal
-- digits in groups of 8, 4, 4, 4 and 12, the third of which begins with 4, the fourth with 8, 9, a or b.
pub new_uuid-has_form :
    (noise : Noise) → has_form "xxxxxxxx-xxxx-4xxx-yxxx-xxxxxxxxxxxx" (new_uuid noise) ≡ true
unfolding new_uuid has_form
new_uuid-has_form noise =
    let b : ℕ → ℕ = λ n. noise n % 256 in
    let below : (n : ℕ) → b n < 256 = λ n. omega arith in
    let last = hex (b 10 ∷ b 11 ∷ b 12 ∷ b 13 ∷ b 14 ∷ b 15 ∷ []) in
    let fourth = hex (variant (b 8) ∷ b 9 ∷ []) <> "-" <> last in
    let third = hex (version (b 6) ∷ b 7 ∷ []) <> "-" <> fourth in
    let second = hex (b 4 ∷ b 5 ∷ []) <> "-" <> third in
    group-form (b 0 ∷ b 1 ∷ b 2 ∷ b 3 ∷ []) "xxxx-4xxx-yxxx-xxxxxxxxxxxx" second
    ∙ group-form (b 4 ∷ b 5 ∷ []) "4xxx-yxxx-xxxxxxxxxxxx" third
    ∙ special-form "4" (version (b 6)) (b 7) "yxxx-xxxxxxxxxxxx" fourth
        (version-form (b 6) (below 6))
    ∙ special-form "y" (variant (b 8)) (b 9) "xxxxxxxxxxxx" last
        (digit-FillsY (variant (b 8) / 16) (variant-high (b 8) (below 8)))
    ∙ ap (has_form "xxxxxxxxxxxx") (sym (append-nil last))
    ∙ hex-form (b 10 ∷ b 11 ∷ b 12 ∷ b 13 ∷ b 14 ∷ b 15 ∷ []) "" ""

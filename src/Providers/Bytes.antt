-- ===== src/Providers/Bytes.antt =====
-- The bytes and texts that the providers make: []byte of a string, the verb %x of package fmt (also
-- hex.EncodeToString), and newUUID of pkg/provider/github/webhook.go and azuredevops/util.go.
pub mod Laws
use Prim.Native.Nat.{bit_and, bit_or}
use git_simulator.Base.{
  ℕ, zero, suc, ◌+◌, ◌*◌, ◌/◌, ◌%◌, ◌^◌, String, ◌<>◌, List, [], ◌∷◌, ◌++◌, if◌then◌else◌, codes,
  ltb,
}
use git_simulator.Core.Provider.{Bytes, Noise}

-- The code point in UTF-8.
utf8_code : ℕ → Bytes
utf8_code c =
    let last = 128 + c % 64 in
    let middle = 128 + c / 64 % 64 in
    let two = (192 + c / 64) ∷ last ∷ [] in
    let three = (224 + c / 4096) ∷ middle ∷ last ∷ [] in
    let four = (240 + c / 262144) ∷ (128 + c / 4096 % 64) ∷ middle ∷ last ∷ [] in
    if ltb c 128 then c ∷ [] else if ltb c 2048 then two else if ltb c 65536 then three else four

utf8_codes : List ℕ → Bytes
unfolding utf8_code
utf8_codes [] = []
utf8_codes (c ∷ cs) = utf8_code c ++ utf8_codes cs

-- []byte(s)
unfoldable pub utf8 : String → Bytes
unfolding utf8_codes
utf8 s = utf8_codes (codes s)

abbrev pub hex_digits : List String
hex_digits =
    "0" ∷ "1" ∷ "2" ∷ "3" ∷ "4" ∷ "5" ∷ "6" ∷ "7" ∷ "8" ∷ "9" ∷ "a" ∷ "b" ∷ "c" ∷ "d" ∷ "e" ∷ "f"
    ∷ []

abbrev pub digit_at : List String → ℕ → String
digit_at [] n = "0"
digit_at (d ∷ ds) zero = d
digit_at (d ∷ ds) (suc n) = digit_at ds n

-- One digit, for a number below 16.
unfoldable pub hex_digit : ℕ → String
hex_digit n = digit_at hex_digits n

-- fmt.Sprintf("%x", bytes)
unfoldable pub hex : Bytes → String
unfolding hex_digit
hex [] = ""
hex (b ∷ bs) = hex_digit (b / 16) <> hex_digit (b % 16) <> hex bs

-- The 16 random bytes with the bits of the version and of the variant.
abbrev version : ℕ → ℕ
version b = bit_or (bit_and b 15) 64

abbrev variant : ℕ → ℕ
variant b = bit_or (bit_and b 63) 128

-- newUUID(), for the bytes that rand.Read returns
unfoldable pub new_uuid : Noise → String
unfolding hex
new_uuid noise =
    let b : ℕ → ℕ = λ n. noise n % 256 in
    hex (b 0 ∷ b 1 ∷ b 2 ∷ b 3 ∷ [])
    <> "-"
    <> hex (b 4 ∷ b 5 ∷ [])
    <> "-"
    <> hex (version (b 6) ∷ b 7 ∷ [])
    <> "-"
    <> hex (variant (b 8) ∷ b 9 ∷ [])
    <> "-"
    <> hex (b 10 ∷ b 11 ∷ b 12 ∷ b 13 ∷ b 14 ∷ b 15 ∷ [])

-- ===== src/Command/Laws.antt =====
-- splitTrimmed of cmd/gitsim/main.go.
use Prim.Native.Char.{code}
use Prim.Native.String as Text
use text.Mathlib.TextLemmas.{append_assoc, cons-append, nil-append}
use git_simulator.Base.{
  String, ◌==◌, ◌<>◌, ◌≡◌, refl, ap, ◌∙◌, Bool, Bool-cases, true, false, if◌then◌else◌, List, [],
  ◌∷◌, All, nat_eq, inl, inr,
}
use git_simulator.Command.{trim_space, grow, split, trimmed, split_trimmed}

abbrev has_comma : String → Bool
has_comma Text.[] = false
has_comma (Text.◌∷◌ c s) = let rest = has_comma s in if nat_eq (code c) b',' then true else rest

-- A name without a comma, and without spaces at its ends.
abbrev pub Clean : String → Type 0
Clean n = (has_comma n ≡ false) × (trim_space n ≡ n) × ((n == "") ≡ false)

-- strings.Join(names, ", ")
abbrev pub joined : String → List String → String
joined n [] = n
joined n (m ∷ ms) = n <> ", " <> joined m ms

split-part : (n s : String) → has_comma n ≡ false → split (n <> "," <> s) ≡ n ∷ split s
unfolding split
split-part Text.[] s h = rw (nil-append ("," <> s), cons-append "," "" s, nil-append s)
split-part (Text.◌∷◌ c n) s h = elim (Bool-cases (nat_eq (code c) b',')) [
  | inl e ↦ let h' = rw e at h in cc
  | inr e ↦
      let h' = rw e at h in rw (cons-append c n ("," <> s), e) (ap (grow c) (split-part n s h'))
]

split-whole : (n : String) → has_comma n ≡ false → split n ≡ n ∷ []
unfolding split
split-whole Text.[] h = refl
split-whole (Text.◌∷◌ c n) h = elim (Bool-cases (nat_eq (code c) b',')) [
  | inl e ↦ let h' = rw e at h in cc
  | inr e ↦ let h' = rw e at h in rw e (ap (grow c) (split-whole n h'))
]

-- A space in front of the first part is trimmed off.
trimmed-grow : (parts : List String) → trimmed (grow " " parts) ≡ trimmed parts
unfolding trimmed trim_space
trimmed-grow [] = refl
trimmed-grow (part ∷ parts) = refl

trimmed-part :
    (n : String) (parts : List String) → Clean n → trimmed (n ∷ parts) ≡ n ∷ trimmed parts
unfolding trimmed
trimmed-part n parts (comma, spaces, ne) = rw (spaces, ne)

split_space : (s : String) → split (" " <> s) ≡ grow " " (split s)
unfolding split
split_space s = rw (cons-append " " "" s, nil-append s)

-- A list of names, each without a comma and without spaces at its ends, is read back from its names
-- joined by commas and spaces.
pub split_trimmed-joined :
    (n : String) (ns : List String) → Clean n → All Clean ns → split_trimmed (joined n ns) ≡ n ∷ ns
unfolding split_trimmed
split_trimmed-joined n [] c cs = ap trimmed (split-whole n c.0) ∙ trimmed-part n [] c
split_trimmed-joined n (m ∷ ms) c cs =
    ap (λ t. split_trimmed (n <> t)) (append_assoc "," " " (joined m ms))
    ∙ ap trimmed (split-part n (" " <> joined m ms) c.0)
    ∙ trimmed-part n (split (" " <> joined m ms)) c
    ∙ ap (λ xs. n ∷ xs)
        (ap trimmed (split_space (joined m ms))
          ∙ trimmed-grow (split (joined m ms))
          ∙ split_trimmed-joined m ms cs.0 cs.1)

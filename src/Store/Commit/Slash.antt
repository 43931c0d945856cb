-- ===== src/Store/Commit/Slash.antt =====
-- strings.Index(path, "/"): where buildTree and the parsing of request paths cut a path.
use Prim.Native.Char.{code}
use Prim.Native.String as Text
use text.Mathlib.TextEquality.{Char-path}
use text.Mathlib.TextLemmas.{nil-append, cons-append}
use git_simulator.Base.{
  ℕ, String, Bool-cases, true, false, nat_eq, ◌<>◌, Option-cases, some, ◌≡◌, refl, sym, ◌∙◌, ap,
  arith, inl, inr, some_inj, subst,
}
use git_simulator.Store.Commit.{cut_slash}

-- No character of the text has this code point.
abbrev pub Free : ℕ → String → Type 0
Free n Text.[] = Unit {0}
Free n (Text.◌∷◌ c s) = (nat_eq (code c) n ≡ false) × Free n s

pub cut_slash-append :
    (owner name : String)
    → Free b'/' owner
    → cut_slash (owner <> Text.◌∷◌ "/" name) ≡ some (owner, name)
unfolding cut_slash
cut_slash-append Text.[] name f = rw (nil-append (Text.◌∷◌ "/" name)) refl
cut_slash-append (Text.◌∷◌ c owner) name f =
    rw (cons-append c owner (Text.◌∷◌ "/" name), f.0, cut_slash-append owner name f.1) refl

nat_eq-true : (m n : ℕ) → nat_eq m n ≡ true → m ≡ n
nat_eq-true m n h = ground arith

-- The path is the two slices that strings.Index makes of it, with the slash between them.
pub cut_slash-joined :
    (path d rest : String) → cut_slash path ≡ some (d, rest) → path ≡ d <> Text.◌∷◌ "/" rest
unfolding cut_slash
cut_slash-joined Text.[] d rest h = cc
cut_slash-joined (Text.◌∷◌ c s) d rest h = elim (Bool-cases (nat_eq (code c) b'/')) [
  | inl e ↦
      let h' = some_inj (rw e at h) in
      let slash : c ≡ "/" = Char-path c "/" (nat_eq-true (code c) b'/' e) in
      ap (λ x. Text.◌∷◌ x s) slash
      ∙ sym (nil-append (Text.◌∷◌ "/" s))
      ∙ ap (λ q. q.0 <> Text.◌∷◌ "/" q.1) h'
  | inr e ↦
      let h' = rw e at h in
      elim (Option-cases (cut_slash s)) [
        | inl p ↦ let h'' = rw p at h' in cc
        | inr ((d', rest'), p) ↦
            ap (Text.◌∷◌ c) (cut_slash-joined s d' rest' p)
            ∙ sym (cons-append c d' (Text.◌∷◌ "/" rest'))
            ∙ ap (λ q. q.0 <> Text.◌∷◌ "/" q.1) (some_inj (rw p at h'))
      ]
]

-- The first slice has no slash.
pub cut_slash-Free : (path d rest : String) → cut_slash path ≡ some (d, rest) → Free b'/' d
unfolding cut_slash
cut_slash-Free Text.[] d rest h = absurd (cc)
cut_slash-Free (Text.◌∷◌ c s) d rest h = elim (Bool-cases (nat_eq (code c) b'/')) [
  | inl e ↦ subst (Free b'/') (ap (λ q. q.0) (some_inj (rw e at h))) tt
  | inr e ↦
      let h' = rw e at h in
      elim (Option-cases (cut_slash s)) [
        | inl p ↦ let h'' = rw p at h' in absurd (cc)
        | inr ((d', rest'), p) ↦
            subst (Free b'/') (ap (λ q. q.0) (some_inj (rw p at h')))
              (e, cut_slash-Free s d' rest' p)
      ]
]

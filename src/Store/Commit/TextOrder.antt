-- ===== src/Store/Commit/TextOrder.antt =====
-- The order of Go strings, by which buildTree sorts: a strict total order.
use Prim.Native.Char.{code}
use Prim.Native.Nat.{Ordering}
use Prim.Native.Nat.{compare as compare_ℕ}
use Prim.Native.String as Text
use Prim.Native.String.{String, compare, then}
use Prim.Native.String.compare
use text.Mathlib.TextEquality.{path_by_compare}
use git_simulator.Base.{ℕ, true, false, ◌≡◌, ◌≢◌, ◌⊎◌, inl, inr, refl, sym, ◌∙◌, arith, Bool-cases}
use git_simulator.Store.Commit.{str_lt}

then-lt :
    (o r : Ordering)
    → then o r ≡ Ordering.lt
    → (o ≡ Ordering.lt) ⊎ ((o ≡ Ordering.eq) × (r ≡ Ordering.lt))
then-lt Ordering.lt r h = inl refl
then-lt Ordering.eq r h = inr (refl, h)
then-lt Ordering.gt r h = absurd (cc)

compare_gt_of_lt : (m n : ℕ) → compare_ℕ m n ≡ Ordering.lt → compare_ℕ n m ≡ Ordering.gt
compare_gt_of_lt m n h = ground arith

compare_eq_of_eq : (m n : ℕ) → compare_ℕ m n ≡ Ordering.eq → compare_ℕ n m ≡ Ordering.eq
compare_eq_of_eq m n h = ground arith

compare-asym : (s t : String) → compare s t ≡ Ordering.lt → compare t s ≡ Ordering.gt
compare-asym Text.[] Text.[] h = let same = compare.nil-nil in absurd (cc)
compare-asym Text.[] (Text.◌∷◌ d t) h = compare.cons-nil d t
compare-asym (Text.◌∷◌ c s) Text.[] h = let other = compare.cons-nil c s in absurd (cc)
compare-asym (Text.◌∷◌ c s) (Text.◌∷◌ d t) h =
    elim (then-lt (compare_ℕ (code c) (code d)) (compare s t)
      (sym (compare.cons-cons c d s t) ∙ h)) [
        | inl e ↦ compare.cons-cons d c t s ∙ (rw (compare_gt_of_lt (code c) (code d) e) refl)
        | inr (e, e') ↦
            compare.cons-cons d c t s
            ∙ (rw (compare_eq_of_eq (code c) (code d) e, compare-asym s t e') refl)
      ]

str_lt→compare : (s t : String) → str_lt s t ≡ true → compare s t ≡ Ordering.lt
str_lt→compare s t h = ground arith

pub str_lt-asym : (s t : String) → str_lt s t ≡ true → str_lt t s ≡ false
str_lt-asym s t h = rw (compare-asym s t (str_lt→compare s t h), str_lt) refl

then-gt :
    (o r : Ordering)
    → then o r ≡ Ordering.gt
    → (o ≡ Ordering.gt) ⊎ ((o ≡ Ordering.eq) × (r ≡ Ordering.gt))
then-gt Ordering.lt r h = absurd (cc)
then-gt Ordering.eq r h = inr (refl, h)
then-gt Ordering.gt r h = inl refl

compare_lt_of_gt : (m n : ℕ) → compare_ℕ m n ≡ Ordering.gt → compare_ℕ n m ≡ Ordering.lt
compare_lt_of_gt m n h = ground arith

compare_trans :
    (l m n : ℕ)
    → compare_ℕ l m ≡ Ordering.lt
    → compare_ℕ m n ≡ Ordering.lt
    → compare_ℕ l n ≡ Ordering.lt
compare_trans l m n h k = ground arith

compare_lt_eq :
    (l m n : ℕ)
    → compare_ℕ l m ≡ Ordering.lt
    → compare_ℕ m n ≡ Ordering.eq
    → compare_ℕ l n ≡ Ordering.lt
compare_lt_eq l m n h k = ground arith

compare_eq_of :
    (l m n : ℕ) (o : Ordering) → compare_ℕ l m ≡ Ordering.eq → compare_ℕ m n ≡ o → compare_ℕ l n ≡ o
compare_eq_of l m n o h k = ground arith

compare_strings_back : (s t : String) → compare s t ≡ Ordering.gt → compare t s ≡ Ordering.lt
compare_strings_back Text.[] Text.[] h = let same = compare.nil-nil in absurd (cc)
compare_strings_back Text.[] (Text.◌∷◌ d t) h = let other = compare.nil-cons d t in absurd (cc)
compare_strings_back (Text.◌∷◌ c s) Text.[] h = compare.nil-cons c s
compare_strings_back (Text.◌∷◌ c s) (Text.◌∷◌ d t) h =
    elim (then-gt (compare_ℕ (code c) (code d)) (compare s t)
      (sym (compare.cons-cons c d s t) ∙ h)) [
        | inl e ↦ compare.cons-cons d c t s ∙ (rw (compare_lt_of_gt (code c) (code d) e) refl)
        | inr (e, e') ↦
            compare.cons-cons d c t s
            ∙ (rw (compare_eq_of_eq (code c) (code d) e, compare_strings_back s t e') refl)
      ]

compare_strings_trans :
    (s t u : String)
    → compare s t ≡ Ordering.lt
    → compare t u ≡ Ordering.lt
    → compare s u ≡ Ordering.lt
compare_strings_trans Text.[] Text.[] u h k = let same = compare.nil-nil in absurd (cc)
compare_strings_trans (Text.◌∷◌ c s) Text.[] u h k = let other = compare.cons-nil c s in absurd (cc)
compare_strings_trans s (Text.◌∷◌ d t) Text.[] h k = let other = compare.cons-nil d t in absurd (cc)
compare_strings_trans Text.[] (Text.◌∷◌ d t) (Text.◌∷◌ f u) h k = compare.nil-cons f u
compare_strings_trans (Text.◌∷◌ c s) (Text.◌∷◌ d t) (Text.◌∷◌ f u) h k =
    compare.cons-cons c f s u
    ∙ (elim (then-lt (compare_ℕ (code c) (code d)) (compare s t)
        (sym (compare.cons-cons c d s t) ∙ h)) [
          | inl e ↦
              elim (then-lt (compare_ℕ (code d) (code f)) (compare t u)
                (sym (compare.cons-cons d f t u) ∙ k)) [
                  | inl i ↦ rw (compare_trans (code c) (code d) (code f) e i) refl
                  | inr (i, i') ↦ rw (compare_lt_eq (code c) (code d) (code f) e i) refl
                ]
          | inr (e, e') ↦
              elim (then-lt (compare_ℕ (code d) (code f)) (compare t u)
                (sym (compare.cons-cons d f t u) ∙ k)) [
                  | inl i ↦ rw (compare_eq_of (code c) (code d) (code f) _ e i) refl
                  | inr (i, i') ↦
                      rw
                        (
                          compare_eq_of (code c) (code d) (code f) _ e i,
                          compare_strings_trans s t u e' i',
                        )
                        refl
                ]
        ])

compare→str_lt : (s t : String) → compare s t ≡ Ordering.lt → str_lt s t ≡ true
compare→str_lt s t h = rw (h, str_lt) refl

pub str_lt_trans : (s t u : String) → str_lt s t ≡ true → str_lt t u ≡ true → str_lt s u ≡ true
str_lt_trans s t u h k =
    compare→str_lt s u (compare_strings_trans s t u (str_lt→compare s t h) (str_lt→compare t u k))

pub str_lt-total : (s t : String) → str_lt s t ≡ false → s ≢ t → str_lt t s ≡ true
str_lt-total s t h ne = decided (compare s t) refl
  where
    decided : (o : Ordering) → compare s t ≡ o → str_lt t s ≡ true
    decided Ordering.lt e = let less = compare→str_lt s t e in absurd (cc)
    decided Ordering.eq e = absurd (ne (path_by_compare s t e))
    decided Ordering.gt e = compare→str_lt t s (compare_strings_back s t e)

pub str_lt_irrefl : (s : String) → str_lt s s ≡ false
str_lt_irrefl s = elim (Bool-cases (str_lt s s)) [ inl e ↦ str_lt-asym s s e | inr e ↦ e ]

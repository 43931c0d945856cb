-- ===== src/Scenario/Order/Swaps.antt =====
-- The swaps of resolveOrder: what one does, and that those of "desc" turn a list round.
use git_simulator.Base.{
  ℕ, zero, suc, ◌+◌, ◌-◌, ◌<◌, ◌≤◌, Bool-cases, ltb, ltb→lt, ℤ, some, some_inj, List, length,
  get_elem?, set, ◌≡◌, ◌≢◌, refl, sym, ◌∙◌, ap, subst, arith, get_elem?-set_self, get_elem?-set_ne,
  get_elem?-below, length-set, ℕ-cases, inl, inr, ◌⊎◌,
}
use git_simulator.Scenario.Order.{swap, swap_ends}

module _ (i j : ℕ) (xs : List ℤ) (x y : ℤ) (at_i : get_elem? xs i ≡ some x)
    (at_j : get_elem? xs j ≡ some y) where
  pub length-swap : length (swap i j xs) ≡ length xs
  unfolding swap
  length-swap = rw (at_i, at_j) (length-set (set xs i y) j x ∙ length-set xs i y)

  pub swap-second : get_elem? (swap i j xs) j ≡ some x
  unfolding swap
  swap-second =
      rw (at_i, at_j)
        (elim (ℕ-cases i j) [
          | inl p ↦ get_elem?-set_self (set xs i y) j x y (
              subst (λ k. get_elem? (set xs k y) j ≡ some y) (sym p)
                (get_elem?-set_self xs j y y at_j))
          | inr p ↦ get_elem?-set_self (set xs i y) j x y (get_elem?-set_ne xs i j y p ∙ at_j)
        ])

  pub swap-first : get_elem? (swap i j xs) i ≡ some y
  unfolding swap
  swap-first =
      rw (at_i, at_j)
        (elim (ℕ-cases j i) [
          | inl p ↦
              let same : x ≡ y =
                some_inj (sym at_i ∙ subst (λ k. get_elem? xs k ≡ some y) p at_j) in
              subst (λ k. get_elem? (set (set xs i y) k x) i ≡ some y) (sym p)
                (get_elem?-set_self (set xs i y) i x y (get_elem?-set_self xs i y x at_i)
                  ∙ ap some same)
          | inr p ↦ get_elem?-set_ne (set xs i y) j i x p ∙ get_elem?-set_self xs i y x at_i
        ])

  pub swap-other : (k : ℕ) → i ≢ k → j ≢ k → get_elem? (swap i j xs) k ≡ get_elem? xs k
  unfolding swap
  swap-other k p q =
      rw (at_i, at_j) (get_elem?-set_ne (set xs i y) j k x q ∙ get_elem?-set_ne xs i k y p)

-- Between i and j the entries of xs stand in ys the other way round, and outside as they were.
pub record Reversed (i j : ℕ) (xs ys : List ℤ) : Type 0 where
  pub inside : (k : ℕ) → i ≤ k → k ≤ j → get_elem? ys k ≡ get_elem? xs (i + j - k)
  pub outside : (k : ℕ) → (k < i) ⊎ (j < k) → get_elem? ys k ≡ get_elem? xs k

Reversed-few : (i j : ℕ) (xs : List ℤ) → j ≤ i → Reversed i j xs xs
Reversed-few i j xs h = record {
  inside = λ k l m. ap (get_elem? xs) (omega arith);
  outside = λ k l. refl;
}

mirrored : (i j k : ℕ) → i < j → suc i + (j - 1) - k ≡ i + j - k
mirrored i j k h = omega arith

Reversed-swap :
    (i j : ℕ) (xs ys : List ℤ)
    → i < j
    → j < length xs
    → Reversed (suc i) (j - 1) (swap i j xs) ys
    → Reversed i j xs ys
Reversed-swap i j xs ys less h r =
    let (x, at_i) = get_elem?-below xs i (omega arith) in
    let (y, at_j) = get_elem?-below xs j h in
    record {
      inside = λ k l m. elim (ℕ-cases i k) [
        | inl p ↦
            r.outside k (inl (omega arith))
            ∙ subst (λ a. get_elem? (swap i j xs) a ≡ some y) p (swap-first i j xs x y at_i at_j)
            ∙ sym at_j
            ∙ ap (get_elem? xs) (omega arith)
        | inr p ↦ elim (ℕ-cases j k) [
          | inl q ↦
              r.outside k (inr (omega arith))
              ∙ subst (λ a. get_elem? (swap i j xs) a ≡ some x) q (swap-second i j xs x y at_i at_j)
              ∙ sym at_i
              ∙ ap (get_elem? xs) (omega arith)
          | inr q ↦
              r.inside k (omega arith) (omega arith)
              ∙ ap (get_elem? (swap i j xs)) (mirrored i j k less)
              ∙ swap-other i j xs x y at_i at_j (i + j - k) (λ e. p (omega arith))
                  (λ e. q (omega arith))
        ]
      ];
      outside = λ k l.
          r.outside k (omega arith)
          ∙ swap-other i j xs x y at_i at_j k (λ e. omega arith) (λ e. omega arith);
    }

pub swap_ends-Reversed :
    (fuel i j : ℕ) (xs : List ℤ)
    → j ≤ i + fuel
    → j < length xs
    → Reversed i j xs (swap_ends fuel i j xs)
unfolding swap_ends
swap_ends-Reversed zero i j xs f h = Reversed-few i j xs (omega arith)
swap_ends-Reversed (suc fuel) i j xs f h = elim (Bool-cases (ltb i j)) [
  | inl b ↦ rw b (
      let less = ltb→lt i j b in
      let (x, at_i) = get_elem?-below xs i (omega arith) in
      let (y, at_j) = get_elem?-below xs j h in
      let long = length-swap i j xs x y at_i at_j in
      Reversed-swap i j xs _ less h
        (swap_ends-Reversed fuel (suc i) (j - 1) (swap i j xs) (omega arith) (omega arith)))
  | inr b ↦ rw b (Reversed-few i j xs (ground arith))
]

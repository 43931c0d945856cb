-- ===== src/Scenario/Order/Laws.antt =====
-- resolveOrder: every order but a custom one names each commit, and newest-first is newest-first.
use git_simulator.Base.{
  ℕ, zero, suc, ◌+◌, ◌-◌, ◌<◌, ◌≤◌, String, ◌==◌, Bool-cases, ltb, ltb→lt, nat_eq, ℤ, pos, some,
  List, [], ◌∷◌, length, get_elem?, ◌≡◌, ◌≢◌, refl, sym, ◌∙◌, ap, subst, arith, get_elem?-below,
  ℕ-cases, inl, inr, ◌⊎◌, All, eq_iff, false,
}
use git_simulator.Scenario.Order.Swaps.{
  length-swap, swap-second, swap-first, swap-other, swap_ends-Reversed,
}
use git_simulator.Scenario.Order.{indices_from, swap, swap_ends, swap_all, resolve_order}

-- A list that has `n` entries and each index below `n`: each of them, then, exactly once.
pub record IsOrder (n : ℕ) (xs : List ℤ) : Type 0 where
  pub long : length xs ≡ n
  pub covers : (i : ℕ) → i < n → (k : ℕ) × (get_elem? xs k ≡ some (pos i))

length-indices_from : (i n : ℕ) → length (indices_from i n) ≡ n
length-indices_from i zero = refl
length-indices_from i (suc n) = ap suc (length-indices_from (suc i) n)

get_elem?-indices_from : (i n k : ℕ) → k < n → get_elem? (indices_from i n) k ≡ some (pos (i + k))
get_elem?-indices_from i zero k h = elim h [ ]
get_elem?-indices_from i (suc n) zero h = ap (λ m. some (pos m)) (omega arith)
get_elem?-indices_from i (suc n) (suc k) h =
    get_elem?-indices_from (suc i) n k (omega arith) ∙ ap (λ m. some (pos m)) (omega arith)

indices_from-IsOrder : (n : ℕ) → IsOrder n (indices_from 0 n)
indices_from-IsOrder n = record {
  long = length-indices_from 0 n;
  covers = λ i h. (i, get_elem?-indices_from 0 n i h ∙ ap (λ m. some (pos m)) (omega arith));
}

swap-IsOrder : (n i j : ℕ) (xs : List ℤ) → i < n → j < n → IsOrder n xs → IsOrder n (swap i j xs)
swap-IsOrder n i j xs hi hj o =
    let (x, at_i) = get_elem?-below xs i (subst (λ m. i < m) (sym o.long) hi) in
    let (y, at_j) = get_elem?-below xs j (subst (λ m. j < m) (sym o.long) hj) in
    record {
      long = length-swap i j xs x y at_i at_j ∙ o.long;
      covers = λ m h.
          let (k, at) = o.covers m h in
          elim (ℕ-cases i k) [
            | inl p ↦ (
              j,
              swap-second i j xs x y at_i at_j
                  ∙ sym at_i
                  ∙ subst (λ l. get_elem? xs l ≡ some (pos m)) (sym p) at,
            )
            | inr p ↦ elim (ℕ-cases j k) [
              | inl q ↦ (
                i,
                swap-first i j xs x y at_i at_j
                    ∙ sym at_j
                    ∙ subst (λ l. get_elem? xs l ≡ some (pos m)) (sym q) at,
              )
              | inr q ↦ (k, swap-other i j xs x y at_i at_j k p q ∙ at)
            ]
          ];
    }

-- rand.Shuffle(n, swap) calls swap with indices below n.
abbrev pub InRange : ℕ → List (ℕ × ℕ) → Type 0
InRange n ps = All (λ p. (p.0 < n) × (p.1 < n)) ps

swap_all-IsOrder :
    (n : ℕ) (ps : List (ℕ × ℕ)) (xs : List ℤ)
    → InRange n ps
    → IsOrder n xs
    → IsOrder n (swap_all ps xs)
unfolding swap_all
swap_all-IsOrder n [] xs r o = o
swap_all-IsOrder n ((i, j) ∷ ps) xs r o =
    swap_all-IsOrder n ps (swap i j xs) r.1 (swap-IsOrder n i j xs r.0.0 r.0.1 o)

swap_ends-IsOrder :
    (n fuel i j : ℕ) (xs : List ℤ) → j ≤ n - 1 → IsOrder n xs → IsOrder n (swap_ends fuel i j xs)
unfolding swap_ends
swap_ends-IsOrder n zero i j xs h o = o
swap_ends-IsOrder n (suc fuel) i j xs h o = elim (Bool-cases (ltb i j)) [
  | inl b ↦ rw b (
      let less = ltb→lt i j b in
      swap_ends-IsOrder n fuel (suc i) (j - 1) (swap i j xs) (omega arith)
        (swap-IsOrder n i j xs (omega arith) (omega arith) o))
  | inr b ↦ rw b o
]

reversed_ends :
    (n k : ℕ)
    → k < n
    → get_elem? (swap_ends n 0 (n - 1) (indices_from 0 n)) k ≡ some (pos (n - 1 - k))
reversed_ends n k h =
    let r =
      swap_ends-Reversed n 0 (n - 1) (indices_from 0 n) (omega arith)
        (omega (arith, length-indices_from 0 n)) in
    r.inside k (omega arith) (omega arith)
    ∙ get_elem?-indices_from 0 n (0 + (n - 1) - k) (omega arith)
    ∙ ap (λ m. some (pos m)) (omega arith)

-- What the order asked for says of the indices: a custom list as it is; or each of the n indices once,
-- the newest first, in any order, or the oldest first.
pub data Resolved (n : ℕ) (order : String) (custom xs : List ℤ) : Type 0 where
  as_given : order ≡ "custom" → length custom ≡ n → xs ≡ custom → Resolved n order custom xs
  newest_first :
      order ≡ "desc"
      → IsOrder n xs
      → ((k : ℕ) → k < n → get_elem? xs k ≡ some (pos (n - 1 - k)))
      → Resolved n order custom xs
  shuffled : order ≡ "shuffle" → IsOrder n xs → Resolved n order custom xs
  oldest_first :
      order ≢ "desc"
      → order ≢ "shuffle"
      → (order ≢ "custom") ⊎ (length custom ≢ n)
      → IsOrder n xs
      → ((k : ℕ) → k < n → get_elem? xs k ≡ some (pos k))
      → Resolved n order custom xs

indices_oldest_first : (n k : ℕ) → k < n → get_elem? (indices_from 0 n) k ≡ some (pos k)
indices_oldest_first n k h = get_elem?-indices_from 0 n k h ∙ ap (λ m. some (pos m)) (omega arith)

unequal : (s t : String) → (s == t) ≡ false → s ≢ t
unequal s t h e = let same = (eq_iff s t).1 e in cc

wrong_length : (m n : ℕ) → nat_eq m n ≡ false → m ≢ n
wrong_length m n h = ground arith

-- "custom" takes the given list if it has n entries, whatever they are, and only then. Every other
-- order names each of the n commits, for any calls of swap with indices below n: "desc" the newest
-- first, "shuffle" in some order, and any other, also a custom list of a wrong length, the oldest
-- first.
pub resolve_order-Resolved :
    (swaps : List (ℕ × ℕ)) (n : ℕ) (order : String) (custom : List ℤ)
    → InRange n swaps
    → Resolved n order custom (resolve_order swaps n order custom)
unfolding resolve_order
resolve_order-Resolved swaps n order custom r =
    let all = indices_from-IsOrder n in
    elim (Bool-cases (order == "desc")) [
      | inl d ↦ rw d (
          newest_first ((eq_iff order "desc").0 d)
            (swap_ends-IsOrder n n 0 (n - 1) _ (omega arith) all) (λ k h. reversed_ends n k h))
      | inr d ↦ elim (Bool-cases (order == "shuffle")) [
        | inl s ↦
            rw (d, s) (shuffled ((eq_iff order "shuffle").0 s) (swap_all-IsOrder n swaps _ r all))
        | inr s ↦
            let not_desc = unequal order "desc" d in
            let not_shuffle = unequal order "shuffle" s in
            elim (Bool-cases (order == "custom")) [
              | inl c ↦ elim (Bool-cases (nat_eq (length custom) n)) [
                | inl l ↦
                    rw (d, s, c, l) (as_given ((eq_iff order "custom").0 c) (ground arith) refl)
                | inr l ↦
                    rw (d, s, c, l)
                      (oldest_first not_desc not_shuffle (inr (wrong_length _ n l)) all
                        (indices_oldest_first n))
              ]
              | inr c ↦
                  rw (d, s, c)
                    (oldest_first not_desc not_shuffle (inl (unequal order "custom" c)) all
                      (indices_oldest_first n))
            ]
      ]
    ]

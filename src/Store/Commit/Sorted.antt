-- ===== src/Store/Commit/Sorted.antt =====
-- Sorting the entries of a tree: git's order, which the encoding of trees checks, and the same entries.
use git_simulator.Base.{false, ◌≡◌, ◌⊎◌, inl, inr, Bool-cases, List, [], ◌∷◌, Has, ◌↔◌}
use git_simulator.Store.Git.{TreeEntry}
use git_simulator.Store.Commit.TextOrder.{str_lt-asym}
use git_simulator.Store.Commit.{insert_entry, sort_entries, str_lt, sort_key}

module _ {Hash : Type 0} where
  -- No entry is before the one in front of it.
  abbrev pub InOrder : List (TreeEntry Hash) → Type 0
  InOrder [] = Unit {0}
  InOrder (x ∷ []) = Unit {0}
  InOrder (x ∷ y ∷ ys) = (str_lt (sort_key y) (sort_key x) ≡ false) × InOrder (y ∷ ys)

  -- An entry may stand before another list.
  abbrev Leads : TreeEntry Hash → List (TreeEntry Hash) → Type 0
  Leads x [] = Unit {0}
  Leads x (y ∷ ys) = str_lt (sort_key y) (sort_key x) ≡ false

  InOrder-cons :
      (x : TreeEntry Hash) (ys : List (TreeEntry Hash)) → Leads x ys → InOrder ys → InOrder (x ∷ ys)
  InOrder-cons x [] l o = tt
  InOrder-cons x (y ∷ ys) l o = (l, o)

  InOrder-tail : (x : TreeEntry Hash) (ys : List (TreeEntry Hash)) → InOrder (x ∷ ys) → InOrder ys
  InOrder-tail x [] o = tt
  InOrder-tail x (y ∷ ys) o = o.1

  InOrder-lead : (x : TreeEntry Hash) (ys : List (TreeEntry Hash)) → InOrder (x ∷ ys) → Leads x ys
  InOrder-lead x [] o = tt
  InOrder-lead x (y ∷ ys) o = o.0

  insert_entry-Leads :
      (z x : TreeEntry Hash) (ys : List (TreeEntry Hash))
      → str_lt (sort_key x) (sort_key z) ≡ false
      → Leads z ys
      → Leads z (insert_entry x ys)
  unfolding insert_entry
  insert_entry-Leads z x [] h l = h
  insert_entry-Leads z x (y ∷ ys) h l = elim (Bool-cases (str_lt (sort_key y) (sort_key x))) [
    | inl e ↦ rw e l
    | inr e ↦ rw e h
  ]

  insert_entry-InOrder :
      (x : TreeEntry Hash) (ys : List (TreeEntry Hash)) → InOrder ys → InOrder (insert_entry x ys)
  unfolding insert_entry
  insert_entry-InOrder x [] o = tt
  insert_entry-InOrder x (y ∷ ys) o = elim (Bool-cases (str_lt (sort_key y) (sort_key x))) [
    | inr e ↦ rw e (e, o)
    | inl e ↦ rw e (
        InOrder-cons y (insert_entry x ys)
          (insert_entry-Leads y x ys (str_lt-asym (sort_key y) (sort_key x) e)
            (InOrder-lead y ys o))
          (insert_entry-InOrder x ys (InOrder-tail y ys o)))
  ]

  pub sort_entries-InOrder : (xs : List (TreeEntry Hash)) → InOrder (sort_entries xs)
  unfolding sort_entries
  sort_entries-InOrder [] = tt
  sort_entries-InOrder (x ∷ xs) = insert_entry-InOrder x (sort_entries xs) (sort_entries-InOrder xs)

module _ {Hash : Type 0} (x : TreeEntry Hash) where
  insert_entry→Has :
      (y : TreeEntry Hash) (ys : List (TreeEntry Hash))
      → Has x (insert_entry y ys)
      → (x ≡ y) ⊎ Has x ys
  unfolding insert_entry
  insert_entry→Has y [] h = h
  insert_entry→Has y (z ∷ zs) h = elim (Bool-cases (str_lt (sort_key z) (sort_key y))) [
    | inr e ↦ rw e at h
    | inl e ↦ elim (rw e at h) [
      | inl s ↦ inr (inl s)
      | inr i ↦ elim (insert_entry→Has y zs i) [ inl s ↦ inl s | inr k ↦ inr (inr k) ]
    ]
  ]

  Has→insert_entry :
      (y : TreeEntry Hash) (ys : List (TreeEntry Hash))
      → (x ≡ y) ⊎ Has x ys
      → Has x (insert_entry y ys)
  unfolding insert_entry
  Has→insert_entry y [] h = h
  Has→insert_entry y (z ∷ zs) h = elim (Bool-cases (str_lt (sort_key z) (sort_key y))) [
    | inr e ↦ rw e h
    | inl e ↦ rw e (elim h [
      | inl s ↦ inr (Has→insert_entry y zs (inl s))
      | inr (inl s) ↦ inl s
      | inr (inr i) ↦ inr (Has→insert_entry y zs (inr i))
    ])
  ]

  -- Sorting loses no entry and makes none up.
  pub sort_entries-Has : (xs : List (TreeEntry Hash)) → Has x (sort_entries xs) ↔ Has x xs
  unfolding sort_entries
  sort_entries-Has [] = (λ h. h, λ h. h)
  sort_entries-Has (y ∷ ys) = (
    λ h. elim (insert_entry→Has y (sort_entries ys) h) [
      | inl s ↦ inl s
      | inr i ↦ inr ((sort_entries-Has ys).0 i)
    ],
    λ h.
        Has→insert_entry y (sort_entries ys)
          (elim h [ inl s ↦ inl s | inr i ↦ inr ((sort_entries-Has ys).1 i) ]),
  )

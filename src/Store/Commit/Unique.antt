-- ===== src/Store/Commit/Unique.antt =====
-- Entries of different names are sorted in one way, whatever order they are met in.
use git_simulator.Base.{
  true, ◌≡◌, ◌≢◌, inl, inr, refl, sym, ◌∙◌, ap, subst, Bool-cases, List, [], ◌∷◌, Has, All, All-Has,
  Has-All,
}
use git_simulator.Store.Git.{TreeEntry}
use git_simulator.Store.Commit.{insert_entry, sort_entries, str_lt, sort_key}
use git_simulator.Store.Commit.Sorted.{sort_entries-Has}
use git_simulator.Store.Commit.TextOrder.{str_lt-asym, str_lt_trans, str_lt-total, str_lt_irrefl}

module _ {Hash : Type 0} where
  abbrev Before : TreeEntry Hash → TreeEntry Hash → Type 0
  Before x y = str_lt (sort_key x) (sort_key y) ≡ true

  abbrev Strict : List (TreeEntry Hash) → Type 0
  Strict [] = Unit {0}
  Strict (x ∷ xs) = All (Before x) xs × Strict xs

  -- No entry has the name of an entry after it.
  abbrev pub Apart : List (TreeEntry Hash) → Type 0
  Apart [] = Unit {0}
  Apart (x ∷ xs) = All (λ y. sort_key x ≢ sort_key y) xs × Apart xs

  insert_entry-All :
      (P : TreeEntry Hash → Type 0) (x : TreeEntry Hash) (ys : List (TreeEntry Hash))
      → P x
      → All P ys
      → All P (insert_entry x ys)
  unfolding insert_entry
  insert_entry-All P x [] p a = (p, tt)
  insert_entry-All P x (y ∷ ys) p a = elim (Bool-cases (str_lt (sort_key y) (sort_key x))) [
    | inl e ↦ rw e (a.0, insert_entry-All P x ys p a.1)
    | inr e ↦ rw e (p, a)
  ]

  sort_entries-All :
      (P : TreeEntry Hash → Type 0) (xs : List (TreeEntry Hash))
      → All P xs
      → All P (sort_entries xs)
  unfolding sort_entries
  sort_entries-All P [] a = tt
  sort_entries-All P (x ∷ xs) a =
      insert_entry-All P x (sort_entries xs) a.0 (sort_entries-All P xs a.1)

  insert_entry-Strict :
      (x : TreeEntry Hash) (ys : List (TreeEntry Hash))
      → All (λ y. sort_key x ≢ sort_key y) ys
      → Strict ys
      → Strict (insert_entry x ys)
  unfolding insert_entry
  insert_entry-Strict x [] ne s = (tt, tt)
  insert_entry-Strict x (y ∷ ys) ne s = elim (Bool-cases (str_lt (sort_key y) (sort_key x))) [
    | inl e ↦ rw e (insert_entry-All (Before y) x ys e s.0, insert_entry-Strict x ys ne.1 s.1)
    | inr e ↦
        let first = str_lt-total (sort_key y) (sort_key x) e (λ q. ne.0 (sym q)) in
        rw e (
          (
            first,
            Has-All (Before x) ys (λ z i. str_lt_trans _ _ _ first (All-Has (Before y) z ys s.0 i)),
          ),
          s,
        )
  ]

  sort_entries-Strict : (xs : List (TreeEntry Hash)) → Apart xs → Strict (sort_entries xs)
  unfolding sort_entries
  sort_entries-Strict [] a = tt
  sort_entries-Strict (x ∷ xs) a =
      insert_entry-Strict x (sort_entries xs) (sort_entries-All _ xs a.0)
        (sort_entries-Strict xs a.1)

  abbrev pub Within : List (TreeEntry Hash) → List (TreeEntry Hash) → Type 0
  Within xs ys = (x : TreeEntry Hash) → Has x xs → Has x ys

  -- Nothing stands before itself.
  not_among : (x : TreeEntry Hash) (xs : List (TreeEntry Hash)) → All (Before x) xs → Has x xs → ⊥
  not_among x xs a i =
      let self = str_lt_irrefl (sort_key x) in let less = All-Has (Before x) x xs a i in cc

  tail-Within :
      (x : TreeEntry Hash) (xs ys : List (TreeEntry Hash))
      → All (Before x) xs
      → Within (x ∷ xs) (x ∷ ys)
      → Within xs ys
  tail-Within x xs ys a w z i = elim (w z (inr i)) [
    | inl same ↦ absurd (not_among x xs a (subst (λ v. Has v xs) same i))
    | inr j ↦ j
  ]

  heads_equal :
      (x y : TreeEntry Hash) (xs ys : List (TreeEntry Hash))
      → All (Before x) xs
      → All (Before y) ys
      → Has x (y ∷ ys)
      → Has y (x ∷ xs)
      → x ≡ y
  heads_equal x y xs ys a b (inl same) j = same
  heads_equal x y xs ys a b (inr i) (inl same) = sym same
  heads_equal x y xs ys a b (inr i) (inr j) =
      let less = All-Has (Before y) x ys b i in
      let more = All-Has (Before x) y xs a j in
      let other = str_lt-asym (sort_key x) (sort_key y) more in absurd (cc)

  sorted_unique :
      (xs ys : List (TreeEntry Hash))
      → Strict xs
      → Strict ys
      → Within xs ys
      → Within ys xs
      → xs ≡ ys
  sorted_unique [] [] s t w v = refl
  sorted_unique [] (y ∷ ys) s t w v = absurd (v y (inl refl))
  sorted_unique (x ∷ xs) [] s t w v = absurd (w x (inl refl))
  sorted_unique (x ∷ xs) (y ∷ ys) s t w v =
      let same = heads_equal x y xs ys s.0 t.0 (w x (inl refl)) (v y (inl refl)) in
      let w' = subst (λ z. Within (x ∷ xs) (z ∷ ys)) (sym same) w in
      let v' = subst (λ z. Within (z ∷ ys) (x ∷ xs)) (sym same) v in
      let t' = subst (λ z. All (Before z) ys) (sym same) t.0 in
      ap (λ z. z ∷ xs) same
      ∙ ap (λ zs. y ∷ zs)
          (sorted_unique xs ys s.1 t.1 (tail-Within x xs ys s.0 w') (tail-Within x ys xs t' v'))

  -- Two lists of the same entries, in each of which no name stands twice, are sorted in one way.
  pub sort_entries_unique :
      (xs ys : List (TreeEntry Hash))
      → Apart xs
      → Apart ys
      → Within xs ys
      → Within ys xs
      → sort_entries xs ≡ sort_entries ys
  sort_entries_unique xs ys a b w v =
      sorted_unique (sort_entries xs) (sort_entries ys) (sort_entries-Strict xs a)
        (sort_entries-Strict ys b)
        (λ x i. (sort_entries-Has x ys).1 (w x ((sort_entries-Has x xs).0 i)))
        (λ x i. (sort_entries-Has x xs).1 (v x ((sort_entries-Has x ys).0 i)))

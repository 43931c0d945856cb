-- ===== src/Base/Sort.antt =====
-- sort.SliceStable by an integer key.
use mathlib.Core.Path.{◌≡◌, refl}
use mathlib.Core.Bool.{Bool, true, false}
use mathlib.Core.Logic.{inl, inr}
use mathlib.Core.List.{List, [], ◌∷◌, Perm}
use mathlib.Core.List.Perm
use native.Mathlib.Omega.{arith}
use git_simulator.Base.Tests.{if◌then◌else◌, Bool-cases}
use git_simulator.Base.Int.{ℤ, ◌≤ℤ◌, ltb_ℤ, ltb_ℤ→lt, ltb_ℤ→ge}
use git_simulator.Base.Lists.{Has, All}

module _ {A : Type 0} (key : A → ℤ) where
  unfoldable pub insert_by : A → List A → List A
  insert_by x [] = x ∷ []
  insert_by x (y ∷ ys) = if ltb_ℤ (key y) (key x) then y ∷ insert_by x ys else x ∷ y ∷ ys

  unfoldable pub sort_stable : List A → List A
  unfolding insert_by
  sort_stable [] = []
  sort_stable (x ∷ xs) = insert_by x (sort_stable xs)

  insert_by-perm : (x : A) (xs : List A) → Perm (insert_by x xs) (x ∷ xs)
  unfolding insert_by
  insert_by-perm x [] = Perm.refl (x ∷ [])
  insert_by-perm x (y ∷ ys) = elim (Bool-cases (ltb_ℤ (key y) (key x))) [
    | inl e ↦ rw e (Perm.trans (Perm.cons y (insert_by-perm x ys)) (Perm.swap x y ys))
    | inr e ↦ rw e (Perm.refl (x ∷ y ∷ ys))
  ]

  -- Sorting loses nothing and makes nothing up.
  pub sort_stable-perm : (xs : List A) → Perm (sort_stable xs) xs
  unfolding sort_stable
  sort_stable-perm [] = Perm.refl []
  sort_stable-perm (x ∷ xs) =
      Perm.trans (insert_by-perm x (sort_stable xs)) (Perm.cons x (sort_stable-perm xs))

  abbrev pub IsBelow : ℤ → List A → Type 0
  IsBelow k [] = Unit {0}
  IsBelow k (y ∷ ys) = k ≤ℤ key y

  -- Each key is at most the next one.
  abbrev pub IsSorted : List A → Type 0
  IsSorted [] = Unit {0}
  IsSorted (x ∷ xs) = IsBelow (key x) xs × IsSorted xs

  insert_by-IsBelow :
      (k : ℤ) (x : A) (xs : List A) → k ≤ℤ key x → IsBelow k xs → IsBelow k (insert_by x xs)
  unfolding insert_by
  insert_by-IsBelow k x [] h b = h
  insert_by-IsBelow k x (y ∷ ys) h b = elim (Bool-cases (ltb_ℤ (key y) (key x))) [
    | inl e ↦ rw e b
    | inr e ↦ rw e h
  ]

  insert_by-IsSorted : (x : A) (xs : List A) → IsSorted xs → IsSorted (insert_by x xs)
  unfolding insert_by
  insert_by-IsSorted x [] s = (tt, tt)
  insert_by-IsSorted x (y ∷ ys) s = elim (Bool-cases (ltb_ℤ (key y) (key x))) [
    | inl e ↦ rw e (
      insert_by-IsBelow (key y) x ys (omega (arith, ltb_ℤ→lt (key y) (key x) e)) s.0,
      insert_by-IsSorted x ys s.1,
    )
    | inr e ↦ rw e (ltb_ℤ→ge (key y) (key x) e, s)
  ]

  pub sort_stable-IsSorted : (xs : List A) → IsSorted (sort_stable xs)
  unfolding sort_stable
  sort_stable-IsSorted [] = tt
  sort_stable-IsSorted (x ∷ xs) = insert_by-IsSorted x (sort_stable xs) (sort_stable-IsSorted xs)

  abbrev pub same_key : ℤ → A → Bool
  same_key k x = if ltb_ℤ k (key x) then false else if ltb_ℤ (key x) k then false else true

  -- The elements of one key, in their order.
  abbrev pub with_key : ℤ → List A → List A
  with_key k [] = []
  with_key k (x ∷ xs) = if same_key k x then x ∷ with_key k xs else with_key k xs

  with_key-insert_by :
      (k : ℤ) (x : A) (xs : List A) → with_key k (insert_by x xs) ≡ with_key k (x ∷ xs)
  unfolding insert_by
  with_key-insert_by k x [] = refl
  with_key-insert_by k x (y ∷ ys) = ground (arith, with_key-insert_by k x ys)

  -- Elements of the same key keep their order.
  pub with_key-sort_stable : (k : ℤ) (xs : List A) → with_key k (sort_stable xs) ≡ with_key k xs
  unfolding sort_stable
  with_key-sort_stable k [] = refl
  with_key-sort_stable k (x ∷ xs) =
      rw with_key-insert_by (ground (arith, with_key-sort_stable k xs))

  insert_by-Has : (a x : A) (xs : List A) → Has a (x ∷ xs) → Has a (insert_by x xs)
  unfolding insert_by
  insert_by-Has a x [] h = h
  insert_by-Has a x (y ∷ ys) h = elim (Bool-cases (ltb_ℤ (key y) (key x))) [
    | inl e ↦ rw e (elim h [
      | inl p ↦ inr (insert_by-Has a x ys (inl p))
      | inr (inl p) ↦ inl p
      | inr (inr q) ↦ inr (insert_by-Has a x ys (inr q))
    ])
    | inr e ↦ rw e h
  ]

  insert_by-All : (P : A → Type 0) (x : A) (xs : List A) → P x → All P xs → All P (insert_by x xs)
  unfolding insert_by
  insert_by-All P x [] p q = (p, tt)
  insert_by-All P x (y ∷ ys) p q = elim (Bool-cases (ltb_ℤ (key y) (key x))) [
    | inl e ↦ rw e (q.0, insert_by-All P x ys p q.1)
    | inr e ↦ rw e (p, q)
  ]

  pub sort_stable-Has : (a : A) (xs : List A) → Has a xs → Has a (sort_stable xs)
  unfolding sort_stable
  sort_stable-Has a [] h = h
  sort_stable-Has a (x ∷ xs) (inl p) = insert_by-Has a x (sort_stable xs) (inl p)
  sort_stable-Has a (x ∷ xs) (inr q) =
      insert_by-Has a x (sort_stable xs) (inr (sort_stable-Has a xs q))

  pub sort_stable-All : (P : A → Type 0) (xs : List A) → All P xs → All P (sort_stable xs)
  unfolding sort_stable
  sort_stable-All P [] h = tt
  sort_stable-All P (x ∷ xs) h = insert_by-All P x (sort_stable xs) h.0 (sort_stable-All P xs h.1)

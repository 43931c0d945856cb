-- ===== src/Base/Keys.antt =====
-- Maps in which no key stands twice, as Go's maps are.
use mathlib.Core.Path.{◌≡◌, refl, ap, subst}
use mathlib.Core.Logic.{inl, inr}
use mathlib.Core.List.{List, [], ◌∷◌}
use mathlib.Core.Option.{none, some}
use native.Mathlib.Omega.{arith}
use git_simulator.Base.Tests.{Bool-cases, some_inj}
use git_simulator.Base.Dict.{Eq, lookup, insert, lookup-insert, lookup-insert_self}
use git_simulator.Base.Lists.{Has, All}

module _ {K V : Type 0} ⦃e : Eq K⦄ where
  abbrev pub Distinct : List (K × V) → Type 0
  Distinct [] = Unit {0}
  Distinct ((k, v) ∷ m) = (lookup k m ≡ none) × Distinct m

  pub insert-Distinct : (k : K) (v : V) (m : List (K × V)) → Distinct m → Distinct (insert k v m)
  unfolding insert lookup
  insert-Distinct k v [] d = (refl, tt)
  insert-Distinct k v ((j, w) ∷ m) d = elim (Bool-cases (e.beq j k)) [
    | inl q ↦ rw q (ground (arith, e.beq_iff j k, d.0), d.1)
    | inr q ↦ rw q (
      ground (arith, lookup-insert k j v m, e.beq_iff k j, e.beq_iff j k, d.0),
      insert-Distinct k v m d.1,
    )
  ]

  pub lookup-Has : (k : K) (v : V) (m : List (K × V)) → lookup k m ≡ some v → Has (k, v) m
  unfolding lookup
  lookup-Has k v [] h = absurd (cc)
  lookup-Has k v ((j, w) ∷ m) h = elim (Bool-cases (e.beq j k)) [
    | inl q ↦ let same = (e.beq_iff j k).0 q in let here = some_inj (rw q at h) in inl (cc)
    | inr q ↦ inr (lookup-Has k v m (rw q at h))
  ]

  pub insert-Has : (k : K) (v : V) (m : List (K × V)) → Has (k, v) (insert k v m)
  insert-Has k v m = lookup-Has k v (insert k v m) (lookup-insert_self k v m)

  Has-found : (k : K) (v : V) (m : List (K × V)) → lookup k m ≡ none → Has (k, v) m → ⊥
  unfolding lookup
  Has-found k v [] h i = i
  Has-found k v ((j, w) ∷ m) h (inl same) = ground (arith, e.beq_iff j k, ap (λ x. x.0) same)
  Has-found k v ((j, w) ∷ m) h (inr i) = Has-found k v m (ground (arith, h)) i

  pub Has-lookup :
      (k : K) (v : V) (m : List (K × V)) → Distinct m → Has (k, v) m → lookup k m ≡ some v
  unfolding lookup
  Has-lookup k v [] d h = absurd h
  Has-lookup k v ((j, w) ∷ m) d (inl same) =
      ground (arith, e.beq_iff j k, ap (λ x. x.0) same, ap (λ x. x.1) same)
  Has-lookup k v ((j, w) ∷ m) d (inr i) = elim (Bool-cases (e.beq j k)) [
    | inl q ↦ absurd (Has-found j v m d.0 (ground (arith, (e.beq_iff j k).0 q)))
    | inr q ↦ rw q (Has-lookup k v m d.1 i)
  ]

  pub All-insert :
      (Q : K × V → Type 0) (k : K) (v : V) (m : List (K × V))
      → Q (k, v)
      → All Q m
      → All Q (insert k v m)
  unfolding insert
  All-insert Q k v [] q a = (q, tt)
  All-insert Q k v ((j, w) ∷ m) q a = elim (Bool-cases (e.beq j k)) [
    | inl p ↦ rw p (q, a.1)
    | inr p ↦ rw p (a.0, All-insert Q k v m q a.1)
  ]

  pub All-lookup :
      (Q : K × V → Type 0) (k : K) (v : V) (m : List (K × V))
      → lookup k m ≡ some v
      → All Q m
      → Q (k, v)
  unfolding lookup
  All-lookup Q k v [] h a = absurd (cc)
  All-lookup Q k v ((j, w) ∷ m) h a = elim (Bool-cases (e.beq j k)) [
    | inl p ↦
        let same = (e.beq_iff j k).0 p in
        let here = some_inj (rw p at h) in
        let pair : ◌≡◌ {A = K × V} (j, w) (k, v) = cc in subst Q pair a.0
    | inr p ↦ All-lookup Q k v m (rw p at h) a.1
  ]

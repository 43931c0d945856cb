-- ===== src/Core/Exec.antt =====
-- Code that changes a state and may fail: what it wrote before it failed stays written.
use git_simulator.Base.{◌≡◌, refl, ◌∙◌}
use git_simulator.Core.Errors.{Result, ok, err, Error}

abbrev pub Exec {ℓ} : Type ℓ → Type ℓ → Type ℓ
Exec S A = S → Result A × S

module _ {ℓ} {S A : Type ℓ} where
  abbrev pub pure : A → Exec S A
  pure a s = (ok a, s)

  abbrev pub fail : Error → Exec S A
  fail e s = (err e, s)

  abbrev pub lift : Result A → Exec S A
  lift r s = (r, s)

module _ {ℓ} {S A B : Type ℓ} where
  abbrev pub continue : Result A → (A → Exec S B) → Exec S B
  continue (ok a) f s = f a s
  continue (err e) f s = (err e, s)

  infixl 5 ◌>>=◌ ◌>>◌
  abbrev pub ◌>>=◌ : Exec S A → (A → Exec S B) → Exec S B
  ◌>>=◌ m f s = let (r, s') = m s in continue r f s'

  abbrev pub ◌>>◌ : Exec S A → Exec S B → Exec S B
  m >> n = m >>= λ _. n

module _ {ℓ} {S A B : Type ℓ} where
  -- What a block that succeeds has done.
  pub bind-ok :
      (m : Exec S A) (f : A → Exec S B) (s : S) (b : B)
      → ((m >>= f) s).0 ≡ ok b
      → (a : A) × ((m s).0 ≡ ok a) × ((f a (m s).1).0 ≡ ok b)
  bind-ok m f s b h = continued (m s).0 h
    where
      continued :
          (r : Result A)
          → (continue r f (m s).1).0 ≡ ok b
          → (a : A) × (r ≡ ok a) × ((f a (m s).1).0 ≡ ok b)
      continued (ok a) h = (a, refl, h)
      continued (err e) h = cc

  -- The same with the states.
  pub bind-done :
      (m : Exec S A) (f : A → Exec S B) (s t : S) (b : B)
      → (m >>= f) s ≡ (ok b, t)
      → (a : A) × (u : S) × (m s ≡ (ok a, u)) × (f a u ≡ (ok b, t))
  bind-done m f s t b h = continued (m s) h
    where
      continued :
          (x : Result A × S)
          → continue x.0 f x.1 ≡ (ok b, t)
          → (a : A) × (u : S) × (x ≡ (ok a, u)) × (f a u ≡ (ok b, t))
      continued (ok a, u) h = (a, u, refl, h)
      continued (err e, u) h = absurd (cc)

  -- A block that succeeds is its second part, run where the first part has succeeded.
  pub bind-runs :
      (m : Exec S A) (f : A → Exec S B) (s : S) (b : B)
      → ((m >>= f) s).0 ≡ ok b
      → (a : A) × ((m s).0 ≡ ok a) × ((m >>= f) s ≡ f a (m s).1)
  bind-runs m f s b h = continued (m s).0 h
    where
      continued :
          (r : Result A)
          → (continue r f (m s).1).0 ≡ ok b
          → (a : A) × (r ≡ ok a) × (continue r f (m s).1 ≡ f a (m s).1)
      continued (ok a) h = (a, refl, refl)
      continued (err e) h = cc

-- An action that leaves what `view` shows of the state as it was, whether it succeeds or fails.
pub record Keeps {ℓ κ} {S A : Type ℓ} {V : Type κ} (view : S → V) (m : Exec S A)
    : Type (ℓ ⊔ κ) where
  pub at : (s : S) → view (m s).1 ≡ view s

module _ {ℓ κ} {S A : Type ℓ} {V : Type κ} {view : S → V} where
  pub Keeps-pure : (a : A) → Keeps view (pure a)
  Keeps-pure a = record { at = λ s. refl }

  pub Keeps-lift : (r : Result A) → Keeps view (lift r)
  Keeps-lift r = record { at = λ s. refl }

  pub Keeps-fail : (e : Error) → Keeps view (fail {A = A} e)
  Keeps-fail e = record { at = λ s. refl }

module _ {ℓ κ} {S A B : Type ℓ} {V : Type κ} {view : S → V} where
  pub Keeps-bind :
      (m : Exec S A) (f : A → Exec S B)
      → Keeps view m
      → ((a : A) → Keeps view (f a))
      → Keeps view (m >>= f)
  Keeps-bind m f km kf = record { at = λ s. continued (m s).0 (m s).1 ∙ km.at s }
    where
      continued : (r : Result A) (s : S) → view (continue r f s).1 ≡ view s
      continued (ok a) s = (kf a).at s
      continued (err e) s = refl

pub ruleset keeps_rules = (Keeps-pure, Keeps-lift, Keeps-fail, Keeps-bind)

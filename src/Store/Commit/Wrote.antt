-- ===== src/Store/Commit/Wrote.antt =====
-- The loops of buildTree over a map, which append one entry of a tree for each key.
use git_simulator.Base.{String, ◌≡◌, inl, inr, ap, sym, ◌∙◌, subst, List, [], ◌∷◌, Has, string_eq}
use git_simulator.Core.Errors.{ok, ok_inj}
use git_simulator.Core.Exec.{pure}
use git_simulator.Store.Git.{TreeEntry, Mode}

module _ {Hash : Type 0} where
  abbrev pub entry : Mode → String → Hash → TreeEntry Hash
  entry mode name h = record { name = name; mode = mode; hash = h }

  module _ {V : Type 0} (mode : Mode) (P : Hash → V → Type 0) where
    -- A list of entries of one mode that was written for a map: the keys, with what `P` says of the
    -- value.
    pub data Wrote : List (String × V) → List (TreeEntry Hash) → Type 0 where
      wrote_none : Wrote [] []
      wrote :
          {m : List (String × V)} {es : List (TreeEntry Hash)} (n : String) (v : V) (h : Hash)
          → P h v
          → Wrote m es
          → Wrote ((n, v) ∷ m) (entry mode n h ∷ es)

    pub entry_there :
        (m : List (String × V)) (es : List (TreeEntry Hash))
        → Wrote m es
        → (n : String) (v : V) → Has (n, v) m
        → (h : Hash) × Has (entry mode n h) es × P h v
    entry_there _ _ wrote_none n v i = absurd i
    entry_there _ _ (wrote k u h p w) n v (inl same) =
        (h, inl (ap (λ x. entry mode x.0 h) same), subst (P h) (sym (ap (λ x. x.1) same)) p)
    entry_there _ _ (wrote k u h p w) n v (inr i) =
        let (j, at, q) = entry_there _ _ w n v i in (j, inr at, q)

    pub key_of :
        (m : List (String × V)) (es : List (TreeEntry Hash))
        → Wrote m es
        → (x : TreeEntry Hash) → Has x es
        → (v : V) × (x ≡ entry mode x.name x.hash) × Has (x.name, v) m × P x.hash v
    key_of _ _ wrote_none x i = absurd i
    key_of _ _ (wrote k u h p w) x (inl same) = (
      u,
      same ∙ sym (ap (λ y. entry mode y.name y.hash) same),
      inl (ap (λ y. (y.name, u)) same),
      subst (λ i. P i u) (sym (ap (λ y. y.hash) same)) p,
    )
    key_of _ _ (wrote k u h p w) x (inr i) =
        let (v, same, at, q) = key_of _ _ w x i in (v, same, inr at, q)

  -- The round of the loop that wrote the entry, and the rounds after it, for a property that depends
  -- on a state.
  pub Wrote-step :
      {S V : Type 0} (mode : Mode) (P : S → Hash → V → Type 0) (n : String) (v : V) (h : Hash)
      (m : List (String × V)) (es es' : List (TreeEntry Hash)) (s t : S)
      → P s h v
      → Wrote mode (P s) m es'
      → pure {S = S} (entry mode n h ∷ es') s ≡ (ok es, t)
      → Wrote mode (P t) ((n, v) ∷ m) es
  Wrote-step mode P n v h m es es' s t p w done =
      subst (λ u. Wrote mode (P u) ((n, v) ∷ m) es) (ap (λ x. x.1) done)
        (subst (Wrote mode (P s) ((n, v) ∷ m)) (ok_inj (ap (λ x. x.0) done)) (wrote n v h p w))

  pub Wrote-map :
      {V : Type 0} (mode : Mode) (P Q : Hash → V → Type 0) (m : List (String × V))
      (es : List (TreeEntry Hash))
      → ((h : Hash) (v : V) → P h v → Q h v)
      → Wrote mode P m es
      → Wrote mode Q m es
  Wrote-map mode P Q _ _ f wrote_none = wrote_none
  Wrote-map mode P Q _ _ f (wrote n v h p w) = wrote n v h (f h v p) (Wrote-map mode P Q _ _ f w)

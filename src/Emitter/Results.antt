-- ===== src/Emitter/Results.antt =====
-- sendBatch: results[i] is the result of ds[i].
use git_simulator.Base.{
  ℕ, zero, suc, ◌+◌, String, Bool-cases, none, some, List, [], ◌∷◌, ◌++◌, ◌≡◌, refl, sym, ◌∙◌, ap,
  ℤ, pos, arith, inl, inr, ◌⊎◌, set, length, get_elem?, get_elem?-set_self, get_elem?-set_ne,
  get_elem?-below, lt_of_get_elem?, length-set, length-replicate, Has, All, sort_stable-Has,
  sort_stable-All, append_cons, get_elem?-append_length, ℕ-cases, length-snoc, subst,
}
use git_simulator.Emitter.World.{Delivery, Outcome, History, World}
use git_simulator.Emitter.Send.{Emitter, send_with_retry, zero_outcome}
use git_simulator.Emitter.Batch.{
  Entry, entries_from, hold, deliver, in_order, send_time, send_batch,
}
use git_simulator.Emitter.Retry.{send_with_retry-Ending}

abbrev entry : ℕ → Delivery → Entry
entry i d = record { orig_idx = i; delivery = d }

-- The entry stands for the delivery at its index.
abbrev Faithful : List Delivery → Entry → Type 0
Faithful ds x = get_elem? ds x.orig_idx ≡ some x.delivery

-- results[i] is a result of `d`.
abbrev pub Reports : ℕ → Delivery → List Outcome → Type 0
Reports i d results = (o : Outcome) × (get_elem? results i ≡ some o) × (o.delivery ≡ some d)

entries_from-Has :
    (k i j : ℕ) (d : Delivery) (ds : List Delivery)
    → j ≡ i + k
    → get_elem? ds i ≡ some d
    → Has (entry j d) (entries_from k ds)
unfolding entries_from
entries_from-Has k i j d [] p h = cc
entries_from-Has k zero j d (x ∷ ds) p h = let q : j ≡ k = omega arith in inl (cc)
entries_from-Has k (suc i) j d (x ∷ ds) p h =
    inr (entries_from-Has (suc k) i j d ds (omega arith) h)

entries_from-Faithful :
    (before ds all : List Delivery)
    → before ++ ds ≡ all
    → All (Faithful all) (entries_from (length before) ds)
unfolding entries_from
entries_from-Faithful before [] all p = tt
entries_from-Faithful before (d ∷ ds) all p = (
  subst (λ zs. get_elem? zs (length before) ≡ some d) p (get_elem?-append_length before ds d),
  subst (λ k. All (Faithful all) (entries_from k ds)) (length-snoc before d)
      (entries_from-Faithful (before ++ d ∷ []) ds all (append_cons before d ds ∙ p)),
)

module _ (w : World) (e : Emitter) (n : ℕ) (retries : e.max_retries ≡ pos n) where
  -- The result of a sending is put at its index, and moves no other.
  stored-Reports :
      (ds : List Delivery) (i : ℕ) (d : Delivery) (x : Entry) (xs : List Entry)
      (results : List Outcome) (o : Outcome)
      → get_elem? ds i ≡ some d
      → Faithful ds x
      → length results ≡ length ds
      → o.delivery ≡ some x.delivery
      → Has (entry i d) (x ∷ xs) ⊎ Reports i d results
      → Has (entry i d) xs ⊎ Reports i d (set results x.orig_idx o)
  stored-Reports ds i d x xs results o found faithful long told pending =
      elim (ℕ-cases x.orig_idx i) [
        | inl p ↦
            let (r, at) =
              get_elem?-below results i (omega (arith, long, lt_of_get_elem? ds i d found)) in
            let same : some x.delivery ≡ some d = cc in
            inr (
              o,
              subst (λ k. get_elem? (set results k o) i ≡ some o) (sym p)
                  (get_elem?-set_self results i o r at),
              told ∙ same,
            )
        | inr p ↦ elim pending [
          | inl (inl q) ↦ absurd (p (sym (ap (λ y. y.orig_idx) q)))
          | inl (inr q) ↦ inl q
          | inr (r, at, named) ↦ inr (r, get_elem?-set_ne results x.orig_idx i o p ∙ at, named)
        ]
      ]

  deliver-Reports :
      (target : String) (start : ℤ) (ds : List Delivery) (i : ℕ) (d : Delivery)
      → get_elem? ds i ≡ some d
      → (xs : List Entry) (results : List Outcome) (h : History) → All (Faithful ds) xs
      → length results ≡ length ds
      → Has (entry i d) xs ⊎ Reports i d results
      → (deliver w e target start xs results h).0.1 ≡ none
      → Reports i d (deliver w e target start xs results h).0.0
  unfolding deliver
  deliver-Reports target start ds i d found [] results h faithful long (inr r) = λ _. r
  deliver-Reports target start ds i d found [] results h faithful long (inl q) = absurd q
  deliver-Reports target start ds i d found (x ∷ xs) results h faithful long pending =
      let (go, held) = hold w start x.delivery.send_at h in
      let (sent, h') = send_with_retry w e target x.delivery held in
      let told = (send_with_retry-Ending w n e target x.delivery held retries).reports_delivery in
      elim (Bool-cases (hold w start x.delivery.send_at h).0) [
        | inr b ↦ rw b (λ q. cc)
        | inl b ↦ rw b (
            deliver-Reports target start ds i d found xs (set results x.orig_idx sent.0) h'
              faithful.1 (length-set results x.orig_idx sent.0 ∙ long)
              (stored-Reports ds i d x xs results sent.0 found faithful.0 long told pending))
      ]

  -- When MaxRetries is not negative and sendBatch returns no error, results[i] is a result of
  -- ds[i], for each i.
  pub send_batch-Reports :
      (target : String) (ds : List Delivery) (i : ℕ) (d : Delivery) (h : History)
      → get_elem? ds i ≡ some d
      → (send_batch w e target ds h).0.1 ≡ none
      → Reports i d (send_batch w e target ds h).0.0
  unfolding send_batch in_order
  send_batch-Reports target ds i d h found =
      deliver-Reports target (w.now h) ds i d found (in_order ds) _ h
        (sort_stable-All send_time (Faithful ds) _ (entries_from-Faithful [] ds ds refl))
        (length-replicate (length ds) zero_outcome)
        (inl (
          sort_stable-Has send_time (entry i d) _
            (entries_from-Has 0 i i d ds (omega arith) found)))

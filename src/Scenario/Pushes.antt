-- ===== src/Scenario/Pushes.antt =====
-- The loops of RunPushN and RunMixed that push the commits.
use git_simulator.Base.{ℕ, suc, String, List, [], ◌∷◌, ℤ, itoa, ◌≡◌, refl, sym, ap, subst, length}
use git_simulator.Core.Errors.{ok, wrap, ok_inj, wrap-ok}
use git_simulator.Core.Exec.{Exec, pure, ◌>>=◌, bind-done}
use git_simulator.Scenario.Env.{Env}

module _ {S : Type 0} (env : Env S) where
  unfoldable pub push_one : String → ℕ → ℤ → Exec S String
  push_one branch i delay s =
      let (r, s') = env.push_commit branch delay s in
      (wrap "scenario: push commit %d: %w" (itoa i ∷ []) r, s')

  -- shas[i], from an index on, each with its delay
  unfoldable pub push_all : String → ℕ → List ℤ → Exec S (List String)
  unfolding push_one
  push_all branch i [] = pure []
  push_all branch i (delay ∷ delays) = do
    sha ← push_one branch i delay
    shas ← push_all branch (suc i) delays
    pure (sha ∷ shas)

  -- A call of the repository's PushCommit for each delay, one after the other, each of which returned
  -- the hash at its place; the states are those before the first call and after the last.
  pub data Pushes (branch : String) : List ℤ → List String → S → S → Type 0 where
    no_push : {s : S} → Pushes branch [] [] s s
    push :
        {delay : ℤ} {delays : List ℤ} {sha : String} {shas : List String} {s end : S}
        → (env.push_commit branch delay s).0 ≡ ok sha
        → Pushes branch delays shas (env.push_commit branch delay s).1 end
        → Pushes branch (delay ∷ delays) (sha ∷ shas) s end

  pub length-Pushes :
      (branch : String) (delays : List ℤ) (shas : List String) (s end : S)
      → Pushes branch delays shas s end
      → length shas ≡ length delays
  length-Pushes branch _ _ s end no_push = refl
  length-Pushes branch _ _ s end (push made p) = ap suc (length-Pushes branch _ _ _ end p)

  -- What the loop has done when it succeeds.
  pub push_all-Pushes :
      (branch : String) (i : ℕ) (delays : List ℤ) (s t : S) (shas : List String)
      → push_all branch i delays s ≡ (ok shas, t)
      → Pushes branch delays shas s t
  unfolding push_all push_one
  push_all-Pushes branch i [] s t shas h =
      subst (λ u. Pushes branch [] shas s u) (ap (λ x. x.1) h)
        (subst (λ z. Pushes branch [] z s s) (ok_inj (ap (λ x. x.0) h)) no_push)
  push_all-Pushes branch i (delay ∷ delays) s t shas h =
      let (sha, u, first, left) = bind-done (push_one branch i delay) _ s t shas h in
      let (rest, v, more, last) = bind-done (push_all branch (suc i) delays) _ u t shas left in
      let made = wrap-ok _ _ _ sha (ap (λ x. x.0) first) in
      let same : (env.push_commit branch delay s).1 ≡ u = ap (λ x. x.1) first in
      let others =
        subst (λ w. Pushes branch delays rest w v) (sym same)
          (push_all-Pushes branch (suc i) delays u v rest more) in
      subst (λ w. Pushes branch (delay ∷ delays) shas s w) (ap (λ x. x.1) last)
        (subst (λ z. Pushes branch (delay ∷ delays) z s v) (ok_inj (ap (λ x. x.0) last))
          (push made others))

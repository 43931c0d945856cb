-- ===== src/Store/Repo/Race.antt =====
-- The race that the simulator is for: what a reader sees after a push with a delayed HEAD.
use git_simulator.Base.{
  String, Bool, true, false, not, ◌≡◌, ap, sym, ◌∙◌, ◌==◌, if◌then◌else◌, some, ℤ, ◌+ℤ◌, ◌≤ℤ◌, ◌<ℤ◌,
  is_zero, ltb_ℤ, string_eq, lookup, lookup-insert_self, arith, str_eq_refl, Bool-cases, inl, inr,
  lt→ltb_ℤ,
}
use git_simulator.Core.Errors.{Error, ok, err}
use git_simulator.Core.Content.{ContentProvider}
use git_simulator.Store.Git.{Git, GitLaws}
use git_simulator.Store.Refs.{BranchState, resolve, is_due}
use git_simulator.Store.Repo.{Repo, Readings, add_commit, visible_commit}
use git_simulator.Store.Repo.Branches.{
  shown, visible_commit-shown, Committed, add_commit-ok, published, Failed, missing, settled,
  add_commit-err,
}

pub resolve-visible :
    (now : ℤ) (bs : BranchState) → (resolve now bs).0.visible_sha ≡ (resolve now bs).1
unfolding resolve
resolve-visible now bs = ground arith

-- What a reader at `now` gets after a push at `at`: `new`, or `old` while a delay lasts.
abbrev pub seen_after : ℤ → ℤ → ℤ → String × Bool → String × Bool → String × Bool
seen_after now at delay old new =
    if is_zero delay then new else if ltb_ℤ now (at +ℤ delay) then old else new

module _ (g : Git) where
  -- What the state that a push leaves shows, at any time.
  shown-published :
      (now at delay : ℤ) (sha : String) (bs : BranchState)
      → (sha == "") ≡ false
      → shown g now (some (published g at delay sha bs))
        ≡ seen_after now at delay (bs.visible_sha, not (bs.visible_sha == "")) (sha, true)
  unfolding resolve
  shown-published now at delay sha bs ne = elim (Bool-cases (is_zero delay)) [
    | inl e ↦ rw e (ground (arith, str_eq_refl ""))
    | inr e ↦ rw e (ground arith)
  ]

module _ (g : Git) (laws : GitLaws g) (t : Readings) (content : ContentProvider) (b : String)
    (delay : ℤ) (r : Repo g) (sha : String)
    (pushed : (add_commit g t content b delay r).0 ≡ ok sha) where
  abbrev after_push : Repo g
  after_push = (add_commit g t content b delay r).1

  -- After a push without delay every reader of the branch sees the new commit. After a push with a
  -- delay a reader sees, until the delay has passed since the push, what a reader saw just before
  -- it, and the new commit from then on.
  pub visible-push :
      (now : ℤ)
      → (visible_commit g now b after_push).0
        ≡ seen_after now t.at_schedule delay (visible_commit g t.at_resolve b r).0 (sha, true)
  visible-push now =
      let c : Committed g laws t b delay r sha after_push =
        add_commit-ok g laws t content b delay r sha pushed in
      let before = (resolve t.at_resolve c.before).0 in
      let then_shown =
        visible_commit-shown g t.at_resolve b r ∙ ap (shown g t.at_resolve) c.found in
      visible_commit-shown g now b after_push
      ∙ ap (λ x. shown g now (lookup b x)) c.after
      ∙ ap (shown g now) (lookup-insert_self b _ _)
      ∙ shown-published g now t.at_schedule delay sha before c.nonempty
      ∙ ap (λ old. seen_after now t.at_schedule delay old (sha, true))
          (ap (λ x. (x, not (x == ""))) (resolve-visible t.at_resolve c.before) ∙ sym then_shown)

-- A delayed push that comes before an earlier delayed push is due replaces it: the earlier commit is
-- never seen. Readers go on from what they saw before the first push to the second push's commit.
pub overlapping_push :
    (g : Git) (laws : GitLaws g) (t₁ t₂ : Readings) (content₁ content₂ : ContentProvider)
    (b : String) (d₁ d₂ : ℤ) (r : Repo g) (sha₁ sha₂ : String)
    (first : (add_commit g t₁ content₁ b d₁ r).0 ≡ ok sha₁)
    (second : (add_commit g t₂ content₂ b d₂ (add_commit g t₁ content₁ b d₁ r).1).0 ≡ ok sha₂)
    → is_zero d₁ ≡ false
    → t₂.at_resolve <ℤ t₁.at_schedule +ℤ d₁
    → (now : ℤ)
    → (visible_commit g now b
        (add_commit g t₂ content₂ b d₂ (add_commit g t₁ content₁ b d₁ r).1).1).0
      ≡ seen_after now t₂.at_schedule d₂ (visible_commit g t₁.at_resolve b r).0 (sha₂, true)
overlapping_push g laws t₁ t₂ content₁ content₂ b d₁ d₂ r sha₁ sha₂ first second delayed early now =
    visible-push g laws t₂ content₂ b d₂ _ sha₂ second now
    ∙ ap (λ old. seen_after now t₂.at_schedule d₂ old (sha₂, true))
        (visible-push g laws t₁ content₁ b d₁ r sha₁ first t₂.at_resolve
          ∙ rw (delayed, lt→ltb_ℤ t₂.at_resolve (t₁.at_schedule +ℤ d₁) early))

due_later : (at now : ℤ) (bs : BranchState) → at ≤ℤ now → is_due at bs ≡ true → is_due now bs ≡ true
due_later at now bs h due = ground arith

-- Resolving earlier makes no difference to a later reader.
pub shown-resolve :
    (g : Git) (at now : ℤ) (bs : BranchState)
    → at ≤ℤ now
    → shown g now (some (resolve at bs).0) ≡ shown g now (some bs)
unfolding resolve
shown-resolve g at now bs h = elim (Bool-cases (is_due at bs)) [
  | inl due ↦ rw (due, due_later at now bs h due) (ground (arith, str_eq_refl ""))
  | inr early ↦ rw early
]

-- A push that fails, for whatever reason, changes nothing that a reader of the branch sees at the
-- time of the push or later.
pub visible-failed_push :
    (g : Git) (laws : GitLaws g) (t : Readings) (content : ContentProvider) (b : String) (delay : ℤ)
    (r : Repo g) (e : Error)
    → (add_commit g t content b delay r).0 ≡ err e
    → (now : ℤ) → t.at_resolve ≤ℤ now
    → (visible_commit g now b (add_commit g t content b delay r).1).0 ≡ (visible_commit g now b r).0
visible-failed_push g laws t content b delay r e h now later =
    from_failed _ (add_commit-err g laws t content b delay r e h)
  where
    from_failed :
        (r' : Repo g)
        → Failed g laws t.at_resolve b r r'
        → (visible_commit g now b r').0 ≡ (visible_commit g now b r).0
    from_failed r' (missing _ same) = ap (λ x. (visible_commit g now b x).0) same
    from_failed r' (settled bs found after) =
        visible_commit-shown g now b r'
        ∙ ap (λ x. shown g now (lookup b x)) after
        ∙ ap (shown g now) (lookup-insert_self b _ _)
        ∙ shown-resolve g t.at_resolve now bs later
        ∙ ap (shown g now) (sym found)
        ∙ sym (visible_commit-shown g now b r)

-- ===== src/Store/Repo/Tags.antt =====
-- `AddTag` of pkg/store/repo.go.
use git_simulator.Base.{
  String, Bool, true, false, ◌<>◌, if◌then◌else◌, [], ◌∷◌, ℤ, string_eq, lookup, insert,
}
use git_simulator.Core.Errors.{sentinel, err_not_found, wrapped, ok, wrap}
use git_simulator.Core.Exec.{Exec, pure, lift, ◌>>=◌, ◌>>◌}
use git_simulator.Store.Git.{Git, hash, Object, tag}
use git_simulator.Store.Refs.{TagState}
use git_simulator.Store.Commit.{signature_at}
use git_simulator.Store.Repo.{Repo, settle, on_branch, on_storer, tag_ref}

module _ (g : Git) where
  open g use {Hash, State}

  abbrev pub tag_object : ℤ → String → Hash → Object Hash
  tag_object now name target = tag name (signature_at now) ("tag " <> name) target

  unfoldable pub store_tag : g.Encoded → Exec State Hash
  store_tag e s = let (h, s') = g.set_encoded_object e s in (wrap "store tag object: %w" [] h, s')

  -- The object that the new tag reference points to: for an annotated tag, a tag object.
  unfoldable pub tag_target : Bool → ℤ → String → String → Exec State Hash
  unfolding store_tag
  tag_target false now name sha = pure (g.new_hash sha)
  tag_target true now name sha = do
    e ← lift (wrap "encode tag object: %w" [] (g.encode (tag_object now name (g.new_hash sha))))
    store_tag e

  pub record_tag : String → TagState → Repo g → Repo g
  record_tag name ts r = record r { tags = insert name ts r.tags }

  -- The tag's reference, and its state in `r.tags`.
  unfoldable pub put_tag : String → Bool → String → Hash → Exec (Repo g) String
  unfolding record_tag
  put_tag name annotated sha target = do
    on_storer g (λ s.
        let (u, s') = g.set_reference (tag_ref name) (hash target) s in
        (wrap "set tag ref: %w" [] u, s'))
    let ts : TagState = record {
      commit_sha = sha;
      annotated = annotated;
      tag_obj_sha = if annotated then g.hash_string target else "";
    }
    λ r. (ok (g.hash_string target), record_tag name ts r)

  -- `AddTag` after the branch has been resolved.
  unfoldable pub tag_on : ℤ → String → Bool → String → Exec (Repo g) String
  unfolding tag_target put_tag
  tag_on now name annotated sha = do
    target ← on_storer g (tag_target annotated now name sha)
    put_tag name annotated sha target

  -- r.AddTag(tagName, branch, annotated)
  unfoldable pub add_tag : ℤ → ℤ → String → String → Bool → Exec (Repo g) String
  unfolding settle tag_on on_branch
  add_tag at_resolve at_tag name branch annotated r =
      on_branch g (lookup branch r.branches)
        (wrapped "%w: branch %q" (branch ∷ []) (sentinel err_not_found))
        (λ bs r.
          let (sha, _, r') = settle g at_resolve branch bs r in tag_on at_tag name annotated sha r')
        r

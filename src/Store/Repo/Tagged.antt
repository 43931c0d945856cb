-- ===== src/Store/Repo/Tagged.antt =====
-- AddTag: where a new tag leads.
use git_simulator.Base.{
  String, Bool, true, false, ◌≡◌, ℤ, if◌then◌else◌, some, string_eq, lookup, insert,
}
use git_simulator.Store.Git.{Git, hash}
use git_simulator.Store.Refs.{BranchState, resolve}
use git_simulator.Store.Objects.{ObjectLaws, as_read}
use git_simulator.Store.Repo.{Repo, tag_ref}
use git_simulator.Store.Repo.History.{Ancestry}
use git_simulator.Store.Repo.Tags.{tag_object}

module _ (g : Git) (objects : ObjectLaws g) where
  -- A lightweight tag is the commit, an annotated one a tag object that names it.
  abbrev pub LeadsTo : Bool → ℤ → String → String → g.State → g.Hash → Type 0
  LeadsTo false now name sha s target = target ≡ g.new_hash sha
  LeadsTo true now name sha s target =
      objects.object s target
      ≡ some (as_read objects.rounded (tag_object g now name (g.new_hash sha)))

  -- The tag `name` of the commit `sha`; `text` is the hash that the caller is told.
  pub record Points (annotated : Bool) (now : ℤ) (name sha text : String) (r : Repo g)
      : Type 0 where
    pub target : g.Hash
    pub told : text ≡ g.hash_string target
    pub reference : g.reference r.storer (tag_ref name) ≡ some (hash target)
    pub leads : LeadsTo annotated now name sha r.storer target
    pub recorded :
        lookup name r.tags
        ≡ some (record {
          commit_sha = sha;
          annotated = annotated;
          tag_obj_sha = if annotated then text else "";
        })

  -- The tag points to the commit that is visible on the branch, which can be cloned, and the
  -- branches are as a reader leaves them.
  pub record Tagged (annotated : Bool) (at_resolve at_tag : ℤ) (name b text : String)
      (r r' : Repo g) : Type 0 where
    pub before : BranchState
    pub found : lookup b r.branches ≡ some before
    pub points : Points annotated at_tag name (resolve at_resolve before).1 text r'
    pub history : Ancestry g objects r'.storer (resolve at_resolve before).1
    pub branches : r'.branches ≡ insert b (resolve at_resolve before).0 r.branches

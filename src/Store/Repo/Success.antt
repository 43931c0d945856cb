-- ===== src/Store/Repo/Success.antt =====
-- AddCommit succeeds on a branch that is there, for files whose paths the encoding takes.
use git_simulator.Base.{string_eq}
use git_simulator.Store.Git.{Git}
use git_simulator.Store.Repo.{Repo}

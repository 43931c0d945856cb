-- ===== src/Store.antt =====
-- pkg/store: the repositories, their branches and their tags.
pub mod Git
pub mod Objects
pub mod Refs
pub mod Commit
pub mod Repo
pub mod Registry
pub mod Toy
mod Tests
mod CommitTests

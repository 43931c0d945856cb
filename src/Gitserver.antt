-- ===== src/Gitserver.antt =====
-- pkg/gitserver: which repository a git client's request is for, and its references brought up to date.
pub mod Paths
pub mod Serve
mod Tests
mod PackTests
pub mod Pack
pub mod ToyPacks

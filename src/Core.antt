-- ===== src/Core.antt =====
-- pkg/core: what the other packages share.
mod Tests
mod DirTests
pub mod Errors
pub mod Exec
pub mod Content
pub mod Clock
pub mod Provider
pub mod LocalDir

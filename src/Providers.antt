-- ===== src/Providers.antt =====
-- The packages of pkg/provider.
pub mod Registry
pub mod Bytes
pub mod Library
pub mod Github
pub mod Gitlab
pub mod Bitbucket
pub mod BitbucketServer
pub mod Gogs
pub mod AzureDevOps
pub mod Vendors
pub mod Toy
mod Tests

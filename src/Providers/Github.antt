-- ===== src/Providers/Github.antt =====
-- pkg/provider/github.
pub mod Api
pub mod Webhook

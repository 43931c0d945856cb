-- ===== src/Scenario.antt =====
-- pkg/scenario: scripted pushes and webhooks, over any repository and any way to post a webhook.
pub mod Order
pub mod Env
pub mod Pushes
pub mod PushN
pub mod Mixed
pub mod Race
pub mod Stays
mod Tests

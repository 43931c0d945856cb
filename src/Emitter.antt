-- ===== src/Emitter.antt =====
-- pkg/emitter: webhooks are posted with retries, one by one or in a batch.
pub mod World
pub mod Send
pub mod Batch
pub mod Retry
pub mod OnTime
pub mod Results
mod Tests

-- ===== src/Outbox.antt =====
-- internal/platform/events/outbox
pub mod Queue
pub mod Conserve
pub mod Healthy
pub mod Deliver
mod Tests

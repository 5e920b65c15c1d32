-- ===== src/Consumer.antt =====
-- internal/consumer.
pub mod Postgres
pub mod Backoff
pub mod Headers
pub mod Handler
pub mod Run

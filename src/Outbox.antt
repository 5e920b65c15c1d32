-- ===== src/Outbox.antt =====
-- internal/outbox.
pub mod Postgres
pub mod Publisher

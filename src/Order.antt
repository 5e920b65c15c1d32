-- ===== src/Order.antt =====
-- Orders: their model, their store, their service and their HTTP handlers.
pub mod Model
pub mod Store
pub mod Service
pub mod Http

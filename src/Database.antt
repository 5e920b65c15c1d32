-- ===== src/Database.antt =====
-- migrations/000001_init.up.sql: the tables, with the constraints that an INSERT meets, and the
-- transactions of the repositories. What the server answers is not chosen here: `Reply` and
-- `CommitReply` are arguments of every call. Columns that no query of the program reads back as bytes
-- of its own (the JSONB payload, the rounding of TIMESTAMPTZ) go through `Server`.
use wb_orders.Base.{ℕ, ◌≡◌, Bool, true, false, List, [], Option, Result, ok, err}
use wb_orders.Base.Int.{ℤ}
use wb_orders.Base.Text.{Bytes}
use wb_orders.Event.{Uuid, Time}
use wb_orders.Order.Model.{Status}
pub mod Transactions
pub mod Inserts
pub mod Queries

-- The table `orders`.
pub record OrderRow : Type 0 where
  pub id : Uuid
  pub customer_id : Uuid
  pub warehouse_id : Uuid
  pub status : Status
  pub currency : Bytes
  pub total_amount_minor : ℤ
  pub created_at : Time
  pub updated_at : Time

-- The table `order_items`.
pub record ItemRow : Type 0 where
  pub order_id : Uuid
  pub sku : Bytes
  pub quantity : ℤ
  pub unit_price_minor : ℤ

-- The type `outbox_status`.
pub data OutboxStatus : Type 0 where
  pending processing published failed : OutboxStatus

-- The table `outbox_events`.
pub record OutboxRow : Type 0 where
  pub id : Uuid
  pub aggregate_id : Uuid
  pub event_type : Bytes
  pub payload : Bytes
  pub status : OutboxStatus
  pub created_at : Time
  pub published_at : Option Time
  pub attempts : ℕ
  pub next_attempt_at : Time
  pub locked_by : Option Bytes
  pub locked_until : Option Time
  pub last_error : Option Bytes

-- The table `processed_events`.
pub record ProcessedRow : Type 0 where
  pub event_id : Uuid
  pub consumer_name : Bytes
  pub processed_at : Time

pub record Db : Type 0 where
  pub orders : List OrderRow
  pub order_items : List ItemRow
  pub outbox_events : List OutboxRow
  pub processed_events : List ProcessedRow

-- A statement is carried out, or fails for a reason of the server's or the connection's.
pub data Reply : Type 0 where
  done broken : Reply

-- COMMIT is acknowledged, or refused, or carried out with the acknowledgement lost.
pub data CommitReply : Type 0 where
  committed refused unacknowledged : CommitReply

-- ===== src/Outbox/Publisher/Topic.antt =====
-- Which topic an event goes to.
use wb_orders.Base.{◌≡◌, arith, inl, inr, Bool-cases, some}
use wb_orders.Base.Text.{Bytes, bytes_eq, bytes_eq_iff}
use wb_orders.Event.{order_created, order_status_changed}
use wb_orders.Outbox.Publisher.{Topics, topic_for}

module _ (topics : Topics) where
  -- The topic of an event's type.
  pub data IsTopicOf (kind topic : Bytes) : Type 0 where
    created : kind ≡ order_created → topic ≡ topics.order_created → IsTopicOf kind topic
    changed :
        kind ≡ order_status_changed → topic ≡ topics.order_status_changed → IsTopicOf kind topic

  pub topic_for-IsTopicOf :
      (kind topic : Bytes) → topic_for topics kind ≡ some topic → IsTopicOf kind topic
  unfolding topic_for
  topic_for-IsTopicOf kind topic h = elim (Bool-cases (bytes_eq kind order_created)) [
    | inl first ↦ created ((bytes_eq_iff kind order_created).0 first) (ground arith)
    | inr other ↦ elim (Bool-cases (bytes_eq kind order_status_changed)) [
      | inl second ↦ changed ((bytes_eq_iff kind order_status_changed).0 second) (ground arith)
      | inr neither ↦ absurd (ground arith)
    ]
  ]

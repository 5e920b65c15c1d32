-- ===== src/Outbox/Publisher/Batch/Results.antt =====
-- What a batch of the publisher that ends without an error has done.
use wb_orders.WorkerPool
use wb_orders.Outbox.Publisher.Fate.{Fate}

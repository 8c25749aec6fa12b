-- ===== src/Worker.antt =====
-- The worker: worker/main.py, worker/outbox.py and worker/dlq_replayer.py.
pub mod Envelope
pub mod Route
pub mod Job
pub mod Ingress
pub mod Response
pub mod Orders
pub mod Cached
pub mod Persist
pub mod Outbox
pub mod Status
pub mod Transaction
pub mod World
pub mod Handle
pub mod Batch
pub mod Notice
pub mod Notify
pub mod Rejection
pub mod Consume
pub mod Replayer

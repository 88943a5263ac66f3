-- ===== src/Reconcile.antt =====
-- apps/api/app/services/reconciliation_backoff.py and reconciliation_queue.py: how long an order that
-- nothing has settled waits until the broker is asked about it again.
pub mod Backoff
pub mod Queue
pub mod Owners
mod Tests

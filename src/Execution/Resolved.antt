-- ===== src/Execution/Resolved.antt =====
-- apps/api/app/execution/engine.py: what `reconcile_unknown_submission` makes of an order.
use t212_cashguard.Execution.Unknown.{Resolution}

-- ===== src/Store.antt =====
-- apps/api/app/db/models/__init__.py: the rows that the modelled code reads and writes, with the
-- columns that it names. A row is generic in the type `N` of decimal numbers. Times are whole
-- microseconds since 1970 UTC; the identifiers, which are only compared, are numbers.
use t212_cashguard.Common.{ℕ, Bool, Option, String, List}
use t212_cashguard.Lifecycle.{Status}

pub record Order (N : Type 0) : Type 0 where
  pub id : ℕ
  pub ticker : String
  pub side : String
  pub order_type : String
  pub quantity : N
  pub status : Status
  pub broker_order_id : Option String
  pub filled_quantity : Option N
  pub execution_environment : Option String
  pub broker_account_scope : Option String
  pub filled_at : Option ℕ
  pub cancelled_at : Option ℕ
  pub rejected_at : Option ℕ
  pub venue : String
  pub is_dry_run : Bool
  pub cash_used : Option N
  pub retry_count : ℕ
  pub last_reconciled_at : Option ℕ
  pub created_at : ℕ
  pub updated_at : ℕ
  pub signal_id : Option ℕ
  pub client_order_key : String
  pub limit_price : Option N
  pub stop_price : Option N
  pub time_validity : String
  pub avg_fill_price : Option N
  pub expected_fill_price : Option N
  pub available_cash_at_submission : Option N
  pub submitted_at : Option ℕ
  pub first_ack_at : Option ℕ
  pub error_message : Option String
  pub version : ℕ

-- One request to the broker for an order.
pub record OrderSubmissionAttempt : Type 0 where
  pub id : ℕ
  pub order_id : ℕ
  pub dispatch_committed_at : ℕ
  pub outcome : Option String

pub record Trade (N : Type 0) : Type 0 where
  pub ticker : String
  pub realized_pnl : Option N
  pub closed_at : Option ℕ
  pub is_dry_run : Bool

pub record RiskProfile (N : Type 0) : Type 0 where
  pub max_daily_loss_pct : N
  pub max_open_positions : ℕ
  pub max_position_size_pct : N
  pub max_trades_per_day : ℕ
  pub stop_after_consecutive_losses : ℕ
  pub symbol_cooldown_seconds : ℕ
  pub max_risk_per_trade_pct : N
  pub cfd_max_risk_per_trade_pct : Option N
  pub cfd_max_daily_loss_pct : Option N
  pub min_free_margin_pct : N
  pub cfd_max_leverage : N
  pub is_default : Bool

pub record AppSettings : Type 0 where
  pub auto_trading_enabled : Bool
  pub kill_switch_active : Bool

pub record RiskEvent : Type 0 where
  pub event_type : String
  pub ticker : Option String
  pub signal_id : Option ℕ

-- A dictionary whose values are texts or `None`, in insertion order.
abbrev pub Payload : Type 0
Payload = List (String × Option String)

pub record OrderEvent : Type 0 where
  pub id : ℕ
  pub order_id : ℕ
  pub event_type : String
  pub from_status : Status
  pub to_status : Status
  pub payload : Payload
  pub occurred_at : ℕ

pub record AuditLog : Type 0 where
  pub id : ℕ
  pub action : String
  pub entity_type : String
  pub entity_id : ℕ
  pub actor : String
  -- The keys of the payload that this code writes.
  pub event_type : String
  pub from_status : Status
  pub to_status : Status
  pub reason : String
  pub correlation_id : Option String
  pub occurred_at : ℕ

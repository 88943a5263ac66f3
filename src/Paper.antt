-- ===== src/Paper.antt =====
-- apps/api/app/execution/paper_engine.py and paper_policy.py: orders that are filled on paper. This
-- file has what the methods share: the user's paper account as a session sees it, and a method as a
-- function from the session to a result and the session after it. Texts of reasons, the payloads of
-- audits and events, latencies and execution quality are left out.
pub mod Policy
pub mod Ledger
pub mod Execute
pub mod FollowUp
pub mod Rules
pub mod Refused
pub mod Sound
pub mod Kept
pub mod Accounts
pub mod Reached
pub mod FollowedUp
pub mod Operations
pub mod Submit
pub mod Recorded
pub mod Submitted
mod Tests
use t212_cashguard.Common.{
  ℕ, ◌+◌, Bool, true, false, ◌||◌, Option, none, some, String, List, [], ◌∷◌, ◌++◌, str_eq,
  if◌then◌else◌,
}
use t212_cashguard.Store.{Order}
use t212_cashguard.Lifecycle.{Status}
use t212_cashguard.Lifecycle.Evidence.{
  Outcome, returned, invalid_order_transition, value_error, Staged, Evidence,
  transition_order_status_with_evidence,
}
use t212_cashguard.Risk.{Db}

-- A value of a row's `raw`: a key that is missing or empty, a text that cannot be read, or a value.
pub data Noted : Type 0 where
  absent : Noted
  unreadable : Noted
  noted : ℕ → Noted

-- `PositionSnapshot`, with the two keys of `raw` that are read again.
pub record PositionSnapshot (N : Type 0) : Type 0 where
  pub ticker : String
  pub quantity : N
  pub avg_price : N
  pub current_price : Option N
  pub unrealized_pnl : Option N
  pub quantity_available : Option N
  pub position_open_order_id : Noted
  pub position_opened_at : Noted
  pub snapshotted_at : ℕ

-- `BrokerAccountSnapshot`
pub record AccountSnapshot (N : Type 0) : Type 0 where
  pub total_value : N
  pub cash : N
  pub free_funds : N
  pub invested : N
  pub result : N

-- `Trade`, as a paper sale writes it.
pub record PaperTrade (N : Type 0) : Type 0 where
  pub ticker : String
  pub open_order_id : Option ℕ
  pub close_order_id : ℕ
  pub quantity : N
  pub open_price : N
  pub close_price : N
  pub realized_pnl : N
  pub opened_at : ℕ
  pub closed_at : ℕ

-- The rows of one user's paper connection, the newest first, as the queries order them.
pub record Book (N : Type 0) : Type 0 where
  pub positions : List (PositionSnapshot N)
  pub accounts : List (AccountSnapshot N)
  pub trades : List (PaperTrade N)

-- A row of `orders`, with the columns that only the paper engine uses.
pub record PaperOrder (N : Type 0) : Type 0 where
  pub row : Order N
  pub fee_amount : Option N
  -- `broker_request["paper_connection_id"]`
  pub paper_connection_id : Option ℕ

-- A row of `_audit`, and one of `_order_event`.
pub record PaperAudit : Type 0 where
  pub action : String
  pub decision_code : Option String

pub record PaperEvent : Type 0 where
  pub event_type : String
  pub from_status : Option Status
  pub to_status : Option Status

-- A session: the paper account, the order at hand, the rows staged, the audit rows that another
-- connection has committed, and the database as the risk engine sees it.
pub record Session (N : Type 0) : Type 0 where
  pub book : Book N
  pub order : Option (PaperOrder N)
  pub staged : Staged
  pub events : List PaperEvent
  pub audits : List PaperAudit
  pub durable_audits : List PaperAudit
  pub risk : Db N
  pub next_id : ℕ
  pub now : ℕ

pub data Raised : Type 0 where
  -- `PaperExecutionError` with its status code.
  paper_execution_error : ℕ → Raised
  -- `PaperBusinessRefusal` with its decision code.
  paper_business_refusal : String → Raised
  -- `ValueError`
  bad_value : Raised
  -- `InvalidOrderTransition`
  bad_transition : Raised
  -- What the risk engine raises besides a `RiskViolation`.
  risk_engine_error : Raised

pub data Result (A : Type 0) : Type 0 where
  done : A → Result A
  failed : Raised → Result A

abbrev pub Method : Type 0 → Type 0 → Type 0
Method N A = Session N → Result A × Session N

abbrev pub continue :
    {N A B : Type 0} → (A → Method N B) → Result A × Session N → Result B × Session N
continue f (done a, s) = f a s
continue f (failed e, s) = (failed e, s)

infixl 5 ◌>>=◌ ◌>>◌
unfoldable pub ◌>>=◌ : {N A B : Type 0} → Method N A → (A → Method N B) → Method N B
◌>>=◌ m f s = continue f (m s)

abbrev pub ◌>>◌ : {N B : Type 0} → Method N (Unit {0}) → Method N B → Method N B
m >> k = m >>= λ _. k

-- The surroundings of a call.
pub record Around : Type 0 where
  -- `settings.APP_MODE`
  pub app_mode : String
  -- Whether another connection acknowledges the commit of a rejection.
  pub durable_available : Bool
  -- `self._client_order_key`, a hash of the request and a fresh identifier.
  pub client_order_key : String
  pub connection_id : ℕ
  -- `user.email` and `f"paper:mock:user:{user.id}"`
  pub email : String
  pub account_scope : String

-- `DURABLE_PAPER_REJECTION_ACTIONS`
abbrev pub is_durable : String → Bool
is_durable action =
    str_eq action "paper_follow_up_fill_blocked" || str_eq action "paper_sell_fill_blocked"

-- What a transition's outcome makes of the order that it leaves.
abbrev pub result_of : {A B : Type 0} → Outcome A → B → Result B
result_of (returned _) b = done b
result_of invalid_order_transition b = failed bad_transition
result_of value_error b = failed bad_value

module _ {N : Type 0} where
  unfoldable pub return : {A : Type 0} → A → Method N A
  return a s = (done a, s)

  unfoldable pub raise : {A : Type 0} → Raised → Method N A
  raise e s = (failed e, s)

  unfoldable pub gets : {A : Type 0} → (Session N → A) → Method N A
  gets f s = (done (f s), s)

  -- `_audit`: a rejection's row is committed on another connection, or the audit fails.
  unfoldable pub audit : Around → String → Option String → Method N (Unit {0})
  audit around action code s =
      let row : PaperAudit = record { action = action; decision_code = code } in
      if is_durable action
      then (if around.durable_available
          then (done tt, record s { durable_audits = s.durable_audits ++ row ∷ [] })
          else (failed (paper_execution_error 503), s))
      else (done tt, record s { audits = s.audits ++ row ∷ [] })

  -- `_order_event`
  unfoldable pub order_event : String → Option Status → Option Status → Method N (Unit {0})
  order_event event_type from_status to_status s =
      let row : PaperEvent = record {
        event_type = event_type;
        from_status = from_status;
        to_status = to_status;
      } in
      (done tt, record s { events = s.events ++ row ∷ [] })

  abbrev pub evidence_of : Around → Session N → Order N → String → String → Evidence
  evidence_of around s row event_type reason = record {
    event_type = event_type;
    reason = reason;
    actor = around.email;
    correlation_id = some row.client_order_key;
    payload = [];
    event_id = s.next_id;
    audit_id = s.next_id + 1;
    now = s.now;
  }

  -- `transition_order_status_with_evidence` on the order at hand, with its order as it leaves it.
  unfoldable pub transition :
      Around → PaperOrder N → Status → String → String → Method N (PaperOrder N)
  transition around order to_status event_type reason s =
      let (out, row, staged) =
        transition_order_status_with_evidence s.staged order.row to_status
          (evidence_of around s order.row event_type reason) in
      let after = record order { row = row } in
      (
        result_of out after,
        record s { order = some after; staged = staged; next_id = s.next_id + 2 },
      )

  -- Assignments to attributes of the order at hand.
  unfoldable pub write : PaperOrder N → Method N (Unit {0})
  write order s = (done tt, record s { order = some order })

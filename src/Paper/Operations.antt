-- ===== src/Paper/Operations.antt =====
-- apps/api/app/execution/paper_operations.py: paper commands that name themselves, and what is kept of
-- them. The locks, the limits on time and the digest of a request are left out; texts of details too.
use t212_cashguard.Common.{
  ℕ, Bool, true, false, ◌&&◌, Option, none, some, String, List, [], ◌∷◌, ◌==◌, str_eq,
  if◌then◌else◌,
}
use t212_cashguard.Paper.{PaperOrder, Session}
use t212_cashguard.Paper.Policy.{PaperSimulationProfile, standard, partial_fill, no_liquidity}
use t212_cashguard.Paper.Execute.{PaperOrderCreate}

-- A request with its operation's identifier, and what `execute` does not read of it.
pub record Command (N : Type 0) : Type 0 where
  pub operation_id : Option ℕ
  pub body : PaperOrderCreate N
  pub strategy : Option String
  pub source : String

-- `PaperOperationReceipt`; its canonical request is the command but for the identifier.
pub record Receipt (N : Type 0) : Type 0 where
  pub user_id : ℕ
  pub operation : ℕ
  pub request_version : ℕ
  pub canonical_request : Command N
  pub outcome : String
  pub http_status : ℕ
  pub decision_code : Option String
  pub order_id : Option ℕ
  pub completed_at : ℕ

-- What is committed: the receipts, the paper orders, and the rest as a session reads it.
pub record PaperStore (N : Type 0) : Type 0 where
  pub receipts : List (Receipt N)
  pub orders : List (PaperOrder N)
  pub session : Session N

-- The dictionary of `_view`.
pub record View (N : Type 0) : Type 0 where
  pub operation_id : ℕ
  pub outcome : String
  pub recorded_at : ℕ
  pub original_http_status : ℕ
  pub replayed : Bool
  pub decision_code : Option String
  pub order : Option (PaperOrder N)

pub data Body (N : Type 0) : Type 0 where
  detail : String → Body N
  viewed : View N → Body N

pub record OperationResult (N : Type 0) : Type 0 where
  pub status_code : ℕ
  pub payload : Body N

-- How a commit ends: it is acknowledged, it is done and its acknowledgement is lost, or it fails.
pub data Commit : Type 0 where
  acknowledged : Commit
  acknowledgement_lost : Commit
  not_committed : Commit

-- The surroundings of a submission; `readable` is whether the recovery may read in time.
pub record Conditions : Type 0 where
  pub is_postgresql : Bool
  pub is_read_committed : Bool
  pub is_active_admin : Bool
  pub commit_end : Commit
  pub readable : Bool

-- A submission without a result raises an exception; what is committed then is there all the same.
pub data Attempt (N : Type 0) : Type 0 where
  answered : OperationResult N → PaperStore N → Attempt N
  broken : PaperStore N → Attempt N

abbrev pub same_text : Option String → Option String → Bool
same_text none none = true
same_text (some a) (some b) = str_eq a b
same_text none (some b) = false
same_text (some a) none = false

abbrev pub same_profile : PaperSimulationProfile → PaperSimulationProfile → Bool
same_profile standard standard = true
same_profile partial_fill partial_fill = true
same_profile no_liquidity no_liquidity = true
same_profile standard partial_fill = false
same_profile standard no_liquidity = false
same_profile partial_fill standard = false
same_profile partial_fill no_liquidity = false
same_profile no_liquidity standard = false
same_profile no_liquidity partial_fill = false

module _ {N : Type 0} where
  abbrev pub result_with : ℕ → Body N → OperationResult N
  result_with code payload = record { status_code = code; payload = payload }

  -- `_unconfirmed`
  abbrev pub unconfirmed_result : OperationResult N
  unconfirmed_result = result_with 503 (detail "unconfirmed")

  abbrev pub other_inputs : OperationResult N
  other_inputs = result_with 409 (detail "other inputs")

  -- `_receipt`
  abbrev pub is_for : ℕ → ℕ → Receipt N → Bool
  is_for owner operation r = r.user_id == owner && r.operation == operation

  unfoldable pub receipt_of : ℕ → ℕ → List (Receipt N) → Option (Receipt N)
  receipt_of owner operation [] = none
  receipt_of owner operation (r ∷ rs) =
      let rest = receipt_of owner operation rs in if is_for owner operation r then some r else rest

  unfoldable pub order_with : ℕ → List (PaperOrder N) → Option (PaperOrder N)
  order_with id [] = none
  order_with id (o ∷ os) = let rest = order_with id os in if o.row.id == id then some o else rest

  abbrev pub view_of : Receipt N → Bool → Option (PaperOrder N) → View N
  view_of r replayed order = record {
    operation_id = r.operation;
    outcome = r.outcome;
    recorded_at = r.completed_at;
    original_http_status = r.http_status;
    replayed = replayed;
    decision_code = r.decision_code;
    order = order;
  }

  abbrev pub view_found : Receipt N → Bool → Option (PaperOrder N) → Option (View N)
  view_found r replayed none = none
  view_found r replayed (some order) = some (view_of r replayed (some order))

  abbrev pub view_ordered : Receipt N → Bool → List (PaperOrder N) → Option ℕ → Option (View N)
  view_ordered r replayed orders none = some (view_of r replayed none)
  view_ordered r replayed orders (some id) = view_found r replayed (order_with id orders)

  -- `_view`; none where a receipt's order is gone.
  unfoldable pub view : PaperStore N → Receipt N → Bool → Option (View N)
  unfolding order_with
  view w r replayed = view_ordered r replayed w.orders r.order_id

  -- `_submit_result`
  abbrev pub submit_result : View N → OperationResult N
  submit_result v =
      result_with
        (if v.replayed && str_eq v.outcome "order_recorded" then 200 else v.original_http_status)
        (viewed v)

  abbrev look_at : Option (View N) → Option (OperationResult N)
  look_at none = none
  look_at (some v) = some (result_with 200 (viewed v))

  abbrev looked_up : PaperStore N → Option (Receipt N) → Option (OperationResult N)
  looked_up w none = some (result_with 404 (detail "no receipt"))
  looked_up w (some r) = look_at (view w r true)

  -- `lookup`; none where `_view` raises.
  unfoldable pub look_up : PaperStore N → ℕ → ℕ → Option (OperationResult N)
  unfolding receipt_of view
  look_up w owner operation = looked_up w (receipt_of owner operation w.receipts)

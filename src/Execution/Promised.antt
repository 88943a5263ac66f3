-- ===== src/Execution/Promised.antt =====
-- apps/api/app/execution/engine.py: what a new order adds to the cash that is promised.
use t212_cashguard.Common.{
  ◌≡◌, refl, ◌∙◌, ℕ, true, false, Option, none, some, String, List, ◌∷◌, str_eq, eq_iff,
}
use t212_cashguard.Common.Numeric.{Decimals}
use t212_cashguard.Store.{Order}
use t212_cashguard.Lifecycle.{known, pending_intent, is_active_status, is_terminal_status}
use t212_cashguard.Cash.{
  Account, cash_promised_elsewhere, counts_against, same_account, same_environment,
  not_shown_in_a_reading_from,
}
use t212_cashguard.Execution.Intent.{Wanted, account_of, environment_of, cash_used}
use t212_cashguard.Execution.Create.{new_order}

module _ (D : Decimals) where
  open D use {Num, less, add}

  own_account :
      (scope : Option String) (order : Order Num)
      → order.broker_account_scope ≡ scope
      → same_account scope order ≡ true
  unfolding same_account
  own_account none order e = refl
  own_account (some t) order e = rw e ((eq_iff t t).1 refl)

  own_environment :
      (environment : String) (order : Order Num)
      → order.execution_environment ≡ some environment
      → same_environment (some environment) order ≡ true
  unfolding same_environment
  own_environment t order e = rw e ((eq_iff t t).1 refl)

  active-Unshown :
      (t : ℕ) (order : Order Num)
      → order.status ≡ known pending_intent
      → not_shown_in_a_reading_from t order ≡ true
  unfolding not_shown_in_a_reading_from is_active_status is_terminal_status
  active-Unshown t order e = rw e refl

  -- An open real buy of an account counts against it.
  open_buy-Counts :
      (account : Account) (environment : String) (t : ℕ) (cost : Num) (order : Order Num)
      → account.environment ≡ some environment
      → str_eq order.side "buy" ≡ true
      → order.is_dry_run ≡ false
      → order.venue ≡ account.venue
      → order.cash_used ≡ some cost
      → order.execution_environment ≡ some environment
      → order.broker_account_scope ≡ account.account_scope
      → order.status ≡ known pending_intent
      → counts_against account t order ≡ true
  unfolding counts_against
  open_buy-Counts account environment t cost order ae buy wet venue used env scope pending =
      rw
        (
          ae,
          own_environment environment order env,
          own_account account.account_scope order scope,
          active-Unshown t order pending,
          (eq_iff order.venue account.venue).1 venue,
          buy,
          wet,
          used,
        )
        refl

  new_order-Counts :
      (w : Wanted Num) (id now t : ℕ) (cost : Num)
      → str_eq w.side "buy" ≡ true
      → w.is_dry_run ≡ false
      → cash_used D w ≡ some cost
      → counts_against (account_of w) t (new_order D w id now) ≡ true
  unfolding new_order
  new_order-Counts w id now t cost buy wet e =
      open_buy-Counts (account_of w) (environment_of w) t cost (new_order D w id now) refl buy wet
        refl e refl refl refl

  new_order-cash : (w : Wanted Num) (id now : ℕ) → (new_order D w id now).cash_used ≡ cash_used D w
  unfolding new_order
  new_order-cash w id now = refl

  pub promised_with :
      (w : Wanted Num) (id now t : ℕ) (cost : Num) (orders : List (Order Num))
      → str_eq w.side "buy" ≡ true
      → w.is_dry_run ≡ false
      → cash_used D w ≡ some cost
      → cash_promised_elsewhere D (account_of w) t (new_order D w id now ∷ orders)
        ≡ add cost (cash_promised_elsewhere D (account_of w) t orders)
  unfolding cash_promised_elsewhere
  promised_with w id now t cost orders buy wet e =
      rw (new_order-Counts w id now t cost buy wet e, new_order-cash w id now ∙ e) refl

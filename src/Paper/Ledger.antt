-- ===== src/Paper/Ledger.antt =====
-- apps/api/app/execution/paper_engine.py: the positions and the cash of a paper account, and what a
-- fill makes of them. A dictionary by ticker is an association list in the order of its insertions.
use t212_cashguard.Common.{
  ℕ, Bool, false, ◌&&◌, ◌||◌, Option, none, some, String, List, [], ◌∷◌, ◌++◌, select, length,
  str_eq, ◌==◌, if◌then◌else◌,
}
use t212_cashguard.Common.Numeric.{Decimals, zero_of, is_positive, min_of}
use t212_cashguard.Store.{Order}
use t212_cashguard.Paper.{
  Noted, absent, unreadable, noted, PositionSnapshot, AccountSnapshot, PaperTrade, Book,
  paper_execution_error, bad_value, done, Method, ◌>>=◌, ◌>>◌, Around, return, raise, gets, audit,
}
use t212_cashguard.Paper.Policy.{PaperFillDecision}

abbrev pub lookup : {A : Type 0} → String → List (String × A) → Option A
lookup key [] = none
lookup key ((k, a) ∷ rest) = if str_eq key k then some a else lookup key rest

abbrev pub has_key : {A : Type 0} → String → List (String × A) → Bool
has_key key [] = false
has_key key ((k, _) ∷ rest) = str_eq key k || has_key key rest

-- `d.setdefault(key, a)`
abbrev pub set_default : {A : Type 0} → String → A → List (String × A) → List (String × A)
set_default key a d = if has_key key d then d else d ++ (key, a) ∷ []

module _ (D : Decimals) where
  open D use {Num, literal, add, sub, mul, div, negate, quantize, less}

  -- `PAPER_STARTING_CASH`
  abbrev pub starting_cash : Num
  starting_cash = literal 100_000 0

  abbrev pub value_or_zero : Option Num → Num
  value_or_zero none = zero_of D
  value_or_zero (some n) = n

  -- `_sellable_paper_quantity` of a position that is there.
  unfoldable pub sellable_of : PositionSnapshot Num → Num
  sellable_of position = elim position.quantity_available [
    | none ↦ position.quantity
    | some available ↦ min_of D position.quantity available
  ]

  unfoldable pub sellable_paper_quantity : Option (PositionSnapshot Num) → Num
  sellable_paper_quantity none = zero_of D
  sellable_paper_quantity (some position) = sellable_of position

  module _ (upper : String → String) where
    abbrev pub latest_from :
        List (String × PositionSnapshot Num)
        → List (PositionSnapshot Num)
        → List (String × PositionSnapshot Num)
    latest_from d [] = d
    latest_from d (r ∷ rest) = latest_from (set_default (upper r.ticker) r d) rest

    unfoldable pub latest_paper_positions : Book Num → List (String × PositionSnapshot Num)
    latest_paper_positions book = latest_from [] book.positions

    unfoldable pub current_open_paper_positions_count : Book Num → ℕ
    unfolding latest_paper_positions
    current_open_paper_positions_count book =
        length (select (λ entry. is_positive D entry.1.quantity) (latest_paper_positions book))

  -- `_latest_paper_account`
  abbrev first_of : List (AccountSnapshot Num) → Option (AccountSnapshot Num)
  first_of [] = none
  first_of (a ∷ _) = some a

  unfoldable pub latest_paper_account : Book Num → Option (AccountSnapshot Num)
  latest_paper_account book = first_of book.accounts

  -- The cash and the value of the latest account, or those that an account starts with.
  abbrev cash_of_account : Option (AccountSnapshot Num) → Num
  cash_of_account none = starting_cash
  cash_of_account (some a) = a.cash

  unfoldable pub cash_of : Book Num → Num
  cash_of book = cash_of_account (latest_paper_account book)

  abbrev value_of_account : Option (AccountSnapshot Num) → Num
  value_of_account none = starting_cash
  value_of_account (some a) = a.total_value

  unfoldable pub value_of : Book Num → Num
  value_of book = value_of_account (latest_paper_account book)

  -- The loop that the `try` of `_apply_fill_effects` stands for: when the position was opened, and by
  -- which order.
  abbrev open_order_of : Order Num → PositionSnapshot Num → ℕ → Noted → Option ℕ × ℕ
  open_order_of order previous opened_at absent = (none, opened_at)
  open_order_of order previous opened_at unreadable = (none, previous.snapshotted_at)
  open_order_of order previous opened_at (noted id) =
      (if str_eq order.side "sell" || id == order.id then some id else none, opened_at)

  abbrev opened_of : Order Num → PositionSnapshot Num → Noted → Option ℕ × ℕ
  opened_of order previous absent =
      open_order_of order previous previous.snapshotted_at previous.position_open_order_id
  opened_of order previous unreadable = (none, previous.snapshotted_at)
  opened_of order previous (noted t) =
      open_order_of order previous t previous.position_open_order_id

  abbrev new_opening : Order Num → ℕ → Option ℕ × ℕ
  new_opening order now = (if str_eq order.side "buy" then some order.id else none, now)

  unfoldable pub opening_of : Order Num → Option (PositionSnapshot Num) → ℕ → Option ℕ × ℕ
  opening_of order none now = new_opening order now
  opening_of order (some previous) now =
      if is_positive D previous.quantity
      then opened_of order previous previous.position_opened_at
      else new_opening order now

  abbrev noted_or_absent : Option ℕ → Noted
  noted_or_absent none = absent
  noted_or_absent (some id) = noted id

  -- The previous position's quantity and average price, where there is one.
  abbrev pub previous_quantity_of : Option (PositionSnapshot Num) → Num
  previous_quantity_of none = zero_of D
  previous_quantity_of (some p) = p.quantity

  abbrev previous_avg_of : Option (PositionSnapshot Num) → Num → Num
  previous_avg_of none fill_price = fill_price
  previous_avg_of (some p) fill_price = p.avg_price

  -- A fill at a price, of a quantity, for a fee.
  pub record Fill : Type 0 where
    pub order : Order Num
    pub previous : Option (PositionSnapshot Num)
    pub fill_price : Num
    pub filled_quantity : Num
    pub fee_amount : Num
    pub quote_price : Num

  abbrev pub buys : Fill → Bool
  buys f = str_eq f.order.side "buy"

  abbrev gross_of : Fill → Num
  gross_of f = mul f.fill_price f.filled_quantity

  unfoldable pub cash_after : Num → Fill → Num
  cash_after cash_before f =
      let delta =
        if buys f then negate (add (gross_of f) f.fee_amount) else sub (gross_of f) f.fee_amount in
      quantize 8 (add cash_before delta)

  unfoldable pub new_quantity : Fill → Num
  new_quantity f =
      let before = previous_quantity_of f.previous in
      if buys f then add before f.filled_quantity else sub before f.filled_quantity

  unfoldable pub new_available_quantity : Fill → Num
  new_available_quantity f =
      let available = sellable_paper_quantity f.previous in
      if buys f then add available f.filled_quantity else sub available f.filled_quantity

  unfoldable pub new_avg : Fill → Num
  new_avg f =
      let before = previous_quantity_of f.previous in
      let previous_avg = previous_avg_of f.previous f.fill_price in
      let paid = add (add (mul before previous_avg) (gross_of f)) f.fee_amount in
      if buys f
      then (if is_positive D (new_quantity f) then div paid (new_quantity f) else f.fill_price)
      else previous_avg

  unfoldable pub trade_of : Fill → ℕ → PaperTrade Num
  trade_of f now =
      let opening = opening_of f.order f.previous now in
      let previous_avg = previous_avg_of f.previous f.fill_price in
      record {
        ticker = f.order.ticker;
        open_order_id = opening.0;
        close_order_id = f.order.id;
        quantity = f.filled_quantity;
        open_price = previous_avg;
        close_price = f.fill_price;
        realized_pnl =
            quantize 8 (sub (mul (sub f.fill_price previous_avg) f.filled_quantity) f.fee_amount);
        opened_at = opening.1;
        closed_at = now;
      }

  unfoldable pub snapshot_of : Fill → ℕ → PositionSnapshot Num
  snapshot_of f now =
      let opening = opening_of f.order f.previous now in
      record {
        ticker = f.order.ticker;
        quantity = new_quantity f;
        avg_price = new_avg f;
        current_price = some f.quote_price;
        unrealized_pnl = some (quantize 8 (mul (sub f.quote_price (new_avg f)) (new_quantity f)));
        quantity_available = some (new_available_quantity f);
        position_open_order_id = noted_or_absent opening.0;
        position_opened_at = noted opening.1;
        snapshotted_at = now;
      }

  -- `row.quantity * (row.current_price if row.current_price is not None else row.avg_price)`
  abbrev value_of_position : PositionSnapshot Num → Num
  value_of_position p = elim p.current_price [
    | some price ↦ mul p.quantity price
    | none ↦ mul p.quantity p.avg_price
  ]

  -- `sum((...), Decimal("0"))` over the latest positions.
  abbrev invested_from : Num → List (String × PositionSnapshot Num) → Num
  invested_from total [] = total
  invested_from total ((_, p) ∷ rest) = invested_from (add total (value_of_position p)) rest

  module _ (upper : String → String) where
    unfoldable pub account_of : Book Num → Num → AccountSnapshot Num
    account_of book cash =
        let invested = quantize 8 (invested_from (zero_of D) (latest_paper_positions upper book)) in
        let total_value = quantize 8 (add cash invested) in
        record {
          total_value = total_value;
          cash = cash;
          free_funds = cash;
          invested = invested;
          result = quantize 8 (sub total_value starting_cash);
        }

    -- The rows that a fill adds.
    unfoldable pub book_after : Book Num → Fill → Num → ℕ → Book Num
    book_after book f cash now =
        let trades = if buys f then book.trades else trade_of f now ∷ book.trades in
        let held : Book Num = record book {
          positions = snapshot_of f now ∷ book.positions;
          trades = trades;
        } in
        record held { accounts = account_of held cash ∷ book.accounts }

    unfoldable pub enter_rows : Fill → Num → Method Num (Unit {0})
    enter_rows f cash s = (done tt, record s { book = book_after s.book f cash s.now })

    -- The end of `_apply_fill_effects`.
    unfoldable pub settle_fill : Around → Fill → Num → Method Num (Unit {0})
    settle_fill around f cash = do
      enter_rows f cash
      if buys f then return tt else audit around "paper_trade_closed" none
      audit around "paper_account_updated" none
      audit around "paper_position_updated" none

    unfoldable pub refuse_sale : Around → Method Num (Unit {0})
    refuse_sale around = do
      audit around "paper_sell_fill_blocked" (some "paper_oversell_block")
      raise (paper_execution_error 422)

    -- The checks of `_apply_fill_effects` on the account, whose latest cash is given.
    unfoldable pub fill_or_refuse : Around → Fill → Num → Method Num (Unit {0})
    fill_or_refuse around f cash_before =
        let cash = cash_after cash_before f in
        if str_eq f.order.side "sell" && less (sellable_paper_quantity f.previous) f.filled_quantity
        then refuse_sale around
        else if less cash (zero_of D)
        then raise (paper_execution_error 422)
        else settle_fill around f cash

    abbrev pub fill_at :
        Around
        → Order Num
        → PaperFillDecision Num
        → Num
        → Option (PositionSnapshot Num)
        → Method Num (Unit {0})
    fill_at around order decision fill_price previous =
        let f : Fill = record {
          order = order;
          previous = previous;
          fill_price = fill_price;
          filled_quantity = decision.filled_quantity;
          fee_amount = decision.fee_amount;
          quote_price = decision.quote_price;
        } in
        gets (λ s. cash_of s.book) >>= fill_or_refuse around f

    abbrev pub effects_of :
        Around → Order Num → PaperFillDecision Num → Option Num → Method Num (Unit {0})
    effects_of around order decision none = raise bad_value
    effects_of around order decision (some fill_price) =
        if is_positive D decision.filled_quantity
        then gets (λ s. lookup order.ticker (latest_paper_positions upper s.book))
          >>= fill_at around order decision fill_price
        else raise bad_value

    unfoldable pub apply_fill_effects :
        Around → Order Num → PaperFillDecision Num → Method Num (Unit {0})
    apply_fill_effects around order decision = effects_of around order decision decision.fill_price

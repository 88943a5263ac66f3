-- ===== src/Paper/Reached.antt =====
-- apps/api/app/execution/paper_engine.py: the accounts that can be reached, by orders and by
-- follow-up fills in any order, whatever each of them ends in.
use t212_cashguard.Common.{ℕ, Bool, not, Option, none, some, String, []}
use t212_cashguard.Common.Numeric.{Decimals, Floats}
use t212_cashguard.Store.{AppSettings}
use t212_cashguard.Paper.{Book, PaperOrder, Session, paper_execution_error, Around}
use t212_cashguard.Paper.Policy.{PaperFillDecision}
use t212_cashguard.Paper.Execute.{PaperOrderCreate, execute}
use t212_cashguard.Paper.FollowUp.{
  advance, enter_fill, block_fill, heed_switch, pay_for, fill_at_price, fill_quantity,
  fill_partial_order, is_active_partial, is_some_id,
}
use t212_cashguard.Paper.Rules.{
  Preserves, bind-Preserves, if-Preserves, audit-Preserves, raise-Preserves, gets-Preserves,
  return-Preserves, order_event-Preserves,
}
use t212_cashguard.Paper.Sound.{IsSigned, IsSound, sound, HasSide}
use t212_cashguard.Paper.Kept.{apply_fill_effects-Kept}
use t212_cashguard.Paper.Accounts.{transition-Kept, write-Kept, execute-Kept}

module _ (D : Decimals) (F : Floats (Decimals.Num D)) (fits : Decimals.Num D → Bool)
    (upper : String → String) where
  open D use {Num, quantize_down}

  module _ (around : Around) (signs : IsSigned D) where
    block_fill-Preserves :
        (code : String) → Preserves (sound D) (block_fill D fits upper around code)
    unfolding block_fill
    block_fill-Preserves code =
        bind-Preserves (sound D) _ _
          (audit-Preserves (sound D) around "paper_follow_up_fill_blocked" _)
          λ _. raise-Preserves (sound D) _ (paper_execution_error 422)

    advance-Preserves :
        (order : PaperOrder Num) (decision : PaperFillDecision Num) (now : ℕ)
        → Preserves (sound D) (advance D fits upper around order decision now)
    unfolding advance
    advance-Preserves order decision now =
        if-Preserves (sound D) _ _ _
          (bind-Preserves (sound D) _ _ (order_event-Preserves (sound D) _ _ _)
            λ _. return-Preserves (sound D) order)
          (bind-Preserves (sound D) _ _ (transition-Kept D F fits upper around signs order _ _ _)
            λ after. return-Preserves (sound D) _)

    enter_fill-Preserves :
        (order : PaperOrder Num) (decision : PaperFillDecision Num) (price : Num) (now : ℕ)
        → HasSide D order.row.side
        → Preserves (sound D) (enter_fill D fits upper around order decision price now)
    unfolding enter_fill
    enter_fill-Preserves order decision price now side =
        bind-Preserves (sound D) _ _
          (bind-Preserves (sound D) _ _
            (apply_fill_effects-Kept D upper signs around order.row decision side)
            λ _. advance-Preserves order decision now)
          λ after.
            bind-Preserves (sound D) _ _
              (bind-Preserves (sound D) _ _ (write-Kept D F fits upper around signs _)
                λ _. audit-Preserves (sound D) around "paper_follow_up_fill" none)
              λ _. return-Preserves (sound D) _

    heed_switch-Preserves :
        (order : PaperOrder Num) (decision : PaperFillDecision Num) (price : Num)
        → (settings : Option AppSettings) → HasSide D order.row.side
        → Preserves (sound D) (heed_switch D fits upper around order decision price settings)
    heed_switch-Preserves order decision price none side =
        block_fill-Preserves "safety_settings_missing"
    heed_switch-Preserves order decision price (some settings) side =
        if-Preserves (sound D) _ _ _ (block_fill-Preserves "kill_switch_active") (
          bind-Preserves (sound D) _ _ (gets-Preserves (sound D) _)
            λ now. enter_fill-Preserves order decision price now side)

    pay_for-Preserves :
        (order : PaperOrder Num) (decision : PaperFillDecision Num) (price cash : Num)
        → HasSide D order.row.side
        → Preserves (sound D) (pay_for D fits upper around order decision price cash)
    unfolding pay_for
    pay_for-Preserves order decision price cash side =
        if-Preserves (sound D) _ _ _ (block_fill-Preserves "paper_cash_guard") (
          if-Preserves (sound D) _ _ _ (raise-Preserves (sound D) _ (paper_execution_error 422)) (
            bind-Preserves (sound D) _ _ (gets-Preserves (sound D) _)
              λ settings. heed_switch-Preserves order decision price settings side))

    fill_at_price-Preserves :
        (order : PaperOrder Num) (decision : PaperFillDecision Num) (price : Option Num)
        → HasSide D order.row.side
        → Preserves (sound D) (fill_at_price D fits upper around order decision price)
    fill_at_price-Preserves order decision none side =
        raise-Preserves (sound D) _ (paper_execution_error 422)
    fill_at_price-Preserves order decision (some price) side =
        bind-Preserves (sound D) _ _ (gets-Preserves (sound D) _)
          λ cash. pay_for-Preserves order decision price cash side

    fill_quantity-Preserves :
        (order : PaperOrder Num) (quantity estimated_price : Num)
        → HasSide D order.row.side
        → Preserves (sound D) (fill_quantity D fits upper around order quantity estimated_price)
    unfolding fill_quantity
    fill_quantity-Preserves order quantity estimated_price side =
        if-Preserves (sound D) _ _ _ (raise-Preserves (sound D) _ (paper_execution_error 422))
          (fill_at_price-Preserves order _ _ side)

    fill_partial-Preserves :
        (order : PaperOrder Num) (quantity estimated_price : Num)
        → HasSide D order.row.side
        → Preserves
            (sound D)
            (fill_partial_order D fits upper around order quantity estimated_price)
    unfolding fill_partial_order
    fill_partial-Preserves order quantity estimated_price side =
        let refused = raise-Preserves (sound D) (PaperOrder Num) (paper_execution_error 422) in
        if-Preserves (sound D) _ _ _ (raise-Preserves (sound D) _ (paper_execution_error 403)) (
          if-Preserves (sound D) (not (is_active_partial D fits upper around order.row)) _ _ refused
            (if-Preserves (sound D)
              (not (is_some_id D fits upper around around.connection_id order.paper_connection_id))
              _ _ refused (fill_quantity-Preserves order _ estimated_price side)))

  -- An account that operations have led to, from one without rows.
  pub data Reached : Book Num → Type 0 where
    opened : Reached (record { positions = []; accounts = []; trades = [] })
    executed :
        (around : Around) (body : PaperOrderCreate Num) (signal_id : Option ℕ) (s : Session Num)
        → HasSide D body.side
        → Reached s.book
        → Reached (execute D F fits upper around body signal_id s).1.book
    followed_up :
        (around : Around) (order : PaperOrder Num) (quantity estimated_price : Num)
        → (s : Session Num) → HasSide D order.row.side
        → Reached s.book
        → Reached (fill_partial_order D fits upper around order quantity estimated_price s).1.book

  -- Whatever orders and follow-up fills are asked for, at whatever prices, and whether they succeed,
  -- are refused or raise, no paper position, no number of shares to sell and no amount of cash is
  -- ever negative. Each order is a buy or a sell, and sums and differences have the signs of
  -- exact arithmetic.
  pub account-IsSound : IsSigned D → (book : Book Num) → Reached book → IsSound D book
  unfolding IsSound
  account-IsSound signs _ opened = (tt, tt)
  account-IsSound signs _ (executed around body signal_id s side before) =
      (execute-Kept D F fits upper around signs body signal_id side).keeps s
        (account-IsSound signs s.book before)
  account-IsSound signs _ (followed_up around order quantity estimated_price s side before) =
      (fill_partial-Preserves around signs order quantity estimated_price side).keeps s
        (account-IsSound signs s.book before)

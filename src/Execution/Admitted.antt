-- ===== src/Execution/Admitted.antt =====
-- apps/api/app/execution/engine.py: what an order that is created rests on.
use t212_cashguard.Common.{
  ◌≡◌, inl, inr, refl, ap, sym, ◌∙◌, ℕ, Bool, true, false, not, ◌&&◌, Option, none, some, List, ◌∷◌,
  arith, Bool-cases, str_eq, if◌then◌else◌,
}
use t212_cashguard.Common.Numeric.{Decimals}
use t212_cashguard.Store.{Order}
use t212_cashguard.Cash.{reading_time_or_assumed, cash_promised_elsewhere}
use t212_cashguard.Execution.Intent.{
  Wanted, Meanwhile, Book, Intent, created, account_block, account_of, with_key, standing_order,
  cash_used,
}
use t212_cashguard.Execution.Create.{
  Admission, stands, admitted, refuses, cash_test, stands_or, admit_cost, admit_against_cash,
  admit_with, new_order, insert_or_existing, finish_intent, create_order_intent,
}
use t212_cashguard.Execution.Promised.{promised_with}

module _ (D : Decimals) where
  open D use {Num, less, add}

  -- What an admission against a cash figure has shown.
  abbrev Shown : Wanted Num → Meanwhile Num → ℕ → Num → Type 0
  Shown w meanwhile now available_cash =
      (cost : Num) × (cash_used D w ≡ some cost)
      × (meanwhile.turn_taken ≡ true)
      × (standing_order D w now meanwhile.at_turn ≡ none)
      × (less available_cash (
            add cost (
              cash_promised_elsewhere D (account_of w) (reading_time_or_assumed w.cash_read_at now)
                meanwhile.at_turn))
          ≡ false)

  tested-Shown :
      (w : Wanted Num) (meanwhile : Meanwhile Num) (now : ℕ) (available_cash cost : Num)
      (standing_ : Option (Order Num × Bool))
      → cash_used D w ≡ some cost
      → meanwhile.turn_taken ≡ true
      → standing_order D w now meanwhile.at_turn ≡ standing_
      → stands_or D standing_ (cash_test D w now meanwhile.at_turn available_cash cost) ≡ admitted
      → Shown w meanwhile now available_cash
  tested-Shown w meanwhile now available_cash cost (some o) used turn e h = absurd (ground arith)
  tested-Shown w meanwhile now available_cash cost none used turn e h =
      (cost, used, turn, e, ground arith)

  costed-Shown :
      (w : Wanted Num) (meanwhile : Meanwhile Num) (now : ℕ) (available_cash : Num)
      (cost : Option Num)
      → cash_used D w ≡ cost
      → admit_cost D w meanwhile now available_cash cost ≡ admitted
      → Shown w meanwhile now available_cash
  costed-Shown w meanwhile now available_cash none e h = absurd (ground arith)
  costed-Shown w meanwhile now available_cash (some cost) e h =
      elim (Bool-cases meanwhile.turn_taken) [
        | inl turn ↦ tested-Shown w meanwhile now available_cash cost _ e turn refl (rw turn at h)
        | inr turn ↦ absurd (ground arith)
      ]

  admitted-Shown :
      (w : Wanted Num) (meanwhile : Meanwhile Num) (now : ℕ) (available_cash : Num)
      → str_eq w.side "buy" ≡ true
      → w.is_dry_run ≡ false
      → admit_with D w meanwhile now (some available_cash) ≡ admitted
      → Shown w meanwhile now available_cash
  unfolding admit_against_cash
  admitted-Shown w meanwhile now available_cash buy wet h =
      costed-Shown w meanwhile now available_cash (cash_used D w) refl
        (sym (ap run (buys (str_eq w.side "buy") w.is_dry_run buy wet)) ∙ h)
    where
      run : Bool → Admission D
      run real =
          if real then admit_cost D w meanwhile now available_cash (cash_used D w) else admitted

      buys : (a b : Bool) → a ≡ true → b ≡ false → (a && not b) ≡ true
      buys a b p q = rw (p, q) refl

  -- The rows that are left, and what they promise of the account's cash.
  abbrev pub Covers :
      Wanted Num → Meanwhile Num → ℕ → Num → Order Num → Intent Num × Book Num → Type 0
  Covers w meanwhile now available_cash order run =
      (run.1.orders ≡ order ∷ meanwhile.at_turn)
      × (less available_cash (
            cash_promised_elsewhere D (account_of w) (reading_time_or_assumed w.cash_read_at now)
              run.1.orders)
          ≡ false)

  inserted-Covers :
      (w : Wanted Num) (meanwhile : Meanwhile Num) (id now : ℕ) (book : Book Num)
      (available_cash : Num) (order : Order Num) (rows : List (Order Num))
      (existing : Option (Order Num))
      → str_eq w.side "buy" ≡ true
      → w.is_dry_run ≡ false
      → rows ≡ meanwhile.at_turn
      → Shown w meanwhile now available_cash
      → (insert_or_existing D w id now book rows existing).0 ≡ created order
      → Covers w meanwhile now available_cash order
          (insert_or_existing D w id now book rows existing)
  inserted-Covers w meanwhile id now book available_cash order rows (some o) buy wet same shown h =
      absurd (cc)
  inserted-Covers w meanwhile id now book available_cash order rows none buy wet same
        (cost, used, _, _, fits) h =
      let new : new_order D w id now ≡ order = ground (arith, h) in
      (
        ap (λ o. o ∷ rows) new ∙ ap (λ l. order ∷ l) same,
        ap (less available_cash) (
              promised_with D w id now (reading_time_or_assumed w.cash_read_at now) cost rows buy
                wet used
              ∙ ap
                  (λ l. add cost (
                    cash_promised_elsewhere D (account_of w)
                      (reading_time_or_assumed w.cash_read_at now) l))
                  same)
            ∙ fits,
      )

  finished-Covers :
      (w : Wanted Num) (meanwhile : Meanwhile Num) (id now : ℕ) (book : Book Num)
      (available_cash : Num) (order : Order Num) (admission : Admission D)
      → str_eq w.side "buy" ≡ true
      → w.is_dry_run ≡ false
      → meanwhile.at_insert ≡ meanwhile.at_turn
      → (admission ≡ admitted → Shown w meanwhile now available_cash)
      → (finish_intent D w meanwhile id now book admission).0 ≡ created order
      → Covers w meanwhile now available_cash order
          (finish_intent D w meanwhile id now book admission)
  finished-Covers w meanwhile id now book available_cash order (stands (o, b)) buy wet same shown
        h =
      absurd (cc)
  finished-Covers w meanwhile id now book available_cash order refuses buy wet same shown h =
      absurd (cc)
  finished-Covers w meanwhile id now book available_cash order admitted buy wet same shown h =
      inserted-Covers w meanwhile id now book available_cash order meanwhile.at_insert
        (with_key w.client_key meanwhile.at_insert) buy wet same (shown refl) h

  admitted_after :
      (standing_ : Option (Order Num × Bool)) (a : Admission D)
      → stands_or D standing_ a ≡ admitted
      → a ≡ admitted
  admitted_after none a h = h
  admitted_after (some o) a h = absurd (cc)

  -- When a real buy that comes with a cash figure ends in a new order, and no order was added or
  -- changed between the admission turn and the insertion, the figure covers what the account's buys have been
  -- promised, the new one included, by the count that the next admission makes.
  pub created-Covers :
      (w : Wanted Num) (meanwhile : Meanwhile Num) (id now : ℕ) (book : Book Num)
      (available_cash : Num) (order : Order Num)
      → str_eq w.side "buy" ≡ true
      → w.is_dry_run ≡ false
      → w.available_cash ≡ some available_cash
      → meanwhile.at_insert ≡ meanwhile.at_turn
      → (create_order_intent D w meanwhile id now book).0 ≡ created order
      → Covers w meanwhile now available_cash order (create_order_intent D w meanwhile id now book)
  unfolding create_order_intent
  created-Covers w meanwhile id now book available_cash order buy wet cash same =
      by_gate (str_eq w.app_mode "live" && not w.is_dry_run && not meanwhile.account_bound)
    where
      admission : Admission D
      admission =
          stands_or D (standing_order D w now book.orders)
            (admit_with D w meanwhile now w.available_cash)

      shown : admission ≡ admitted → Shown w meanwhile now available_cash
      shown e = admitted-Shown w meanwhile now available_cash buy wet (
          ap (admit_with D w meanwhile now) (sym cash)
          ∙ admitted_after (standing_order D w now book.orders) _ e)

      by_gate :
          (blocked : Bool)
          → let run : Intent Num × Book Num =
              if blocked
              then (account_block, book)
              else finish_intent D w meanwhile id now book admission in
            run.0 ≡ created order → Covers w meanwhile now available_cash order run
      by_gate true h = absurd (cc)
      by_gate false h =
          finished-Covers w meanwhile id now book available_cash order admission buy wet same shown
            h

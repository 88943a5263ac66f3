-- ===== src/Broker/Record/Final.antt =====
-- apps/api/app/execution/broker_record.py: what a final state that is recorded rests on.
use mathlib.Core.Path.{subst}
use t212_cashguard.Common.{
  ℕ, ◌≡◌, refl, sym, ap, ◌∙◌, inl, inr, Bool, true, false, not, ◌&&◌, Option, none, some, String,
  List, [], ◌∷◌, All, all, str_eq, eq_iff, arith, Bool-cases,
}
use t212_cashguard.Common.Numeric.{Decimals, IsOrdered, zero_of}
use t212_cashguard.Lifecycle.{Status, known, filled}
use t212_cashguard.Broker.{Json, Conversions}
use t212_cashguard.Broker.Record.{
  Checked, fine, ◌>>=◌, ◌>>◌, refuse_when, LocalOrder, Reported, RecordConversions, num_eq,
}
use t212_cashguard.Broker.Record.Reading.{read}
use t212_cashguard.Broker.Record.Fills.{fill}
use t212_cashguard.Broker.Record.Verdict.{
  FinalRecord, Verdict, is_filled, latest, exceeds, final_record, open_record, final_status,
  kept_price, settle, judge_status, judge, interpret_open_order_read,
}
use t212_cashguard.Broker.Record.Stated.{States, read-States}
use t212_cashguard.Broker.Record.Prices.{IsPriceOf, IsKeptOf, kept-IsKeptOf, fill-IsPriceOf}
use t212_cashguard.Broker.Record.Amounts.{
  bind-fine, test-fine, PriceFits, SaidBy, kept-PriceFits, fill-SaidBy,
}

module _ (D : Decimals) (C : Conversions (Decimals.Num D))
    (R : RecordConversions (Decimals.Num D) (Conversions.Int C))
    (order : IsOrdered (Decimals.Num D) (Decimals.less D)) where
  open D use {Num, less}
  open C use {Int}

  -- A final state: all parts call the order by the same final word, at least one states the amount
  -- that is recorded and it is not above the ordered quantity, a filled order has filled whole, and
  -- the price goes with the amount and comes from the parts.
  pub record RestsOnParts (parts : List (Reported Num)) (local : LocalOrder Num)
      (r : FinalRecord Num) : Type 0 where
    pub word : final_status r.broker_status ≡ some r.order_status
    pub agreed : All (λ part. part.status ≡ r.broker_status) parts
    pub said : SaidBy D C R order r.filled_quantity parts
    pub within : less local.quantity r.filled_quantity ≡ false
    pub whole : r.order_status ≡ known filled → r.filled_quantity ≡ local.quantity
    pub price : PriceFits D C R order r.filled_quantity r.fill_price
    pub priced : IsPriceOf D C R order parts r.filled_quantity r.fill_price

  -- What the last tests of the verdict leave.
  abbrev Settled : LocalOrder Num → FinalRecord Num → Type 0
  Settled local r =
      (r.order_status ≡ known filled → less r.filled_quantity local.quantity ≡ false)
      × PriceFits D C R order r.filled_quantity r.fill_price

  settle-Settled :
      (b : Bool) (local : LocalOrder Num) (word : String) (status : Status) (at : Option ℕ)
      (amount price : Option Num) (v : Verdict Num)
      → settle D C R b local word status at (amount, price) ≡ fine v
      → (r : FinalRecord Num) × (v ≡ final_record r)
        × (r.broker_status ≡ word)
        × (r.order_status ≡ status)
        × (amount ≡ some r.filled_quantity)
        × IsKeptOf D C R order price r.fill_price
        × Settled local r
  unfolding settle
  settle-Settled b local word status at none price v h = cc
  settle-Settled b local word status at (some amount) price v h =
      let empty = is_filled status && num_eq D C R amount (zero_of D) in
      let below = is_filled status && less amount local.quantity in
      let made : Option Num → FinalRecord Num = λ kept. record {
        broker_status = word;
        order_status = status;
        filled_quantity = amount;
        fill_price = kept;
        filled_at = at;
      } in
      let body : Checked Num (Verdict Num) =
        kept_price D C R b word amount price >>= λ kept. fine (final_record (made kept)) in
      let (e, h') =
        test-fine empty "filled_without_a_fill"
          (refuse_when below "filled_quantity_below_order" >> body) h in
      let (f, h'') = test-fine below "filled_quantity_below_order" body h' in
      let (kept, g, h3) =
        bind-fine (kept_price D C R b word amount price) (λ k. fine (final_record (made k))) h'' in
      let whole : status ≡ known filled → less amount local.quantity ≡ false = λ s. rw s at f in
      (
        made kept,
        cc h3,
        refl,
        refl,
        refl,
        kept-IsKeptOf D C R order b word amount price kept g,
        (whole, kept-PriceFits D C R order b word amount price kept g),
      )

  -- What a verdict says of the parts that it is about.
  abbrev pub RestsOn : List (Reported Num) → LocalOrder Num → Verdict Num → Type 0
  RestsOn parts local (final_record r) = RestsOnParts parts local r
  RestsOn parts local (open_record word) =
      (final_status word ≡ none) × All (λ part. part.status ≡ word) parts

  exceeds-within :
      (amount : Option Num) (x quantity : Num)
      → amount ≡ some x
      → exceeds D C R amount quantity ≡ false
      → less quantity x ≡ false
  exceeds-within none x quantity e h = cc
  exceeds-within (some y) x quantity e h = cc (e, h)

  judge_status-RestsOn :
      (parts : List (Reported Num)) (local : LocalOrder Num) (from_history : Bool) (word : String)
      (status : Option Status) (v : Verdict Num)
      → final_status word ≡ status
      → All (λ part. part.status ≡ word) parts
      → judge_status D C R parts local from_history word status ≡ fine v
      → RestsOn parts local v
  unfolding judge_status
  judge_status-RestsOn parts local from_history word none v e agreed h =
      let is_open : open_record word ≡ v = cc h in subst (RestsOn parts local) is_open (e, agreed)
  judge_status-RestsOn parts local from_history word (some status) v e agreed h =
      let after = λ (fp : Option Num × Option Num).
        settle D C R (not from_history) local word status (latest parts) fp in
      let (fp, filled_is, h') =
        bind-fine (fill D C R parts)
          (λ fp.
            refuse_when (exceeds D C R fp.0 local.quantity) "filled_quantity_exceeds_order"
            >> after fp)
          h in
      let (fits, h'') =
        test-fine (exceeds D C R fp.0 local.quantity) "filled_quantity_exceeds_order" (after fp)
          h' in
      let (r, is_final, word_is, status_is, amount_is, price_is, settled) =
        settle-Settled (not from_history) local word status (latest parts) fp.0 fp.1 v h'' in
      let within = exceeds-within fp.0 r.filled_quantity local.quantity amount_is fits in
      let filled_by = filled_is ∙ ap (λ a. fine (a, fp.1)) amount_is in
      let rests : RestsOnParts parts local r = record {
        word = cc (e, word_is, status_is);
        agreed = subst (λ w. All (λ part. part.status ≡ w) parts) (sym word_is) agreed;
        said = fill-SaidBy D C R order parts r.filled_quantity fp.1 filled_by;
        within = within;
        whole = λ s. order.connected r.filled_quantity local.quantity (settled.0 s) within;
        price = settled.1;
        priced =
            fill-IsPriceOf D C R order parts r.filled_quantity fp.1 r.fill_price filled_by price_is;
      } in
      subst (RestsOn parts local) (sym is_final) rests

  all-status :
      (word : String) (parts : List (Reported Num))
      → all (λ other. str_eq other.status word) parts ≡ true
      → All (λ part. part.status ≡ word) parts
  all-status word [] h = tt
  all-status word (part ∷ parts) h =
      ((eq_iff part.status word).0 (ground arith), all-status word parts (ground arith))

  pub judge-RestsOn :
      (parts : List (Reported Num)) (local : LocalOrder Num) (from_history : Bool) (v : Verdict Num)
      → judge D C R parts local from_history ≡ fine v
      → RestsOn parts local v
  unfolding judge
  judge-RestsOn [] local from_history v h = cc
  judge-RestsOn (part ∷ parts) local from_history v h =
      elim (Bool-cases (all (λ other. str_eq other.status part.status) parts)) [
        | inr e ↦ absurd (ground arith)
        | inl e ↦
            judge_status-RestsOn (part ∷ parts) local from_history part.status
              (final_status part.status) v refl (refl, all-status part.status parts e)
              (ground arith)
      ]

  -- What the open-orders read of an order is taken to say rests on its one record, which is about
  -- this order, and of which the word, the amount and the price are taken down as it states them: the
  -- price, if it states one, is the finite number that stands there, not negative and below the first
  -- that is too large to be stored. A word that is not final says that the order is open. Else the
  -- record states the amount that is recorded, not above the ordered quantity and all of it for a
  -- filled order; and unless that is zero, in which case no price is recorded, the price recorded is
  -- the record's own and not below the smallest that is not stored as zero.
  pub open_read-RestsOn :
      (payload : Json Num Int) (local : LocalOrder Num) (v : Verdict Num)
      → interpret_open_order_read D C R payload local ≡ fine v
      → (part : Reported Num) × (read D C R payload local ≡ fine part)
        × States D C R order payload local part
        × RestsOn (part ∷ []) local v
  unfolding interpret_open_order_read
  open_read-RestsOn payload local v h =
      let (part, e, g) =
        bind-fine (read D C R payload local) (λ part. judge D C R (part ∷ []) local false) h in
      (
        part,
        e,
        read-States D C R order payload local part e,
        judge-RestsOn (part ∷ []) local false v g,
      )

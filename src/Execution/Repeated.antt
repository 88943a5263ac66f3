-- ===== src/Execution/Repeated.antt =====
-- apps/api/app/execution/engine.py and broker_record.py: an answer that repeats the body of the request
-- is about the order that was sent.
use mathlib.Core.Path.{subst}
use t212_cashguard.Common.{
  arith, ◌≡◌, ◌⊎◌, inl, inr, refl, sym, ◌∙◌, ap, Bool, true, false, not, ◌&&◌, Option, none, some,
  String, Bool-cases, Option-cases, str_eq, eq_iff, if◌then◌else◌,
}
use t212_cashguard.Common.Numeric.{Decimals, IsOrdered, zero_of}
use t212_cashguard.Store.{Order}
use t212_cashguard.Broker.{
  Json, real, text, object, Fields, field, Conversions, usable_order_id, finite_number,
}
use t212_cashguard.Broker.Record.{
  fine, LocalOrder, RecordConversions, some_or, at, first, stated, key_for, values_at,
}
use t212_cashguard.Broker.Record.Reading.{
  order_type_of, amount, same_order_fields, require_same_order,
}
use t212_cashguard.Execution.Submit.{Request, signed_quantity, build_broker_request}
use t212_cashguard.Execution.Posted.{posted}
use t212_cashguard.Execution.Silent.{Silent, posted-Says}
use t212_cashguard.Execution.Answer.{as_local_order}

module _ (D : Decimals) (C : Conversions (Decimals.Num D))
    (R : RecordConversions (Decimals.Num D) (Conversions.Int C))
    (ordered : IsOrdered (Decimals.Num D) (Decimals.less D)) where
  open D use {Num, less, absolute, negate}
  open C use {Int, strip, upper}
  open R use {str_of, str_or_empty, as_amount}

  -- An answer with an id, a word for the type, and the fields that were posted.
  abbrev pub repeated : Fields Num Int → String → String → Json Num Int
  repeated body id word = object (field "id" (text id) (field "type" (text word) body))

  -- What the standard library promises of texts and of amounts.
  pub record ReadsPlainly : Type 0 where
    pub str_of_text : (t : String) → str_of (text t) ≡ t
    pub str_or_empty_of_text : (t : String) → str_or_empty (text t) ≡ t
    pub unsigned : (x : Num) → as_amount (negate (absolute x)) ≡ as_amount x

  -- The texts that stand in the answer.
  pub record NamesOrder (order : Order Num) (id word : String) : Type 0 where
    pub ticker_is_stripped : strip order.ticker ≡ order.ticker
    pub id_is_usable : usable_order_id C (text id) ≡ some id
    pub word_names_type : order_type_of (upper (strip word)) ≡ some order.order_type

  -- Converted to a float and read again, the quantity that is sent is a number with the same sign and,
  -- with the decimals that are stored, the same amount.
  pub record SurvivesFloat (as_float : Num → Option Num) (order : Order Num) : Type 0 where
    pub read_back : Num
    pub is_number : as_float (signed_quantity D order) ≡ some read_back
    pub same_amount : as_amount read_back ≡ as_amount (signed_quantity D order)
    pub same_sign : less read_back (zero_of D) ≡ less (signed_quantity D order) (zero_of D)

  -- The quantity of a purchase is not negative.
  abbrev pub HasItsSign : Order Num → Type 0
  HasItsSign order = (str_eq order.side "sell" ≡ true) ⊎ (less order.quantity (zero_of D) ≡ false)

  signed_amount :
      (order : Order Num)
      → ReadsPlainly
      → as_amount (signed_quantity D order) ≡ as_amount order.quantity
  unfolding signed_quantity
  signed_amount order plain = elim (Bool-cases (str_eq order.side "sell")) [
    | inl s ↦ rw s (plain.unsigned order.quantity)
    | inr s ↦ rw s refl
  ]

  on_a_sale : (a b : Bool) → b ≡ true → a && not b ≡ false
  on_a_sale a b h = ground arith

  signed_fits :
      (order : Order Num)
      → HasItsSign order
      → less (signed_quantity D order) (zero_of D) && not (str_eq order.side "sell") ≡ false
  unfolding signed_quantity
  signed_fits order (inl s) = on_a_sale _ _ s
  signed_fits order (inr n) = elim (Bool-cases (str_eq order.side "sell")) [
    | inl s ↦ on_a_sale _ _ s
    | inr s ↦ rw (s, n) refl
  ]

  abbrev facts_with : Order Num → String → Num → LocalOrder Num
  facts_with order id quantity = record {
    broker_order_id = id;
    ticker = order.ticker;
    side = order.side;
    order_type = order.order_type;
    quantity = quantity;
  }

  same_fields :
      (order : Order Num) (rest : Fields Num Int) (id word : String) (sent quantity : Num)
      → ReadsPlainly
      → NamesOrder order id word
      → Silent rest
      → less sent (zero_of D) && not (str_eq order.side "sell") ≡ false
      → as_amount sent ≡ some quantity
      → require_same_order D C R
          (repeated
            (field "ticker" (text order.ticker) (field "quantity" (real (some sent)) rest))
            id
            word)
          (facts_with order id quantity)
        ≡ fine tt
  unfolding require_same_order same_order_fields first at stated key_for values_at amount
      finite_number
  same_fields order rest id word sent quantity plain names (no_order, no_side, no_other) fits read =
      rw
        (
          no_order,
          no_side,
          no_other,
          names.id_is_usable,
          (eq_iff id id).1 refl,
          plain.str_of_text order.ticker,
          names.ticker_is_stripped,
          (eq_iff (upper order.ticker) (upper order.ticker)).1 refl,
          plain.str_or_empty_of_text word,
          names.word_names_type,
          (eq_iff order.order_type order.order_type).1 refl,
          fits,
          read,
          ordered.irrefl quantity,
        )
        refl

  some_then : {A : Type 0} (b : Bool) (x a : A) → (if b then none else some x) ≡ some a → x ≡ a
  some_then true x a e = cc e
  some_then false x a e = cc e

  request_says :
      (order : Order Num) (request : Request Num)
      → build_broker_request D order ≡ some request
      → (request.ticker ≡ order.ticker) × (request.quantity ≡ signed_quantity D order)
  unfolding build_broker_request
  request_says order request built =
      let same = some_then _ _ request built in
      (sym (ap (λ r. r.ticker) same), sym (ap (λ r. r.quantity) same))

  local_read :
      (order : Order Num) (id : String) (facts : LocalOrder Num)
      → as_local_order D C R order id ≡ some facts
      → (quantity : Num) × (as_amount order.quantity ≡ some quantity)
        × (facts_with order id quantity ≡ facts)
  unfolding as_local_order
  local_read order id facts local = elim (Option-cases (as_amount order.quantity)) [
    | inl e ↦ let absent : as_local_order D C R order id ≡ none = rw e refl in cc (absent, local)
    | inr (quantity, e) ↦
        let there : as_local_order D C R order id ≡ some (facts_with order id quantity) =
          rw e refl in
        (quantity, e, ap (λ o. some_or o facts) (sym there ∙ local))
  ]

  -- An answer that repeats the body that was posted, with an id that can be used and a word for the
  -- order's type, is taken to be about the order that the request was built from, when a purchase's
  -- quantity is not negative, the quantity keeps its sign and its stored decimals as a float, the
  -- order's ticker has no outer spaces, and the standard library reads a text as itself and an amount
  -- without its sign.
  pub require_same_order-repeated :
      (as_float : Num → Option Num) (order : Order Num) (request : Request Num)
      (body : Fields Num Int) (facts : LocalOrder Num) (id word : String)
      → ReadsPlainly
      → NamesOrder order id word
      → HasItsSign order
      → SurvivesFloat as_float order
      → build_broker_request D order ≡ some request
      → posted as_float request ≡ some body
      → as_local_order D C R order id ≡ some facts
      → require_same_order D C R (repeated body id word) facts ≡ fine tt
  require_same_order-repeated as_float order request body facts id word plain names sign float built
        sends local =
      let (ticker, amounts) = request_says order request built in
      let (rest, silent, is_body) = posted-Says as_float request body sends in
      let (quantity, read, same) = local_read order id facts local in
      let sent : field "ticker" (text order.ticker)
            (field "quantity" (real (some float.read_back)) rest)
          ≡ body =
        rw (sym ticker, sym float.is_number, sym amounts) is_body in
      subst (λ f. require_same_order D C R (repeated body id word) f ≡ fine tt) same
        (subst
          (λ b.
            require_same_order D C R (repeated b id word) (facts_with order id quantity) ≡ fine tt)
          sent
          (same_fields order rest id word float.read_back quantity plain names silent
            (rw float.same_sign (signed_fits order sign))
            (float.same_amount ∙ signed_amount order plain ∙ read)))

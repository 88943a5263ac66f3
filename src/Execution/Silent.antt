-- ===== src/Execution/Silent.antt =====
-- apps/api/app/broker/trading212.py: beside the ticker and the quantity, the fields that are posted say
-- nothing that a record is compared by.
use mathlib.Core.Path.{subst}
use t212_cashguard.Common.{
  ◌≡◌, inl, inr, refl, false, Option, none, some, String, Bool-cases, Option-cases, str_eq,
}
use t212_cashguard.Broker.{null, text, Fields, end, field, get}
use t212_cashguard.Execution.Submit.{Request}
use t212_cashguard.Execution.Posted.{number, with_price, validity, posted_rest, posted}

module _ {Num Int : Type 0} where
  -- Fields that say nothing more of the order.
  abbrev pub Silent : Fields Num Int → Type 0
  Silent rest =
      (get "order" rest ≡ null) × (get "side" rest ≡ null) × (get "orderedQuantity" rest ≡ null)

  with_price-Silent :
      (as_float : Num → Option Num) (key : String) (price : Option Num)
      (rest : Option (Fields Num Int)) (body : Fields Num Int)
      → (str_eq key "order" ≡ false)
        × (str_eq key "side" ≡ false)
        × (str_eq key "orderedQuantity" ≡ false)
      → ((fields : Fields Num Int) → rest ≡ some fields → Silent fields)
      → with_price as_float key price rest ≡ some body
      → Silent body
  with_price-Silent as_float key none rest body other silent h = cc
  with_price-Silent as_float key (some price) none body other silent h = cc
  with_price-Silent as_float key (some price) (some fields) body (a, b, c) silent h =
      let is_body : field key (number as_float price) fields ≡ body = cc h in
      let (d, e, f) = silent fields refl in
      subst Silent is_body (rw (a, d) refl, rw (b, e) refl, rw (c, f) refl)

  validity-Silent :
      (as_float : Num → Option Num) (request : Request Num) (fields : Fields Num Int)
      → validity as_float request ≡ some fields
      → Silent fields
  validity-Silent as_float request fields h =
      let is_fields : field "timeValidity" (text request.time_validity) end ≡ fields = cc h in
      subst Silent is_fields (refl, refl, refl)

  rest-Silent :
      (as_float : Num → Option Num) (request : Request Num) (rest : Fields Num Int)
      → posted_rest as_float request ≡ some rest
      → Silent rest
  unfolding posted_rest
  rest-Silent as_float request rest h = elim (Bool-cases (str_eq request.order_type "market")) [
    | inl m ↦ let is_end : end ≡ rest = cc (rw m at h) in subst Silent is_end (refl, refl, refl)
    | inr m ↦ elim (Bool-cases (str_eq request.order_type "limit")) [
      | inl l ↦
          with_price-Silent as_float "limitPrice" request.limit_price _ rest (refl, refl, refl)
            (validity-Silent as_float request) (rw (m, l) at h)
      | inr l ↦ elim (Bool-cases (str_eq request.order_type "stop")) [
        | inl s ↦
            with_price-Silent as_float "stopPrice" request.stop_price _ rest (refl, refl, refl)
              (validity-Silent as_float request) (rw (m, l, s) at h)
        | inr s ↦
            with_price-Silent as_float "stopPrice" request.stop_price _ rest (refl, refl, refl)
              (λ fields.
                with_price-Silent as_float "limitPrice" request.limit_price _ fields
                  (refl, refl, refl) (validity-Silent as_float request))
              (rw (m, l, s) at h)
      ]
    ]
  ]

  pub posted-Says :
      (as_float : Num → Option Num) (request : Request Num) (body : Fields Num Int)
      → posted as_float request ≡ some body
      → (rest : Fields Num Int) × Silent rest
        × (field "ticker"
              (text request.ticker)
              (field "quantity" (number as_float request.quantity) rest)
            ≡ body)
  unfolding posted
  posted-Says as_float request body h =
      elim (Option-cases (posted_rest {Int = Int} as_float request)) [
        | inl e ↦ absurd (cc (rw e at h))
        | inr (rest, e) ↦ (rest, rest-Silent as_float request rest e, cc (rw e at h))
      ]

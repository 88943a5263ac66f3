-- ===== src/Broker/Inversion.antt =====
-- apps/api/app/execution/acknowledgement.py: inversion of a trusted acknowledgement.
use mathlib.Core.Path.{subst}
use t212_cashguard.Common.{
  ◌≡◌, ◌≢◌, refl, ap, sym, ◌∙◌, ◌⊎◌, inl, inr, true, false, Option, none, some, String, str_eq,
  arith, eq_iff, Bool-cases, Option-cases,
}
use t212_cashguard.Common.Numeric.{Decimals, IsOrdered, zero_of}
use t212_cashguard.Lifecycle.{Status, known, filled, cancelled, rejected, accepted}
use t212_cashguard.Broker.{Fields, Conversions, get, finite_number}
use t212_cashguard.Broker.Acknowledgement.{
  Acknowledgement, Trusted, trusted, untrusted, ◌>>=◌, smallest_stored_price, is_null,
  reported_fill, fill_price, has_fill, text_or_empty, filled_acknowledgement, ended_acknowledgement,
  interpret_status,
}

-- Inversion of a trusted bind.
pub >>=-eq-trusted :
    {A B : Type 0} (m : Trusted A) (f : A → Trusted B) {b : B}
    → (m >>= f) ≡ trusted b
    → (a : A) × (m ≡ trusted a) × (f a ≡ trusted b)
>>=-eq-trusted (trusted a) f h = (a, refl, h)
>>=-eq-trusted (untrusted r i) f h = cc

pub Trusted-cases :
    {A : Type 0} (m : Trusted A)
    → ((a : A) × (m ≡ trusted a)) ⊎ ((r : String) × (i : Option String) × (m ≡ untrusted r i))
Trusted-cases (trusted a) = inl (a, refl)
Trusted-cases (untrusted r i) = inr (r, i, refl)

module _ (D : Decimals) (C : Conversions (Decimals.Num D))
    (order : IsOrdered (Decimals.Num D) (Decimals.less D)) where
  open D use {Num, absolute, less}
  open C use {Int}

  -- The answer states a fill of this amount.
  abbrev pub StatesFill : Fields Num Int → Num → Type 0
  StatesFill response amount =
      (n : Num) × (finite_number C (get "filledQuantity" response) ≡ some n) × (absolute n ≡ amount)

  abbrev pub StatesPrice : Fields Num Int → Num → Type 0
  StatesPrice response price =
      (finite_number C (get "filledPrice" response) ≡ some price)
      × (less price (smallest_stored_price D C) ≡ false)

  -- The answer states no fill, or one of zero.
  abbrev pub StatesNoFill : Fields Num Int → Type 0
  StatesNoFill response =
      (is_null D C (get "filledQuantity" response) ≡ true) ⊎ StatesFill response (zero_of D)

  reported_some :
      (response : Fields Num Int) (side id : String) (amount : Num)
      → reported_fill D C response side id ≡ trusted (some amount)
      → StatesFill response amount
  unfolding reported_fill
  reported_some response side id amount h =
      elim (Option-cases (finite_number C (get "filledQuantity" response))) [
        | inl e ↦ absurd (ground arith)
        | inr (n, e) ↦ (n, e, ground arith)
      ]

  reported_none :
      (response : Fields Num Int) (side id : String)
      → reported_fill D C response side id ≡ trusted none
      → is_null D C (get "filledQuantity" response) ≡ true
  unfolding reported_fill
  reported_none response side id h = ground arith

  stated_price :
      (response : Fields Num Int) (id : String) (price : Num)
      → fill_price D C response id ≡ trusted price
      → StatesPrice response price
  unfolding fill_price
  stated_price response id price h =
      elim (Option-cases (finite_number C (get "filledPrice" response))) [
        | inl e ↦ absurd (ground arith)
        | inr (n, e) ↦ (ground arith, ground arith)
      ]

  -- The answer calls the order filled, and states its whole quantity and a price.
  abbrev pub FilledBy : Fields Num Int → Num → Acknowledgement Num → Type 0
  FilledBy response quantity ack =
      (text_or_empty D C (get "status" response) ≡ "FILLED")
      × StatesFill response quantity
      × (ack.order_status ≡ known filled)
      × (ack.filled_quantity ≡ some quantity)
      × (price : Num) × StatesPrice response price
      × (ack.fill_price ≡ some price)

  -- The answer calls the order by a final word, and states no fill.
  abbrev pub EndedBy : Fields Num Int → String → Status → Acknowledgement Num → Type 0
  EndedBy response word status ack =
      (text_or_empty D C (get "status" response) ≡ word)
      × StatesNoFill response
      × (ack.order_status ≡ status)
      × (ack.filled_quantity ≡ none)
      × (ack.fill_price ≡ none)

  -- The answer calls the order by none of the final words.
  abbrev pub OpenBy : Fields Num Int → Acknowledgement Num → Type 0
  OpenBy response ack =
      (text_or_empty D C (get "status" response) ≢ "FILLED")
      × (text_or_empty D C (get "status" response) ≢ "CANCELLED")
      × (text_or_empty D C (get "status" response) ≢ "REJECTED")
      × (ack.order_status ≡ known accepted)
      × (ack.filled_quantity ≡ none)
      × (ack.fill_price ≡ none)

  abbrev pub RestsOn : Fields Num Int → Num → Acknowledgement Num → Type 0
  RestsOn response quantity ack =
      FilledBy response quantity ack
      ⊎ EndedBy response "CANCELLED" (known cancelled) ack
      ⊎ EndedBy response "REJECTED" (known rejected) ack
      ⊎ OpenBy response ack

  filled_inversion :
      (response : Fields Num Int) (side : String) (quantity : Num) (id : String)
      (amount : Option Num) (ack : Acknowledgement Num)
      → filled_acknowledgement D C response side quantity id amount ≡ trusted ack
      → (amount ≡ some quantity)
        × (ack.order_status ≡ known filled)
        × (ack.filled_quantity ≡ some quantity)
        × (price : Num) × StatesPrice response price
        × (ack.fill_price ≡ some price)
  unfolding filled_acknowledgement
  filled_inversion response side quantity id none ack h = cc
  filled_inversion response side quantity id (some a) ack h =
      elim (Trusted-cases (fill_price D C response id)) [
        | inr (r, i, e) ↦ absurd (ground arith)
        | inl (price, e) ↦ (
          ap some (order.connected a quantity (ground arith) (ground arith)),
          ground arith,
          ground arith,
          price,
          stated_price response id price e,
          ground arith,
        )
      ]

  no_fill_of :
      (response : Fields Num Int) (side id : String) (amount : Option Num)
      → reported_fill D C response side id ≡ trusted amount
      → has_fill D C amount ≡ false
      → StatesNoFill response
  no_fill_of response side id none e h = inl (reported_none response side id e)
  no_fill_of response side id (some a) e h =
      let zero : a ≡ zero_of D = order.connected a (zero_of D) (ground arith) (ground arith) in
      inr (subst (StatesFill response) zero (reported_some response side id a e))

  ended_inversion :
      (response : Fields Num Int) (side id word : String) (status : Status) (reason : String)
      (ack : Acknowledgement Num)
      → (reported_fill D C response side id >>= ended_acknowledgement D C id word status reason)
        ≡ trusted ack
      → StatesNoFill response
        × (ack.order_status ≡ status)
        × (ack.filled_quantity ≡ none)
        × (ack.fill_price ≡ none)
  unfolding ended_acknowledgement
  ended_inversion response side id word status reason ack h =
      let (amount, e, f) =
        >>=-eq-trusted (reported_fill D C response side id)
          (ended_acknowledgement D C id word status reason) h in
      (
        no_fill_of response side id amount e (ground arith),
        ground arith,
        ground arith,
        ground arith,
      )

  filled_rests :
      (response : Fields Num Int) (side : String) (quantity : Num) (id : String)
      (ack : Acknowledgement Num)
      → text_or_empty D C (get "status" response) ≡ "FILLED"
      → (reported_fill D C response side id
          >>= filled_acknowledgement D C response side quantity id)
        ≡ trusted ack
      → FilledBy response quantity ack
  filled_rests response side quantity id ack is_word h =
      let (amount, e, f) =
        >>=-eq-trusted (reported_fill D C response side id)
          (filled_acknowledgement D C response side quantity id) h in
      let (whole, status, kept, price, states, priced) =
        filled_inversion response side quantity id amount ack f in
      let stated = subst (λ x. reported_fill D C response side id ≡ trusted x) whole e in
      (is_word, reported_some response side id quantity stated, status, kept, price, states, priced)

  ended_rests :
      (response : Fields Num Int) (side id word : String) (status : Status) (reason : String)
      (ack : Acknowledgement Num)
      → text_or_empty D C (get "status" response) ≡ word
      → (reported_fill D C response side id >>= ended_acknowledgement D C id word status reason)
        ≡ trusted ack
      → EndedBy response word status ack
  ended_rests response side id word status reason ack is_word h =
      let (none_stated, status_is, no_quantity, no_price) =
        ended_inversion response side id word status reason ack h in
      (is_word, none_stated, status_is, no_quantity, no_price)

  other_word : (s t : String) → str_eq s t ≡ false → s ≢ t
  other_word s t h e = cc ((eq_iff s t).1 e)

  pub status_rests :
      (response : Fields Num Int) (side : String) (quantity : Num) (id : String)
      (ack : Acknowledgement Num) (word : String)
      → text_or_empty D C (get "status" response) ≡ word
      → interpret_status D C response side quantity id word ≡ trusted ack
      → RestsOn response quantity ack
  unfolding interpret_status
  status_rests response side quantity id ack word e h = elim (Bool-cases (str_eq word "FILLED")) [
    | inl f ↦ inl (filled_rests response side quantity id ack (e ∙ (eq_iff _ _).0 f) (rw f at h))
    | inr nf ↦ elim (Bool-cases (str_eq word "CANCELLED")) [
      | inl c ↦ inr (
          inl (
            ended_rests response side id "CANCELLED" (known cancelled) "broker returned CANCELLED"
              ack (e ∙ (eq_iff _ _).0 c) (rw (nf, c) at h)))
      | inr nc ↦ elim (Bool-cases (str_eq word "REJECTED")) [
        | inl r ↦ inr (
            inr (
              inl (
                ended_rests response side id "REJECTED" (known rejected) "broker returned REJECTED"
                  ack (e ∙ (eq_iff _ _).0 r) (rw (nf, nc, r) at h))))
        | inr nr ↦ inr (
            inr (
              inr (
                (λ q. other_word word "FILLED" nf (sym e ∙ q)),
                (λ q. other_word word "CANCELLED" nc (sym e ∙ q)),
                (λ q. other_word word "REJECTED" nr (sym e ∙ q)),
                ground arith,
                ground arith,
                ground arith,
              )))
      ]
    ]
  ]

-- ===== src/Broker/Kept.antt =====
-- apps/api/app/execution/acknowledgement.py: a trusted acknowledgement keeps the answer's id and its word
-- for the status.
use t212_cashguard.Common.{
  ◌≡◌, sym, ◌∙◌, inl, inr, true, Option, none, some, String, str_eq, arith, eq_iff, Bool-cases,
}
use t212_cashguard.Common.Numeric.{Decimals, IsOrdered}
use t212_cashguard.Lifecycle.{Status, known, cancelled, rejected}
use t212_cashguard.Broker.{Fields, Conversions}
use t212_cashguard.Broker.Acknowledgement.{
  Acknowledgement, trusted, reported_fill, fill_price, filled_acknowledgement,
  ended_acknowledgement, interpret_status,
}
use t212_cashguard.Broker.Inversion.{>>=-eq-trusted, Trusted-cases}

module _ (D : Decimals) (C : Conversions (Decimals.Num D))
    (order : IsOrdered (Decimals.Num D) (Decimals.less D)) where
  open D use {Num}
  open C use {Int}

  -- The acknowledgement has the answer's id and its word.
  abbrev pub Keeps : Acknowledgement Num → String → String → Type 0
  Keeps ack id word = (ack.broker_order_id ≡ id) × (ack.broker_status ≡ word)

  filled-Keeps :
      (response : Fields Num Int) (side : String) (quantity : Num) (id : String)
      (amount : Option Num) (ack : Acknowledgement Num)
      → filled_acknowledgement D C response side quantity id amount ≡ trusted ack
      → Keeps ack id "FILLED"
  unfolding filled_acknowledgement
  filled-Keeps response side quantity id none ack h = cc
  filled-Keeps response side quantity id (some a) ack h =
      elim (Trusted-cases (fill_price D C response id)) [
        | inr (r, i, e) ↦ absurd (ground arith)
        | inl (price, e) ↦ (ground arith, ground arith)
      ]

  ended-Keeps :
      (id word : String) (status : Status) (reason : String) (amount : Option Num)
      (ack : Acknowledgement Num)
      → ended_acknowledgement D C id word status reason amount ≡ trusted ack
      → Keeps ack id word
  unfolding ended_acknowledgement
  ended-Keeps id word status reason amount ack h = (ground arith, ground arith)

  pub status-Keeps :
      (response : Fields Num Int) (side : String) (quantity : Num) (id : String)
      (ack : Acknowledgement Num) (word : String)
      → interpret_status D C response side quantity id word ≡ trusted ack
      → Keeps ack id word
  unfolding interpret_status
  status-Keeps response side quantity id ack word h = elim (Bool-cases (str_eq word "FILLED")) [
    | inl f ↦
        let (amount, _, g) =
          >>=-eq-trusted (reported_fill D C response side id)
            (filled_acknowledgement D C response side quantity id) (rw f at h) in
        called (filled-Keeps response side quantity id amount ack g) f
    | inr nf ↦ elim (Bool-cases (str_eq word "CANCELLED")) [
      | inl c ↦
          let (amount, _, g) =
            >>=-eq-trusted (reported_fill D C response side id)
              (ended_acknowledgement D C id "CANCELLED" (known cancelled)
                "broker returned CANCELLED")
              (rw (nf, c) at h) in
          called (ended-Keeps id _ _ _ amount ack g) c
      | inr nc ↦ elim (Bool-cases (str_eq word "REJECTED")) [
        | inl r ↦
            let (amount, _, g) =
              >>=-eq-trusted (reported_fill D C response side id)
                (ended_acknowledgement D C id "REJECTED" (known rejected)
                  "broker returned REJECTED")
                (rw (nf, nc, r) at h) in
            called (ended-Keeps id _ _ _ amount ack g) r
        | inr nr ↦ (ground arith, ground arith)
      ]
    ]
  ]
    where
      called :
          {ending : String} → Keeps ack id ending → str_eq word ending ≡ true → Keeps ack id word
      called {ending} kept e = (kept.0, kept.1 ∙ sym ((eq_iff word ending).0 e))

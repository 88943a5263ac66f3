-- ===== src/Broker/Record/Amounts.antt =====
-- apps/api/app/execution/broker_record.py: the amount and the price that a final
-- state keeps are ones that the records state.
use mathlib.Core.Path.{subst}
use t212_cashguard.Common.{
  ◌≡◌, ◌≢◌, refl, ap, ◌∙◌, ◌⊎◌, inl, inr, Bool, true, false, Option, none, some, String, List, [],
  ◌∷◌, all, arith, Bool-cases,
}
use t212_cashguard.Common.Numeric.{Decimals, IsOrdered, zero_of}
use t212_cashguard.Broker.{Conversions}
use t212_cashguard.Broker.Record.{
  Checked, fine, refused, ◌>>=◌, ◌>>◌, refuse_when, Reported, RecordConversions, num_eq,
}
use t212_cashguard.Broker.Record.Fills.{
  smallest, fill, fill_of, known_fills, with_amount, totals, one_total, several_fills,
}
use t212_cashguard.Broker.Record.Verdict.{kept_price}

module _ {N : Type 0} where
  -- Inversion of a bind that is not refused.
  pub bind-fine :
      {A B : Type 0} (m : Checked N A) (f : A → Checked N B) {b : B}
      → (m >>= f) ≡ fine b
      → (a : A) × (m ≡ fine a) × (f a ≡ fine b)
  bind-fine (fine a) f h = (a, refl, h)
  bind-fine (refused e) f h = cc

  -- Inversion of a test that did not refuse.
  pub test-fine :
      {B : Type 0} (c : Bool) (reason : String) (k : Checked N B) {b : B}
      → (refuse_when c reason >> k) ≡ fine b
      → (c ≡ false) × (k ≡ fine b)
  test-fine false reason k h = (refl, h)
  test-fine true reason k h = cc

module _ (D : Decimals) (C : Conversions (Decimals.Num D))
    (R : RecordConversions (Decimals.Num D) (Conversions.Int C))
    (order : IsOrdered (Decimals.Num D) (Decimals.less D)) where
  open D use {Num, less}
  open C use {Int}

  num_eq-eq : (x y : Num) → num_eq D C R x y ≡ true → x ≡ y
  num_eq-eq x y h = order.connected x y (ground arith) (ground arith)

  -- With no amount goes no price; with an amount goes one that is not below
  -- the smallest stored price.
  abbrev pub PriceFits : Num → Option Num → Type 0
  PriceFits amount none = amount ≡ zero_of D
  PriceFits amount (some price) = (amount ≢ zero_of D) × (less price (smallest D C R) ≡ false)

  num_eq_refl : (x : Num) → num_eq D C R x x ≡ true
  num_eq_refl x = ground (arith, order.irrefl x)

  pub kept-PriceFits :
      (b : Bool) (word : String) (amount : Num) (price kept : Option Num)
      → kept_price D C R b word amount price ≡ fine kept
      → PriceFits amount kept
  unfolding kept_price
  kept-PriceFits b word amount none kept h = elim (Bool-cases (num_eq D C R amount (zero_of D))) [
    | inl e ↦
        let is_none : none ≡ kept = ground arith in
        subst (PriceFits amount) is_none (num_eq-eq amount (zero_of D) e)
    | inr e ↦ absurd (ground arith)
  ]
  kept-PriceFits b word amount (some price) kept h =
      elim (Bool-cases (num_eq D C R amount (zero_of D))) [
        | inl e ↦
            let is_none : none ≡ kept = ground arith in
            subst (PriceFits amount) is_none (num_eq-eq amount (zero_of D) e)
        | inr e ↦
            let is_some : some price ≡ kept = ground arith in
            subst (PriceFits amount) is_some (
              (λ z. cc (ap (λ x. num_eq D C R x (zero_of D)) z, num_eq_refl (zero_of D), e)),
              ground arith,
            )
      ]

  -- Some part states this amount.
  abbrev pub SaidBy : Num → List (Reported Num) → Type 0
  SaidBy amount [] = ⊥
  SaidBy amount (part ∷ parts) = (part.filled ≡ some amount) ⊎ SaidBy amount parts

  said_next :
      (part : Reported Num) (parts : List (Reported Num)) (x : Num) (rest xs : List Num)
      → ((ys : List Num) → rest ≡ x ∷ ys → SaidBy x parts)
      → (a : Option Num) → part.filled ≡ a
      → with_amount D C R a rest ≡ x ∷ xs
      → SaidBy x (part ∷ parts)
  said_next part parts x rest xs k none e h = inr (k xs h)
  said_next part parts x rest xs k (some y) e h = inl (cc (e, h))

  totals-SaidBy :
      (parts : List (Reported Num)) (x : Num) (xs : List Num)
      → totals D C R parts ≡ x ∷ xs
      → SaidBy x parts
  unfolding totals
  totals-SaidBy [] x xs h = cc
  totals-SaidBy (part ∷ parts) x xs h =
      said_next part parts x (totals D C R parts) xs (totals-SaidBy parts x) part.filled refl h

  one_total-head :
      (xs : List Num) (x : Num)
      → one_total D C R xs ≡ fine (some x)
      → (rest : List Num) × (xs ≡ x ∷ rest)
  unfolding one_total
  one_total-head [] x h = cc
  one_total-head (y ∷ rest) x h = elim (Bool-cases (all (num_eq D C R y) rest)) [
    | inl e ↦ (rest, ap (λ z. z ∷ rest) (ground arith))
    | inr e ↦ absurd (ground arith)
  ]

  several-total :
      (total : Option Num) (fills : Option (List (Num × Num))) (amount : Num) (price : Option Num)
      → several_fills D C R total fills ≡ fine (some amount, price)
      → total ≡ some amount
  unfolding several_fills
  several-total none fills amount price h = cc
  several-total (some total) none amount price h = cc
  several-total (some total) (some fills) amount price h = ground arith

  fill_of-total :
      (total : Option Num) (parts : List (Reported Num)) (amount : Num) (price : Option Num)
      → fill_of D C R total parts ≡ fine (some amount, price)
      → total ≡ some amount
  unfolding fill_of
  fill_of-total total (part ∷ []) amount price h = ground arith
  fill_of-total total [] amount price h = several-total total (known_fills D C R []) amount price h
  fill_of-total total (p ∷ q ∷ parts) amount price h =
      several-total total (known_fills D C R (p ∷ q ∷ parts)) amount price h

  pub fill-SaidBy :
      (parts : List (Reported Num)) (amount : Num) (price : Option Num)
      → fill D C R parts ≡ fine (some amount, price)
      → SaidBy amount parts
  unfolding fill
  fill-SaidBy parts amount price h =
      let (total, e, g) =
        bind-fine (one_total D C R (totals D C R parts)) (λ t. fill_of D C R t parts) h in
      let is_amount = fill_of-total total parts amount price g in
      let (rest, head) = one_total-head (totals D C R parts) amount (e ∙ ap fine is_amount) in
      totals-SaidBy parts amount rest head

-- ===== src/Broker/Record/Prices.antt =====
-- apps/api/app/execution/broker_record.py: the price that a final state keeps is the one record's own,
-- or the average of the fills.
use mathlib.Core.Path.{subst}
use t212_cashguard.Common.{
  ◌≡◌, refl, ap, ◌∙◌, inl, inr, Bool, true, false, not, ◌&&◌, Option, none, some, String, List, [],
  ◌∷◌, All, any, map, arith, Bool-cases,
}
use t212_cashguard.Common.Numeric.{Decimals, IsOrdered, zero_of}
use t212_cashguard.Broker.{Conversions}
use t212_cashguard.Broker.Record.{fine, Reported, RecordConversions, num_eq}
use t212_cashguard.Broker.Record.Fills.{
  smallest, sum_from, fill, fill_of, known_fills, totals, one_total, several_fills,
}
use t212_cashguard.Broker.Record.Verdict.{kept_price}
use t212_cashguard.Broker.Record.Amounts.{bind-fine, test-fine}

any-All : {A : Type 0} (p : A → Bool) (xs : List A) → any p xs ≡ false → All (λ x. p x ≡ false) xs
any-All p [] h = tt
any-All p (x ∷ xs) h = (ground arith, any-All p xs (ground arith))

module _ (D : Decimals) (C : Conversions (Decimals.Num D))
    (R : RecordConversions (Decimals.Num D) (Conversions.Int C))
    (order : IsOrdered (Decimals.Num D) (Decimals.less D)) where
  open D use {Num, less, add, mul, div, quantize}
  open C use {Int}

  -- Each part is a fill with its amount and price, no amount is priced below the smallest stored
  -- price, the amounts add up to the whole, and the price is what was paid divided by it.
  abbrev pub Averages : List (Reported Num) → Num → Num → Type 0
  Averages parts amount price =
      (fills : List (Num × Num)) × (known_fills D C R parts ≡ some fills)
      × All (λ f. less (zero_of D) f.0 && less f.1 (smallest D C R) ≡ false) fills
      × (num_eq D C R (sum_from D C R (zero_of D) (map (λ f. f.0) fills)) amount ≡ true)
      × (price
          ≡ quantize 8 (div (sum_from D C R (zero_of D) (map (λ f. mul f.0 f.1) fills)) amount))

  -- Where the price of an amount comes from.
  abbrev pub IsPriceOf : List (Reported Num) → Num → Option Num → Type 0
  IsPriceOf parts amount none = Unit {0}
  IsPriceOf (part ∷ []) amount (some price) = part.price ≡ some price
  IsPriceOf [] amount (some price) = Averages [] amount price
  IsPriceOf (p ∷ q ∷ parts) amount (some price) = Averages (p ∷ q ∷ parts) amount price

  several-Averages :
      (parts : List (Reported Num)) (total : Option Num) (fills : Option (List (Num × Num)))
      (amount price : Num)
      → known_fills D C R parts ≡ fills
      → several_fills D C R total fills ≡ fine (some amount, some price)
      → Averages parts amount price
  unfolding several_fills
  several-Averages parts none fills amount price e h = cc
  several-Averages parts (some total) none amount price e h = cc
  several-Averages parts (some total) (some fills) amount price e h =
      let amounts = sum_from D C R (zero_of D) (map (λ f. f.0) fills) in
      let (priced, h') =
        test-fine (any (λ f. less (zero_of D) f.0 && less f.1 (smallest D C R)) fills)
          "fill_price_not_positive" _ h in
      let (adds_up, h'') =
        test-fine (not (num_eq D C R amounts total)) "fills_do_not_add_up" _ h' in
      elim (Bool-cases (num_eq D C R total (zero_of D))) [
        | inl z ↦ absurd (ground arith)
        | inr z ↦
            let is_total : total ≡ amount = ground arith in
            subst (λ a. Averages parts a price) is_total
              (fills, e, any-All _ fills priced, ground arith, ground arith)
      ]

  fill_of-IsPriceOf :
      (total : Option Num) (parts : List (Reported Num)) (amount price : Num)
      → fill_of D C R total parts ≡ fine (some amount, some price)
      → IsPriceOf parts amount (some price)
  unfolding fill_of
  fill_of-IsPriceOf total (part ∷ []) amount price h = ground arith
  fill_of-IsPriceOf total [] amount price h =
      several-Averages [] total (known_fills D C R []) amount price refl h
  fill_of-IsPriceOf total (p ∷ q ∷ parts) amount price h =
      several-Averages (p ∷ q ∷ parts) total (known_fills D C R (p ∷ q ∷ parts)) amount price refl h

  -- The price that is kept is the one of the fill, where one is kept.
  abbrev pub IsKeptOf : Option Num → Option Num → Type 0
  IsKeptOf price none = Unit {0}
  IsKeptOf price (some kept) = price ≡ some kept

  pub kept-IsKeptOf :
      (b : Bool) (word : String) (amount : Num) (price kept : Option Num)
      → kept_price D C R b word amount price ≡ fine kept
      → IsKeptOf price kept
  unfolding kept_price
  kept-IsKeptOf b word amount price none h = tt
  kept-IsKeptOf b word amount none (some kept) h = absurd (ground arith)
  kept-IsKeptOf b word amount (some price) (some kept) h = ground arith

  pub fill-IsPriceOf :
      (parts : List (Reported Num)) (amount : Num) (price kept : Option Num)
      → fill D C R parts ≡ fine (some amount, price)
      → IsKeptOf price kept
      → IsPriceOf parts amount kept
  unfolding fill
  fill-IsPriceOf [] amount price none h e = tt
  fill-IsPriceOf (part ∷ []) amount price none h e = tt
  fill-IsPriceOf (p ∷ q ∷ parts) amount price none h e = tt
  fill-IsPriceOf parts amount price (some kept) h e =
      let (total, _, g) =
        bind-fine (one_total D C R (totals D C R parts)) (λ t. fill_of D C R t parts) h in
      fill_of-IsPriceOf total parts amount kept (g ∙ ap (λ p. fine (some amount, p)) e)

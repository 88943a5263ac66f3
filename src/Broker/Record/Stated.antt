-- ===== src/Broker/Record/Stated.antt =====
-- apps/api/app/execution/broker_record.py: what is taken down of a record that passes is what the
-- record states.
use mathlib.Core.Path.{subst}
use t212_cashguard.Common.{
  ◌≡◌, refl, inl, inr, Bool, true, false, not, ◌&&◌, Option, none, some, String, List, [], ◌∷◌,
  arith, str_eq, eq_iff, Bool-cases,
}
use t212_cashguard.Common.Numeric.{Decimals, IsOrdered, zero_of}
use t212_cashguard.Broker.{Json, Conversions, finite_number}
use t212_cashguard.Broker.Record.{
  fine, ◌>>=◌, ◌>>◌, refuse_when, LocalOrder, Reported, RecordConversions, is_none, stated, at,
  first,
}
use t212_cashguard.Broker.Record.Reading.{
  status_paths, filled_paths, one_fill_paths, price_paths, AmountReasons, filled_reasons, amount,
  require_same_order, read_price, is_missing, or_refuse, status_word, when, filled_at_paths, read,
}
use t212_cashguard.Broker.Record.History.{read_all}
use t212_cashguard.Broker.Record.Amounts.{bind-fine, test-fine}

module _ (D : Decimals) (C : Conversions (Decimals.Num D))
    (R : RecordConversions (Decimals.Num D) (Conversions.Int C))
    (order : IsOrdered (Decimals.Num D) (Decimals.less D)) where
  open D use {Num, less, literal}
  open C use {Int}
  open R use {as_amount}

  -- An amount is the finite number that the value is, without its sign; only a sale's may be negative.
  abbrev pub IsAmountIn : Json Num Int → String → Option Num → Type 0
  IsAmountIn raw side none = is_none raw ≡ true
  IsAmountIn raw side (some x) =
      (n : Num) × (finite_number C raw ≡ some n)
      × (as_amount n ≡ some x)
      × (less n (zero_of D) ≡ true → side ≡ "sell")

  -- A price is the finite number that the value is, not negative and below the first that is too large
  -- to be stored.
  abbrev pub IsPriceIn : Json Num Int → Option Num → Type 0
  IsPriceIn raw none = is_none raw ≡ true
  IsPriceIn raw (some p) =
      (finite_number C raw ≡ some p)
      × (less p (zero_of D) ≡ false)
      × (less p (literal 1_000_000_000_000 0) ≡ true)

  or_refuse-some :
      {A : Type 0} (o : Option A) (reason : String) {a : A}
      → or_refuse D C R o reason ≡ fine a
      → o ≡ some a
  or_refuse-some none reason h = cc
  or_refuse-some (some x) reason h = ground arith

  only_sold :
      (negative : Bool) (side : String)
      → negative && not (str_eq side "sell") ≡ false
      → negative ≡ true
      → side ≡ "sell"
  only_sold negative side h e = (eq_iff side "sell").0 (ground arith)

  pub amount-IsAmountIn :
      (raw : Json Num Int) (side : String) (what : AmountReasons) (x : Option Num)
      → amount D C R raw side what ≡ fine x
      → IsAmountIn raw side x
  unfolding amount
  amount-IsAmountIn raw side what x h = elim (Bool-cases (is_none raw)) [
    | inl e ↦ let none_given : none ≡ x = cc (rw e at h) in subst (IsAmountIn raw side) none_given e
    | inr e ↦
        let rest = λ (n : Num).
          or_refuse D C R (as_amount n) what.too_large >>= λ value. fine (some value) in
        let (n, f, k) =
          bind-fine (or_refuse D C R (finite_number C raw) what.not_a_number)
            (λ n.
              refuse_when (less n (zero_of D) && not (str_eq side "sell"))
                what.sign_contradicts_side
              >> rest n)
            (rw e at h) in
        let (sign, k') = test-fine _ what.sign_contradicts_side (rest n) k in
        let (value, g, is_value) =
          bind-fine (or_refuse D C R (as_amount n) what.too_large) (λ value. fine (some value))
            k' in
        let given : some value ≡ x = cc is_value in
        subst (IsAmountIn raw side) given (
          n,
          or_refuse-some (finite_number C raw) what.not_a_number f,
          or_refuse-some (as_amount n) what.too_large g,
          only_sold (less n (zero_of D)) side sign,
        )
  ]

  pub read_price-IsPriceIn :
      (raw : Json Num Int) (x : Option Num) → read_price D C R raw ≡ fine x → IsPriceIn raw x
  unfolding read_price
  read_price-IsPriceIn raw x h = elim (Bool-cases (is_none raw)) [
    | inl e ↦ let none_given : none ≡ x = cc (rw e at h) in subst (IsPriceIn raw) none_given e
    | inr e ↦
        let below = λ (p : Num).
          refuse_when (not (less p (literal 1_000_000_000_000 0))) "fill_price_too_large"
          >> fine (some p) in
        let (p, f, k) =
          bind-fine (or_refuse D C R (finite_number C raw) "fill_price_not_a_number")
            (λ p. refuse_when (less p (zero_of D)) "fill_price_not_positive" >> below p)
            (rw e at h) in
        let (positive, k') = test-fine (less p (zero_of D)) "fill_price_not_positive" (below p) k in
        let (small, is_price) =
          test-fine (not (less p (literal 1_000_000_000_000 0))) "fill_price_too_large"
            (fine (some p)) k' in
        let given : some p ≡ x = cc is_price in
        subst (IsPriceIn raw) given
          (or_refuse-some (finite_number C raw) "fill_price_not_a_number" f, positive, ground arith)
  ]

  -- What is taken down of a record: that it is about this order, and its word for the status, its
  -- amount and its price as it states them, wherever it does.
  pub record States (payload : Json Num Int) (local : LocalOrder Num) (part : Reported Num)
      : Type 0 where
    pub same : require_same_order D C R payload local ≡ fine tt
    pub status :
        (raw : Json Num Int) × (stated D C R payload status_paths false ≡ fine raw)
        × (part.status ≡ status_word D C R raw)
    pub filled :
        (raw : Json Num Int) × (stated D C R payload filled_paths true ≡ fine raw)
        × IsAmountIn raw local.side part.filled
    pub one_fill : IsAmountIn (first payload one_fill_paths) local.side part.one_fill
    pub price :
        (raw : Json Num Int) × (stated D C R payload price_paths true ≡ fine raw)
        × IsPriceIn raw part.price

  pub read-States :
      (payload : Json Num Int) (local : LocalOrder Num) (part : Reported Num)
      → read D C R payload local ≡ fine part
      → States payload local part
  unfolding read
  read-States payload local part h =
      let (_, same, h1) = bind-fine (require_same_order D C R payload local) _ h in
      let (raw_price, stated_price, h2) = bind-fine (stated D C R payload price_paths true) _ h1 in
      let (price, is_price, h3) = bind-fine (read_price D C R raw_price) _ h2 in
      let (one_fill, is_fill, h4) =
        bind-fine (amount D C R (first payload one_fill_paths) local.side filled_reasons) _ h3 in
      let (_, h5) =
        test-fine (is_missing D C R one_fill && not (is_none (at payload ("fill" ∷ "price" ∷ []))))
          "fill_without_its_quantity" _ h4 in
      let (raw_status, stated_status, h6) =
        bind-fine (stated D C R payload status_paths false) _ h5 in
      let (raw_filled, stated_filled, h7) =
        bind-fine (stated D C R payload filled_paths true) _ h6 in
      let (filled, is_filled, h8) =
        bind-fine (amount D C R raw_filled local.side filled_reasons) _ h7 in
      let made : Reported Num = record {
        status = status_word D C R raw_status;
        filled = filled;
        one_fill = one_fill;
        price = price;
        filled_at = when D C R (first payload filled_at_paths);
      } in
      let is_part : made ≡ part = cc h8 in
      subst (States payload local) is_part (record {
        same = same;
        status = (raw_status, stated_status, refl);
        filled =
            (raw_filled, stated_filled, amount-IsAmountIn raw_filled local.side _ filled is_filled);
        one_fill = amount-IsAmountIn _ local.side _ one_fill is_fill;
        price = (raw_price, stated_price, read_price-IsPriceIn raw_price price is_price);
      })

  -- Each record with what is taken down of it, in order.
  abbrev pub EachStates : List (Json Num Int) → LocalOrder Num → List (Reported Num) → Type 0
  EachStates [] local [] = Unit {0}
  EachStates [] local (part ∷ parts) = ⊥
  EachStates (entry ∷ entries) local [] = ⊥
  EachStates (entry ∷ entries) local (part ∷ parts) =
      States entry local part × EachStates entries local parts

  pub read_all-EachStates :
      (entries : List (Json Num Int)) (local : LocalOrder Num) (parts : List (Reported Num))
      → read_all D C R entries local ≡ fine parts
      → EachStates entries local parts
  unfolding read_all
  read_all-EachStates [] local [] h = tt
  read_all-EachStates [] local (part ∷ parts) h = cc
  read_all-EachStates (entry ∷ entries) local parts h =
      let (part, e, k) = bind-fine (read D C R entry local) _ h in
      let (rest, f, is_parts) = bind-fine (read_all D C R entries local) _ k in
      let made : part ∷ rest ≡ parts = cc is_parts in
      subst (EachStates (entry ∷ entries) local) made
        (read-States entry local part e, read_all-EachStates entries local rest f)

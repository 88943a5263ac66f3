-- ===== src/Paper/Sound.antt =====
-- apps/api/app/execution/paper_engine.py: no operation leaves a negative position, a negative number
-- of shares to sell, or a negative amount of cash.
use t212_cashguard.Common.{
  ℕ, ◌≡◌, ◌⊎◌, true, false, ◌&&◌, Option, none, some, String, List, [], ◌∷◌, ◌++◌, inl, inr,
  Bool-cases, Option-cases, str_eq, All,
}
use t212_cashguard.Common.Numeric.{
  Decimals, IsOrdered, less_asymm, not_less_trans, zero_of, is_positive, min_of,
}
use t212_cashguard.Paper.{Book, PositionSnapshot}
use t212_cashguard.Paper.Ledger.{
  Fill, sellable_of, sellable_paper_quantity, new_quantity, new_available_quantity, snapshot_of,
  book_after, account_of, lookup, has_key, set_default, latest_from, latest_paper_positions,
  previous_quantity_of,
}
use t212_cashguard.Paper.Rules.{Claim}

-- What signs of sums and differences promise.
pub record IsSigned (D : Decimals) : Type 0 where
  pub order : IsOrdered D.Num D.less
  pub add_nonneg :
      (a b : D.Num)
      → D.less a (zero_of D) ≡ false
      → D.less b (zero_of D) ≡ false
      → D.less (D.add a b) (zero_of D) ≡ false
  pub sub_nonneg : (a b : D.Num) → D.less a b ≡ false → D.less (D.sub a b) (zero_of D) ≡ false

module _ (D : Decimals) where
  open D use {Num, add, sub, less}

  abbrev pub NotNegative : Num → Type 0
  NotNegative n = less n (zero_of D) ≡ false

  abbrev pub PositionSound : PositionSnapshot Num → Type 0
  PositionSound p = NotNegative p.quantity × NotNegative (sellable_of D p)

  -- No position, no number of shares to sell and no amount of cash is negative.
  unfoldable pub IsSound : Book Num → Type 0
  IsSound book = All PositionSound book.positions × All (λ a. NotNegative a.cash) book.accounts

  -- A claim about the account alone.
  abbrev pub sound : Claim Num
  sound book order = IsSound book

  -- The side is one of those that `PaperOrderCreate` allows.
  abbrev pub HasSide : String → Type 0
  HasSide side =
      (str_eq side "buy" ≡ true) ⊎ ((str_eq side "buy" ≡ false) × (str_eq side "sell" ≡ true))

  module _ (upper : String → String) where
    abbrev pub AllEntries : List (String × PositionSnapshot Num) → Type 0
    AllEntries d = All (λ entry. PositionSound entry.1) d

    All-snoc :
        (key : String) (p : PositionSnapshot Num) (d : List (String × PositionSnapshot Num))
        → PositionSound p
        → AllEntries d
        → AllEntries (d ++ (key, p) ∷ [])
    All-snoc key p [] h g = (h, tt)
    All-snoc key p (x ∷ d) h (g, gs) = (g, All-snoc key p d h gs)

    set_default-All :
        (key : String) (p : PositionSnapshot Num) (d : List (String × PositionSnapshot Num))
        → PositionSound p
        → AllEntries d
        → AllEntries (set_default key p d)
    set_default-All key p d h g = elim (Bool-cases (has_key key d)) [
      | inl e ↦ rw e g
      | inr e ↦ rw e (All-snoc key p d h g)
    ]

    latest_from-All :
        (rows : List (PositionSnapshot Num)) (d : List (String × PositionSnapshot Num))
        → AllEntries d
        → All PositionSound rows
        → AllEntries (latest_from D upper d rows)
    latest_from-All [] d h g = h
    latest_from-All (r ∷ rest) d h (g, gs) =
        latest_from-All rest (set_default (upper r.ticker) r d)
          (set_default-All (upper r.ticker) r d g h) gs

    abbrev pub SoundIfFound : Option (PositionSnapshot Num) → Type 0
    SoundIfFound none = Unit
    SoundIfFound (some p) = PositionSound p

    lookup-Sound :
        (key : String) (d : List (String × PositionSnapshot Num))
        → AllEntries d
        → SoundIfFound (lookup key d)
    lookup-Sound key [] h = tt
    lookup-Sound key ((k, p) ∷ rest) (h, hs) = elim (Bool-cases (str_eq key k)) [
      | inl e ↦ rw e h
      | inr e ↦ rw e (lookup-Sound key rest hs)
    ]

    pub latest-Sound :
        (ticker : String) (book : Book Num)
        → All PositionSound book.positions
        → SoundIfFound (lookup ticker (latest_paper_positions D upper book))
    unfolding latest_paper_positions
    latest-Sound ticker book h = lookup-Sound ticker _ (latest_from-All book.positions [] tt h)

    module _ (signs : IsSigned D) where
      min-NotNegative : (a b : Num) → NotNegative a → NotNegative b → NotNegative (min_of D a b)
      min-NotNegative a b h k = elim (Bool-cases (less b a)) [ inl e ↦ rw e k | inr e ↦ rw e h ]

      min-le : (a b : Num) → less a (min_of D a b) ≡ false
      min-le a b = elim (Bool-cases (less b a)) [
        | inl e ↦ rw e (less_asymm signs.order b a e)
        | inr e ↦ rw e (signs.order.irrefl a)
      ]

      sellable_le_quantity : (p : PositionSnapshot Num) → less p.quantity (sellable_of D p) ≡ false
      unfolding sellable_of
      sellable_le_quantity p = elim (Option-cases p.quantity_available) [
        | inl e ↦ rw e (signs.order.irrefl p.quantity)
        | inr (available, e) ↦ rw e (min-le p.quantity available)
      ]

      -- What the checks before a fill have established.
      pub record IsChecked (f : Fill D) : Type 0 where
        pub positive : is_positive D f.filled_quantity ≡ true
        pub side : HasSide f.order.side
        pub owned :
            (str_eq f.order.side "sell"
              && less (sellable_paper_quantity D f.previous) f.filled_quantity)
            ≡ false
        pub found : SoundIfFound f.previous

      filled-NotNegative : (f : Fill D) → IsChecked f → NotNegative f.filled_quantity
      filled-NotNegative f h = less_asymm signs.order (zero_of D) f.filled_quantity h.positive

      before-Sound :
          (previous : Option (PositionSnapshot Num))
          → SoundIfFound previous
          → NotNegative (previous_quantity_of D previous)
            × NotNegative (sellable_paper_quantity D previous)
            × (less (previous_quantity_of D previous) (sellable_paper_quantity D previous) ≡ false)
      unfolding sellable_paper_quantity
      before-Sound none h = (
        signs.order.irrefl (zero_of D),
        signs.order.irrefl (zero_of D),
        signs.order.irrefl (zero_of D),
      )
      before-Sound (some p) (h, k) = (h, k, sellable_le_quantity p)

      quantities-NotNegative :
          (f : Fill D)
          → IsChecked f
          → NotNegative (new_quantity D f) × NotNegative (new_available_quantity D f)
      unfolding new_quantity new_available_quantity
      quantities-NotNegative f h =
          let (q, a, below) = before-Sound f.previous h.found in
          let filled = filled-NotNegative f h in
          elim h.side [
            | inl buy ↦ rw buy (signs.add_nonneg _ _ q filled, signs.add_nonneg _ _ a filled)
            | inr (other, sell) ↦
                let owned : less (sellable_paper_quantity D f.previous) f.filled_quantity ≡ false =
                  cc (sell, h.owned) in
                rw other (
                  signs.sub_nonneg _ _ (not_less_trans signs.order _ _ _ below owned),
                  signs.sub_nonneg _ _ owned,
                )
          ]

      snapshot-Sound : (f : Fill D) (now : ℕ) → IsChecked f → PositionSound (snapshot_of D f now)
      unfolding snapshot_of sellable_of
      snapshot-Sound f now h =
          let (q, a) = quantities-NotNegative f h in (q, min-NotNegative _ _ q a)

      pub book_after-Sound :
          (book : Book Num) (f : Fill D) (cash : Num) (now : ℕ)
          → IsChecked f
          → NotNegative cash
          → IsSound book
          → IsSound (book_after D upper book f cash now)
      unfolding IsSound book_after account_of
      book_after-Sound book f cash now h c (ps, accounts) =
          ((snapshot-Sound f now h, ps), (c, accounts))

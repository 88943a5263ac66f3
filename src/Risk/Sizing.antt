-- ===== src/Risk/Sizing.antt =====
-- apps/api/app/risk/engine.py: drawdown-adaptive position sizing.
use t212_cashguard.Common.{
  true, false, ◌≤◌, ◌≡◌, ◌⊎◌, inl, inr, arith, Bool-cases, ℕ, not, Option, String, if◌then◌else◌,
}
use t212_cashguard.Common.Numeric.{
  Decimals, Floats, IsOrdered, less_asymm, less_of_less_of_not_less, not_less_trans, zero_of,
  one_of, hundred_of, min_of, max_of,
}
use t212_cashguard.Risk.Judge.{with_event}
use t212_cashguard.Risk.{Db, Method, ok, ◌>>=◌, log}

-- The label of a tier.
pub data Tier : Type 0 where
  full reduced half quarter : Tier

-- The rank of a tier, the largest reduction last.
abbrev pub depth : Tier → ℕ
depth full = 0
depth reduced = 1
depth half = 2
depth quarter = 3

-- `DRAWDOWN_TIER1_PCT` and its kin of the settings.
pub record Tiers (Float : Type 0) : Type 0 where
  pub tier1 : Float
  pub tier2 : Float
  pub tier3 : Float

module _ (D : Decimals) (F : Floats (Decimals.Num D)) where
  open D use {Num, literal, mul, div, absolute, quantize, less}
  open F use {Float, to_float, float_less}

  -- `float(abs(min(realized_pnl_today, Decimal("0"))) / account_value * 100)`
  abbrev pub loss_percent : Num → Num → Float
  loss_percent realized_pnl_today account_value =
      to_float (
        mul (div (absolute (min_of D realized_pnl_today (zero_of D))) account_value) (hundred_of D))

  unfoldable pub get_drawdown_size_factor : Tiers Float → Num → Num → Num × Tier
  get_drawdown_size_factor cfg realized_pnl_today account_value =
      let loss_pct = loss_percent realized_pnl_today account_value in
      if not (less (zero_of D) account_value)
      then (one_of D, full)
      else if not (float_less loss_pct cfg.tier3)
      then (literal 25 2, quarter)
      else if not (float_less loss_pct cfg.tier2)
      then (literal 50 2, half)
      else if not (float_less loss_pct cfg.tier1)
      then (literal 75 2, reduced)
      else (one_of D, full)

  -- `max(Decimal("1"), (quantity * factor).quantize(Decimal("1")))`
  abbrev pub scaled_quantity : Num → Num → Num
  scaled_quantity quantity factor = max_of D (one_of D) (quantize 0 (mul quantity factor))

  unfoldable pub apply_drawdown_sizing :
      Tiers Float → Num → Num → Num → Option ℕ → Option String → Method Num Num
  unfolding get_drawdown_size_factor log
  apply_drawdown_sizing cfg quantity realized_pnl_today account_value signal_id ticker =
      let (factor, tier) = get_drawdown_size_factor cfg realized_pnl_today account_value in
      let scaled = scaled_quantity quantity factor in
      if less factor (one_of D)
      then log "drawdown_size_reduction" ticker signal_id >>= (λ _ db. (ok scaled, db))
      else λ db. (ok quantity, db)

  -- A larger loss, in percent of the account, never leads to a milder tier.
  pub drawdown_monotone :
      (order : IsOrdered Float float_less) (cfg : Tiers Float) (p q account_value : Num)
      → float_less (loss_percent q account_value) (loss_percent p account_value) ≡ false
      → depth (get_drawdown_size_factor cfg p account_value).1
        ≤ depth (get_drawdown_size_factor cfg q account_value).1
  unfolding get_drawdown_size_factor
  drawdown_monotone order cfg p q account_value h =
      let keeps = λ (t : Float).
        not_less_trans order (loss_percent q account_value) (loss_percent p account_value) t h in
      ground (arith, keeps cfg.tier3, keeps cfg.tier2, keeps cfg.tier1)

  -- A reduced quantity is one share at least, and one risk event is logged; an order that is not
  -- reduced keeps its quantity and logs nothing.
  pub sizing_ends :
      (order : IsOrdered Num less) (cfg : Tiers Float) (quantity pnl account_value : Num)
      (signal_id : Option ℕ) (ticker : Option String) (db : Db Num)
      → let factor = (get_drawdown_size_factor cfg pnl account_value).0 in
        let run = apply_drawdown_sizing cfg quantity pnl account_value signal_id ticker db in
        ((less factor (one_of D) ≡ false) × (run ≡ (ok quantity, db)))
        ⊎ ((less factor (one_of D) ≡ true)
            × (s : Num) × (run ≡ (
              ok s,
              with_event
                  (record {
                    event_type = "drawdown_size_reduction";
                    ticker = ticker;
                    signal_id = signal_id;
                  })
                  db,
            ))
            × (less s (one_of D) ≡ false))
  unfolding apply_drawdown_sizing
  sizing_ends order cfg quantity pnl account_value signal_id ticker db =
      let factor = (get_drawdown_size_factor cfg pnl account_value).0 in
      elim (Bool-cases (less factor (one_of D))) [
        | inr keeps ↦ inl (keeps, ground (arith, keeps))
        | inl cut ↦ inr (
          cut,
          scaled_quantity quantity factor,
          ground (arith, cut),
          at_least_one quantity factor,
        )
      ]
    where
      at_least_one : (q f : Num) → less (scaled_quantity q f) (one_of D) ≡ false
      at_least_one q f =
          let x = quantize 0 (mul q f) in
          elim (Bool-cases (less (one_of D) x)) [
            | inl above ↦ rw above (less_asymm order (one_of D) x above)
            | inr below ↦ rw below (order.irrefl (one_of D))
          ]

  -- A purchase or sale of less than one share that the drawdown is meant to reduce is raised instead:
  -- the quantity that is returned is one share at least, which is more than was asked, and the risk
  -- event of a reduction is logged, and nothing else.
  pub sizing_raises_fractions :
      (order : IsOrdered Num less) (cfg : Tiers Float) (quantity pnl account_value : Num)
      (signal_id : Option ℕ) (ticker : Option String) (db : Db Num)
      → less quantity (one_of D) ≡ true
      → less (get_drawdown_size_factor cfg pnl account_value).0 (one_of D) ≡ true
      → (s : Num) × (apply_drawdown_sizing cfg quantity pnl account_value signal_id ticker db ≡ (
        ok s,
        with_event
            (record {
              event_type = "drawdown_size_reduction";
              ticker = ticker;
              signal_id = signal_id;
            })
            db,
      ))
        × (less s (one_of D) ≡ false)
        × (less quantity s ≡ true)
  sizing_raises_fractions order cfg quantity pnl account_value signal_id ticker db small cut =
      elim (sizing_ends order cfg quantity pnl account_value signal_id ticker db) [
        | inl (keeps, _) ↦ cc
        | inr (_, s, run, bound) ↦
            (s, run, bound, less_of_less_of_not_less order quantity (one_of D) s small bound)
      ]

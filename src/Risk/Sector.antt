-- ===== src/Risk/Sector.antt =====
-- apps/api/app/risk/engine.py: `RiskEngine.check_sector_and_correlation`.
use t212_cashguard.Common.{
  All, ℕ, ◌≡◌, ◌≤◌, inl, inr, refl, true, Option, some, String, List, [], ◌∷◌, arith, length,
  str_eq, ◌==◌, if◌then◌else◌, Bool-cases,
}
use t212_cashguard.Common.Numeric.{Floats}
use t212_cashguard.Correlation.{
  Position, Checker, get_or_default, put_key, or_value, check_sector_exposure, check_correlation,
}
use t212_cashguard.Risk.{Db, Method, ◌>>◌, pass, block}
use t212_cashguard.Risk.Judge.{Judges, Judges-iff, Judges-seq, Judges-pass}

module _ {Num : Type 0} (F : Floats Num) (upper : String → String) where
  open F use {Float, float_literal, to_float}

  -- `pos.get("average_price", pos.get("avg_price", 100))`
  abbrev pub stub_price : Position Float → Float
  stub_price pos = or_value pos.average_price (or_value pos.avg_price (float_literal 100 0))

  -- The loop that fills `price_history`: each held ticker gets a list of one price.
  unfoldable pub stub_history :
      List (Position Float) → List (String × List Float) → List (String × List Float)
  stub_history [] history = history
  stub_history (pos ∷ rest) history =
      let ticker = or_value pos.ticker "" in
      stub_history rest
        (if str_eq ticker "" then history else put_key ticker (stub_price pos ∷ []) history)

  -- `get_correlation_checker()`
  unfoldable pub correlation_checker : Checker Float
  correlation_checker = record {
    max_sector_pct = float_literal 250 1;
    max_correlation = float_literal 75 2;
    etf_exempt = true;
  }

  unfoldable pub check_sector_and_correlation :
      String → Num → Num → List (Position Float) → Option ℕ → Method Num (Unit {0})
  unfolding correlation_checker block
  check_sector_and_correlation ticker estimated_value account_value current_positions signal_id = do
    if check_sector_exposure F upper correlation_checker ticker (to_float estimated_value)
          current_positions (to_float account_value)
        then pass
        else block "sector_limit_block" (some ticker) signal_id
    if length (
            check_correlation F upper correlation_checker ticker current_positions
              (stub_history current_positions []))
          == 0
        then pass
        else block "correlation_block" (some ticker) signal_id

  -- In the price history that the check builds, no ticker has more than one price.
  abbrev IsShort : List (String × List Float) → Type 0
  IsShort = All (λ entry. length entry.1 ≤ 1)

  IsShort-get :
      (ticker : String) (history : List (String × List Float))
      → IsShort history
      → length (get_or_default ticker [] history) ≤ 1
  IsShort-get ticker [] h = omega arith
  IsShort-get ticker ((k, v) ∷ rest) (first, h) = elim (Bool-cases (str_eq k ticker)) [
    | inl e ↦ rw e first
    | inr e ↦ rw e (IsShort-get ticker rest h)
  ]

  IsShort-put :
      (key : String) (price : Float) (history : List (String × List Float))
      → IsShort history
      → IsShort (put_key key (price ∷ []) history)
  IsShort-put key price [] h = (omega arith, tt)
  IsShort-put key price ((k, v) ∷ rest) (first, h) = elim (Bool-cases (str_eq k key)) [
    | inl e ↦ rw e (omega arith, h)
    | inr e ↦ rw e (first, IsShort-put key price rest h)
  ]

  stub_history-IsShort :
      (positions : List (Position Float)) (history : List (String × List Float))
      → IsShort history
      → IsShort (stub_history positions history)
  unfolding stub_history
  stub_history-IsShort [] history h = h
  stub_history-IsShort (pos ∷ rest) history h =
      stub_history-IsShort rest _ (elim (Bool-cases (str_eq (or_value pos.ticker "") "")) [
        | inl e ↦ rw e h
        | inr e ↦ rw e (IsShort-put (or_value pos.ticker "") (stub_price pos) history h)
      ])

  no_violations :
      (ticker : String) (positions : List (Position Float))
      → check_correlation F upper correlation_checker ticker positions (stub_history positions [])
        ≡ []
  unfolding check_correlation
  no_violations ticker positions =
      ground (
        arith,
        IsShort-get ticker (stub_history positions []) (stub_history-IsShort positions [] tt),
      )

  -- The correlation limit is never reached: the check gives each ticker one price, and the
  -- comparison wants ten, so whatever the positions are, the outcome is that of the sector limit.
  pub correlation_never_blocks :
      (ticker : String) (estimated_value account_value : Num) (positions : List (Position Float))
      (signal_id : Option ℕ) (db : Db Num)
      → Judges
          (check_sector_and_correlation ticker estimated_value account_value positions signal_id)
          (check_sector_exposure F upper correlation_checker ticker
              (to_float estimated_value)
              positions
              (to_float account_value)
            ≡ true)
          db
  unfolding check_sector_and_correlation
  correlation_never_blocks ticker value account positions signal_id db =
      let allowed =
        check_sector_exposure F upper correlation_checker ticker (to_float value) positions
          (to_float account) in
      let found =
        check_correlation F upper correlation_checker ticker positions
          (stub_history positions []) in
      Judges-iff db (check_sector_and_correlation ticker value account positions signal_id)
        ((allowed ≡ true) × ((length found == 0) ≡ true)) (allowed ≡ true)
        ((λ h. h.0), (λ h. (h, rw (no_violations ticker positions) refl)))
        (Judges-seq db
          (if allowed then pass else block "sector_limit_block" (some ticker) signal_id)
          (if length found == 0 then pass else block "correlation_block" (some ticker) signal_id)
          (allowed ≡ true) ((length found == 0) ≡ true)
          (Judges-pass db allowed (allowed ≡ true) "sector_limit_block" (some ticker) signal_id
            ((λ h. h), (λ h. h)))
          (Judges-pass db (length found == 0) ((length found == 0) ≡ true) "correlation_block"
            (some ticker) signal_id ((λ h. h), (λ h. h))))

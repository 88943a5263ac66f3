-- ===== src/Risk/Market/Enterable.antt =====
-- apps/api/app/risk/engine.py: what `RiskEngine.check_market_conditions` enforces.
use t212_cashguard.Common.{◌≡◌, true, false, not, Option, String, [], ◌∷◌, str_eq, select}
use t212_cashguard.Common.Numeric.{Floats}
use t212_cashguard.Risk.Market.{
  FeedSnapshot, MarketRegime, WatchlistContext, or_text, one_of_words, regime_or_empty,
  context_or_empty, symbol_status, is_bad_symbol, is_event_risk,
}

module _ {Num : Type 0} (F : Floats Num) (upper : String → String) where
  open F use {Float}

  -- A new entry is admissible: the feed is neither stale nor in error, nor is the ticker's own symbol
  -- bad, the regime is one of five words, the strategy is not suppressed in it, and no fresh catalyst
  -- makes its bet unreliable.
  pub record IsEnterable (ticker strategy_type : String) (feed : FeedSnapshot)
      (market_regime : Option MarketRegime) (watchlist_context : Option (WatchlistContext Float))
      : Type 0 where
    pub fresh : one_of_words ("stale" ∷ "error" ∷ []) (or_text "unknown" feed.status) ≡ false
    pub symbol_ok : is_bad_symbol F upper (symbol_status F upper ticker feed.symbols) ≡ false
    pub regime_ok :
        one_of_words
          ("trending_up" ∷ "trending_down" ∷ "ranging" ∷ "risk_off" ∷ "unsafe" ∷ [])
          (or_text "unknown" (regime_or_empty market_regime).regime)
        ≡ true
    pub allowed :
        one_of_words
          (select
            (λ item. not (str_eq item ""))
            (regime_or_empty market_regime).suppressed_strategies)
          strategy_type
        ≡ false
    pub calm : is_event_risk F upper strategy_type (context_or_empty watchlist_context) ≡ false

-- ===== src/Allocator/Granted.antt =====
-- apps/api/app/services/signal_allocator.py: which candidates win, and what a run grants in all.
use t212_cashguard.Common.{
  ℕ, ◌≡◌, ◌↔◌, Bool, true, false, not, ◌&&◌, ◌||◌, Option, String, List, ◌++◌, refl, str_eq, arith,
}
use t212_cashguard.Common.Numeric.{Decimals, Floats, is_positive}
use t212_cashguard.Allocator.{
  AllocatorCandidate, is_in, notional, regime_gross_cap_pct, max_symbol_pct,
  regime_run_risk_cap_pct,
}
use t212_cashguard.Allocator.Decide.{
  Blocking, AllocationState, Account, block_if, status_of, is_buy, score_of, projected_gross_pct,
  projected_symbol_pct, run_risk_pct, blocking_reasons, decide,
}
use t212_cashguard.Allocator.Decide.AllocationStatus.{allocated}

-- The tests of a decision, and when none of them blocks.
abbrev reasons_of : Bool → Bool → Bool → Bool → Bool → Bool → Bool → List Blocking
reasons_of b₁ b₂ b₃ b₄ b₅ b₆ b₇ =
    block_if b₁ Blocking.invalid_quantity_or_price
    ++ block_if b₂ Blocking.insufficient_available_cash
    ++ block_if b₃ Blocking.same_symbol_already_won
    ++ block_if b₄ Blocking.gross_exposure_exceeds_cap
    ++ block_if b₅ Blocking.symbol_exposure_exceeds_cap
    ++ block_if b₆ Blocking.run_risk_exceeds_cap
    ++ block_if b₇ Blocking.score_below_threshold

none_blocks :
    (b₁ b₂ b₃ b₄ b₅ b₆ b₇ : Bool)
    → (status_of (reasons_of b₁ b₂ b₃ b₄ b₅ b₆ b₇) ≡ allocated)
      ↔ ((b₁ || b₂ || b₃ || b₄ || b₅ || b₆ || b₇) ≡ false)
none_blocks true b₂ b₃ b₄ b₅ b₆ b₇ = ((λ h. cc h), λ h. cc h)
none_blocks false true b₃ b₄ b₅ b₆ b₇ = ((λ h. cc h), λ h. cc h)
none_blocks false false true b₄ b₅ b₆ b₇ = ((λ h. cc h), λ h. cc h)
none_blocks false false false true b₅ b₆ b₇ = ((λ h. cc h), λ h. cc h)
none_blocks false false false false true b₆ b₇ = ((λ h. cc h), λ h. cc h)
none_blocks false false false false false true b₇ = ((λ h. cc h), λ h. cc h)
none_blocks false false false false false false true = ((λ h. cc h), λ h. cc h)
none_blocks false false false false false false false = ((λ h. refl), λ h. refl)

-- The tests that pass for every candidate, and those that are only made of a purchase.
abbrev blocks : Bool → Bool → Bool → Bool → Bool → Bool → Bool → Bool → Bool → Bool
blocks q p buy t₁ t₂ t₃ t₄ t₅ t₆ =
    (not q || not p)
    || (buy && t₁)
    || (buy && t₂)
    || (buy && t₃)
    || (buy && t₄)
    || (buy && t₅)
    || (buy && t₆)

abbrev AllFalse : Bool → Bool → Bool → Bool → Bool → Bool → Type 0
AllFalse t₁ t₂ t₃ t₄ t₅ t₆ =
    (t₁ ≡ false) × (t₂ ≡ false) × (t₃ ≡ false) × (t₄ ≡ false) × (t₅ ≡ false) × (t₆ ≡ false)

unblocked :
    (q p buy t₁ t₂ t₃ t₄ t₅ t₆ : Bool)
    → (blocks q p buy t₁ t₂ t₃ t₄ t₅ t₆ ≡ false)
      ↔ ((q ≡ true) × (p ≡ true) × (buy ≡ true → AllFalse t₁ t₂ t₃ t₄ t₅ t₆))
unblocked false p buy t₁ t₂ t₃ t₄ t₅ t₆ = ((λ h. cc h), λ h. cc h.0)
unblocked true false buy t₁ t₂ t₃ t₄ t₅ t₆ = ((λ h. cc h), λ (_, h, _). cc h)
unblocked true true false t₁ t₂ t₃ t₄ t₅ t₆ = ((λ h. (refl, refl, λ e. cc e)), λ h. refl)
unblocked true true true t₁ t₂ t₃ t₄ t₅ t₆ =
    ((λ h. (refl, refl, λ _. ground arith)), λ (_, _, f). let g = f refl in ground arith)

module _ (D : Decimals) (F : Floats (Decimals.Num D)) (upper : String → String) where
  open D use {Num, add, less}
  open F use {Float, float_less}

  -- What is asked of a purchase.
  pub record IsAffordable (a : Account D F upper) (c : AllocatorCandidate Num Float)
      (state : AllocationState Num Float) : Type 0 where
    pub paid : less a.available_cash (notional D F c) ≡ false
    pub not_won : is_in (upper c.ticker) state.accepted_tickers ≡ false
    pub gross_within :
        float_less
          (regime_gross_cap_pct D F a.limits a.regime)
          (projected_gross_pct D F upper a c state)
        ≡ false
    pub symbol_within :
        float_less (max_symbol_pct D F a.limits c) (projected_symbol_pct D F upper a c) ≡ false
    pub risk_within :
        float_less
          (regime_run_risk_cap_pct D F a.limits a.regime)
          (run_risk_pct D F upper a c state)
        ≡ false
    pub scored : float_less (score_of D F upper a c state) a.limits.min_score ≡ false

  -- A candidate is allocated exactly if its quantity and its price are positive and, where it is a
  -- purchase, its cost is within the available cash, its ticker has not won in this run, and no cap
  -- and no score threshold is missed. A sale is never stopped by a cap.
  pub decide-allocated_iff :
      (a : Account D F upper) (c : AllocatorCandidate Num Float)
      → (state : AllocationState Num Float) (rank : Option ℕ)
      → ((decide D F upper a c state rank).status ≡ allocated) ↔ (
          (is_positive D c.quantity ≡ true)
          × (is_positive D c.entry_price ≡ true)
          × (str_eq c.side "buy" ≡ true → IsAffordable a c state))
  unfolding decide blocking_reasons
  decide-allocated_iff a c state rank =
      let buy = is_buy c in
      let tests =
        none_blocks (not (is_positive D c.quantity) || not (is_positive D c.entry_price))
          (buy && less a.available_cash (notional D F c))
          (buy && is_in (upper c.ticker) state.accepted_tickers)
          (buy
            && float_less (regime_gross_cap_pct D F a.limits a.regime)
                (projected_gross_pct D F upper a c state))
          (buy && float_less (max_symbol_pct D F a.limits c) (projected_symbol_pct D F upper a c))
          (buy
            && float_less (regime_run_risk_cap_pct D F a.limits a.regime)
                (run_risk_pct D F upper a c state))
          (buy && float_less (score_of D F upper a c state) a.limits.min_score) in
      let clear =
        unblocked (is_positive D c.quantity) (is_positive D c.entry_price) buy
          (less a.available_cash (notional D F c)) (is_in (upper c.ticker) state.accepted_tickers)
          (float_less (regime_gross_cap_pct D F a.limits a.regime)
            (projected_gross_pct D F upper a c state))
          (float_less (max_symbol_pct D F a.limits c) (projected_symbol_pct D F upper a c))
          (float_less (regime_run_risk_cap_pct D F a.limits a.regime)
            (run_risk_pct D F upper a c state))
          (float_less (score_of D F upper a c state) a.limits.min_score) in
      (
        (λ h.
            let (q, p, f) = clear.0 (tests.0 h) in
            (
              q,
              p,
              λ e.
                  let (t₁, t₂, t₃, t₄, t₅, t₆) = f e in
                  record {
                    paid = t₁;
                    not_won = t₂;
                    gross_within = t₃;
                    symbol_within = t₄;
                    risk_within = t₅;
                    scored = t₆;
                  },
            )),
        λ (q, p, f). tests.1 (
            clear.1 (
              q,
              p,
              λ e.
                  let g = f e in
                  (g.paid, g.not_won, g.gross_within, g.symbol_within, g.risk_within, g.scored),
            )),
      )

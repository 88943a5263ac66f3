-- ===== src/Allocator/Totals.antt =====
-- apps/api/app/services/signal_allocator.py: what a whole run grants, whatever the candidates are.
use t212_cashguard.Common.{
  ℕ, suc, ◌≡◌, ◌⊎◌, true, false, Option, some, String, List, [], ◌∷◌, refl, inl, inr, ◌∙◌, sym,
  Bool-cases,
}
use mathlib.Core.Path.{subst}
use t212_cashguard.Common.Numeric.{Decimals, Floats, zero_of}
use t212_cashguard.Allocator.{
  AllocatorCandidate, notional, estimated_risk, pct, gross_exposure, regime_gross_cap_pct,
  regime_run_risk_cap_pct,
}
use t212_cashguard.Allocator.Decide.{
  AllocationStatus, AllocationState, Account, is_buy, projected_gross_pct, run_risk_pct, decide,
  allocate_one, allocate_each, allocate_batch, ranking,
}
use t212_cashguard.Allocator.Decide.AllocationStatus.{allocated, rejected}
use t212_cashguard.Allocator.Granted.{decide-allocated_iff, IsAffordable}

pub status-cases : (s : AllocationStatus) → (s ≡ allocated) ⊎ (s ≡ rejected)
status-cases allocated = inl refl
status-cases rejected = inr refl

-- A value that was kept, or else meets a condition, after one more step.
kept_or {ℓ} :
    {A : Type 0} (P : A → Type ℓ) (x y z : A) → (y ≡ x) ⊎ P y → (z ≡ y) ⊎ P z → (z ≡ x) ⊎ P z
kept_or P x y z h (inr p) = inr p
kept_or P x y z (inl e) (inl f) = inl (f ∙ e)
kept_or P x y z (inr p) (inl f) = inr (subst P (sym f) p)

module _ (D : Decimals) (F : Floats (Decimals.Num D)) (upper : String → String) where
  open D use {Num, add, less}
  open F use {Float, float_less}

  module _ (a : Account D F upper) where
    -- The risk of a run, as a share of the account, is within the regime's cap.
    abbrev pub RiskWithin : Num → Type 0
    RiskWithin risk =
        float_less (regime_run_risk_cap_pct D F a.limits a.regime) (pct D F risk a.account_value)
        ≡ false

    -- A total whose last part is a purchase that, with what was held and granted before it, is
    -- within the regime's cap on gross exposure.
    abbrev pub GrossWithin : Num → Type 0
    GrossWithin total =
        (before : Num) × (c : AllocatorCandidate Num Float) × (total ≡ add before (notional D F c))
        × (float_less (regime_gross_cap_pct D F a.limits a.regime) (
              pct D F (add (add (gross_exposure D F a.current_positions) before) (notional D F c))
                a.account_value)
            ≡ false)

    -- What a run leaves of the counts with which it began.
    pub record IsWithinCaps (s t : AllocationState Num Float) : Type 0 where
      pub risk : (t.allocated_risk ≡ s.allocated_risk) ⊎ RiskWithin t.allocated_risk
      pub gross : (t.allocated_value ≡ s.allocated_value) ⊎ GrossWithin t.allocated_value

    within_twice :
        (s t u : AllocationState Num Float) → IsWithinCaps s t → IsWithinCaps t u → IsWithinCaps s u
    within_twice s t u h k = record {
      risk = kept_or RiskWithin s.allocated_risk t.allocated_risk u.allocated_risk h.risk k.risk;
      gross =
          kept_or GrossWithin s.allocated_value t.allocated_value u.allocated_value h.gross k.gross;
    }

    risk_below_cap :
        (c : AllocatorCandidate Num Float) (s : AllocationState Num Float)
        → IsAffordable D F upper a c s
        → RiskWithin (add s.allocated_risk (estimated_risk D F c))
    unfolding run_risk_pct
    risk_below_cap c s ok = ok.risk_within

    gross_below_cap :
        (c : AllocatorCandidate Num Float) (s : AllocationState Num Float)
        → is_buy c ≡ true
        → IsAffordable D F upper a c s
        → float_less (regime_gross_cap_pct D F a.limits a.regime) (
            pct D F
              (add
                (add (gross_exposure D F a.current_positions) s.allocated_value)
                (notional D F c))
              a.account_value)
          ≡ false
    unfolding projected_gross_pct
    gross_below_cap c s buy ok = cc (buy, ok.gross_within)

    module _ (add_zero : (x : Num) → add x (zero_of D) ≡ x) where
      one_allocated :
          (c : AllocatorCandidate Num Float) (s : AllocationState Num Float) (rank : Option ℕ)
          → (decide D F upper a c s rank).status ≡ allocated
          → IsWithinCaps s (allocate_one D F upper a c s rank).1
      unfolding allocate_one
      one_allocated c s rank e = elim (Bool-cases (is_buy c)) [
        | inl buy ↦
            let ok = ((decide-allocated_iff D F upper a c s rank).0 e).2 buy in
            rw (e, buy)
              (record {
                risk = inr (risk_below_cap c s ok);
                gross = inr (s.allocated_value, c, refl, gross_below_cap c s buy ok);
              })
        | inr other ↦
            rw (e, other)
              (record {
                risk = inl (add_zero s.allocated_risk);
                gross = inl (add_zero s.allocated_value);
              })
      ]

      one_within :
          (c : AllocatorCandidate Num Float) (s : AllocationState Num Float) (rank : Option ℕ)
          → IsWithinCaps s (allocate_one D F upper a c s rank).1
      unfolding allocate_one
      one_within c s rank = elim (status-cases (decide D F upper a c s rank).status) [
        | inl e ↦ one_allocated c s rank e
        | inr e ↦ rw e (record { risk = inl refl; gross = inl refl })
      ]

      each_within :
          (n : ℕ) (xs : List (Float × AllocatorCandidate Num Float))
          → (s : AllocationState Num Float) → IsWithinCaps s (allocate_each D F upper a n xs s).1
      unfolding allocate_each
      each_within n [] s = record { risk = inl refl; gross = inl refl }
      each_within n ((_, c) ∷ xs) s =
          let t = (allocate_one D F upper a c s (some n)).1 in
          within_twice s t _ (one_within c s (some n)) (each_within (suc n) xs t)

    -- After a batch the risk that the run has allocated is as before it, or within the regime's cap;
    -- the value it has allocated is as before it, or its last purchase was, with all that was held
    -- and allocated before it, within the regime's cap on gross exposure. It is assumed that adding
    -- zero leaves a number as it is.
    pub allocate_batch-IsWithinCaps :
        ((x : Num) → add x (zero_of D) ≡ x)
        → (cs : List (AllocatorCandidate Num Float)) (s : AllocationState Num Float)
        → IsWithinCaps s (allocate_batch D F upper a cs s).1
    unfolding allocate_batch
    allocate_batch-IsWithinCaps add_zero cs s = each_within add_zero 1 (ranking D F upper a cs) s

-- ===== src/Allocator/Winners.antt =====
-- apps/api/app/services/signal_allocator.py: a ticker that has won in a run is not bought after it.
use t212_cashguard.Common.{
  ℕ, suc, ◌≡◌, ◌≢◌, true, Option, some, String, List, [], ◌∷◌, refl, inl, inr, sym, Bool-cases,
  str_eq, eq_iff, All, arith,
}
use mathlib.Core.Path.{subst}
use t212_cashguard.Common.Numeric.{Decimals, Floats}
use t212_cashguard.Allocator.{AllocatorCandidate, is_in}
use t212_cashguard.Allocator.Decide.{
  AllocationDecision, AllocationState, Account, add_name, decide, allocate_one, allocate_each,
  allocate_batch, ranking,
}
use t212_cashguard.Allocator.Decide.AllocationStatus.{allocated, rejected}
use t212_cashguard.Allocator.Granted.{decide-allocated_iff}
use t212_cashguard.Allocator.Totals.{status-cases}

add_name-has : (n : String) (names : List String) → is_in n (add_name n names) ≡ true
add_name-has n names = elim (Bool-cases (is_in n names)) [
  | inl e ↦ rw e e
  | inr e ↦ rw e (ground (arith, (eq_iff n n).1 refl))
]

add_name-keeps :
    (n m : String) (names : List String) → is_in n names ≡ true → is_in n (add_name m names) ≡ true
add_name-keeps n m names h = elim (Bool-cases (is_in m names)) [
  | inl e ↦ rw e h
  | inr e ↦ rw e (ground (arith, h))
]

module _ {Float : Type 0} where
  -- A decision that does not grant a purchase of a ticker.
  abbrev pub NotBought : String → AllocationDecision Float → Type 0
  NotBought t d = d.status ≡ allocated → str_eq d.side "buy" ≡ true → d.ticker ≢ t

  -- Decisions of which none grants a purchase of a ticker that an earlier one has granted.
  abbrev pub WonOnce : List (AllocationDecision Float) → Type 0
  WonOnce [] = Unit
  WonOnce (d ∷ ds) = (d.status ≡ allocated → All (NotBought d.ticker) ds) × WonOnce ds

module _ (D : Decimals) (F : Floats (Decimals.Num D)) (upper : String → String) where
  open D use {Num}
  open F use {Float}

  abbrev State : Type 0
  State = AllocationState Num Float

  module _ (a : Account D F upper) where
    one_accepts :
        (c : AllocatorCandidate Num Float) (s : State) (rank : Option ℕ)
        → (decide D F upper a c s rank).status ≡ allocated
        → (allocate_one D F upper a c s rank).1.accepted_tickers
          ≡ add_name (upper c.ticker) s.accepted_tickers
    unfolding allocate_one
    one_accepts c s rank e = rw (allocate_one, e) refl

    one_refuses :
        (c : AllocatorCandidate Num Float) (s : State) (rank : Option ℕ)
        → (decide D F upper a c s rank).status ≡ rejected
        → (allocate_one D F upper a c s rank).1.accepted_tickers ≡ s.accepted_tickers
    unfolding allocate_one
    one_refuses c s rank e = rw (allocate_one, e) refl

    one_keeps :
        (t : String) (c : AllocatorCandidate Num Float) (s : State) (rank : Option ℕ)
        → is_in t s.accepted_tickers ≡ true
        → is_in t (allocate_one D F upper a c s rank).1.accepted_tickers ≡ true
    one_keeps t c s rank h = elim (status-cases (decide D F upper a c s rank).status) [
      | inl e ↦
          subst (λ names. is_in t names ≡ true) (sym (one_accepts c s rank e))
            (add_name-keeps t (upper c.ticker) s.accepted_tickers h)
      | inr e ↦ subst (λ names. is_in t names ≡ true) (sym (one_refuses c s rank e)) h
    ]

    one-NotBought :
        (t : String) (c : AllocatorCandidate Num Float) (s : State) (rank : Option ℕ)
        → is_in t s.accepted_tickers ≡ true
        → NotBought t (allocate_one D F upper a c s rank).0
    unfolding allocate_one decide
    one-NotBought t c s rank h e buy same =
        let granted = decide-allocated_iff D F upper a c s rank in
        let ok = (granted.0 e).2 buy in cc (h, ok.not_won, same)

    each-NotBought :
        (t : String) (n : ℕ) (xs : List (Float × AllocatorCandidate Num Float)) (s : State)
        → is_in t s.accepted_tickers ≡ true
        → All (NotBought t) (allocate_each D F upper a n xs s).0
    unfolding allocate_each
    each-NotBought t n [] s h = tt
    each-NotBought t n ((_, c) ∷ xs) s h = (
      one-NotBought t c s (some n) h,
      each-NotBought t (suc n) xs (allocate_one D F upper a c s (some n)).1
          (one_keeps t c s (some n) h),
    )

    one_won :
        (c : AllocatorCandidate Num Float) (s : State) (rank : Option ℕ)
        → (allocate_one D F upper a c s rank).0.status ≡ allocated
        → is_in
            (allocate_one D F upper a c s rank).0.ticker
            (allocate_one D F upper a c s rank).1.accepted_tickers
          ≡ true
    unfolding allocate_one decide
    one_won c s rank e =
        subst (λ names. is_in (upper c.ticker) names ≡ true) (sym (one_accepts c s rank e))
          (add_name-has (upper c.ticker) s.accepted_tickers)

    each-WonOnce :
        (n : ℕ) (xs : List (Float × AllocatorCandidate Num Float)) (s : State)
        → WonOnce (allocate_each D F upper a n xs s).0
    unfolding allocate_each
    each-WonOnce n [] s = tt
    each-WonOnce n ((_, c) ∷ xs) s =
        let (d, t) = allocate_one D F upper a c s (some n) in
        (
          λ e. each-NotBought d.ticker (suc n) xs t (one_won c s (some n) e),
          each-WonOnce (suc n) xs t,
        )

    -- Once a decision of a batch has granted a ticker, no later one grants a purchase of it; and a
    -- ticker that had won before the batch is not bought in it.
    pub allocate_batch-WonOnce :
        (cs : List (AllocatorCandidate Num Float)) (s : State)
        → WonOnce (allocate_batch D F upper a cs s).0
          × ((t : String)
              → is_in t s.accepted_tickers ≡ true
              → All (NotBought t) (allocate_batch D F upper a cs s).0)
    unfolding allocate_batch
    allocate_batch-WonOnce cs s =
        let items = ranking D F upper a cs in
        (each-WonOnce 1 items s, λ t h. each-NotBought t 1 items s h)

-- ===== src/Execution/Claimed.antt =====
-- apps/api/app/execution/engine.py: the record that an unresolved order claims, against the claims
-- of the other orders.
use mathlib.Core.Path.{subst}
use mathlib.Core.List.{Mem, not-mem-nil, eq-or-mem_of_mem-cons}
use mathlib.Core.Bool.{Bool-set}
use mathlib.Core.Logic.{∥∥₁_elim}
use t212_cashguard.Common.{
  ◌≡◌, ◌≢◌, inl, inr, refl, sym, ◌∙◌, ap, ℕ, Bool, true, false, not, ◌&&◌, Option, none, some,
  String, List, [], ◌∷◌, All, any, select, arith, Bool-cases, ◌==◌, eq_iff, if◌then◌else◌,
}
use t212_cashguard.Common.Numeric.{Decimals}
use t212_cashguard.Store.{Order, OrderSubmissionAttempt}
use t212_cashguard.Lifecycle.{known, submission_unknown}
use t212_cashguard.Lifecycle.Evidence.{status_eq}
use t212_cashguard.Broker.{Json, Conversions}
use t212_cashguard.Broker.Record.{RecordConversions, some_or}
use t212_cashguard.Broker.Snapshot.{AnyDecimal, finite, infinite, nan, Parser, BrokerOrderSnapshot}
use t212_cashguard.Execution.{Session}
use t212_cashguard.Execution.Asking.{PageAnswer, page, page_failed}
use t212_cashguard.Execution.Claim.{
  OrderRow, the_only, either_time, matches_unknown_submission, is_rival, agrees_in_quantity,
  side_of, could_own, fits_another_unknown_submission, matching_records, is_linked, claimed_record,
  unless_rivalled, page_items, snapshots_of, hides_records,
}
use t212_cashguard.Execution.Unknown.{Seen, claim_of, dispatch_time, dispatched_at}

module _ {A : Type 0} where
  abbrev kept : Bool → A → List A → List A
  kept b x rest = elim b [ true ↦ x ∷ rest | false ↦ rest ]

  All-kept :
      (P : A → Type 0) (b : Bool) (x : A) (rest : List A)
      → (b ≡ true → P x)
      → All P rest
      → All P (kept b x rest)
  All-kept P true x rest h hs = (h refl, hs)
  All-kept P false x rest h hs = hs

  select-All : (p : A → Bool) (xs : List A) → All (λ x. p x ≡ true) (select p xs)
  select-All p [] = tt
  select-All p (x ∷ xs) =
      All-kept (λ y. p y ≡ true) (p x) x (select p xs) (λ e. e) (select-All p xs)

  All-select : (P : A → Type 0) (p : A → Bool) (xs : List A) → All P xs → All P (select p xs)
  All-select P p [] h = tt
  All-select P p (x ∷ xs) (h, hs) = All-kept P (p x) x (select p xs) (λ _. h) (All-select P p xs hs)

  the_only-Same : (xs : List A) (a : A) → the_only xs ≡ some a → xs ≡ a ∷ []
  the_only-Same [] a e = cc e
  the_only-Same (x ∷ []) a e = cc e
  the_only-Same (x ∷ _ ∷ _) a e = cc e

  any-Mem : (p : A → Bool) (a : A) (xs : List A) → Mem a xs → p a ≡ true → any p xs ≡ true
  any-Mem p a [] m e = absurd (not-mem-nil m)
  any-Mem p a (x ∷ xs) m e = ∥∥₁_elim (eq-or-mem_of_mem-cons m) (Bool-set _ _) λ found. elim found [
    | inl same ↦ rw (← same, e) refl
    | inr later ↦ elim (Bool-cases (p x)) [
      | inl f ↦ rw f refl
      | inr f ↦ rw (f, any-Mem p a xs later e) refl
    ]
  ]

module _ (D : Decimals) (C : Conversions (Decimals.Num D))
    (R : RecordConversions (Decimals.Num D) (Conversions.Int C))
    (parse : Parser (Decimals.Num D)) where
  open D use {Num}
  open C use {Int, upper}

  matching-All :
      (environment : String) (order : Order Num) (t : ℕ) (history : Json Num Int)
      → All
          (λ m. matches_unknown_submission D C R parse order m t ≡ true)
          (matching_records D C R parse environment order t history)
  unfolding matching_records
  matching-All environment order t history =
      let entries = page_items D C R parse history in
      let snapshots = snapshots_of D C R parse environment entries in
      let matches : BrokerOrderSnapshot Num Int → Bool =
        λ m. matches_unknown_submission D C R parse order m t in
      let chosen : Bool → List (BrokerOrderSnapshot Num Int) =
        λ b. if b then [] else select matches snapshots in
      elim (Bool-cases (hides_records D C R parse t entries snapshots)) [
        | inl e ↦ subst (All (λ m. matches m ≡ true)) (ap chosen (sym e)) tt
        | inr e ↦
            subst (All (λ m. matches m ≡ true)) (ap chosen (sym e)) (select-All matches snapshots)
      ]

  second_of : (a b : Bool) → a && b ≡ true → b ≡ true
  second_of a b e = ground arith

  middle_of :
      (a b c d e f g : Bool) → a && b && c && d && e && f && g ≡ true → (b ≡ true) × (c ≡ true)
  middle_of a b c d e f g h = (ground arith, ground arith)

  negated : (b : Bool) → not b ≡ true → b ≡ false
  negated true e = cc e
  negated false e = refl

  if-Same :
      {A : Type 0} (b : Bool) (x a : A)
      → (if b then none else some x) ≡ some a
      → (b ≡ false) × (x ≡ a)
  if-Same true x a e = cc e
  if-Same false x a e = (refl, cc e)

  unless_rivalled-Same :
      (rows : List (OrderRow Num)) (order : Order Num)
      (claim : Option (BrokerOrderSnapshot Num Int)) (m : BrokerOrderSnapshot Num Int)
      → unless_rivalled D C R parse rows order claim ≡ some m
      → (claim ≡ some m) × (fits_another_unknown_submission D C R parse rows order m ≡ false)
  unless_rivalled-Same rows order none m e = cc e
  unless_rivalled-Same rows order (some x) m e =
      let (free, same) = if-Same _ x m e in
      (
        ap some same,
        subst (λ y. fits_another_unknown_submission D C R parse rows order y ≡ false) same free,
      )

  -- What a claim rests on.
  pub claimed_record-RestsOn :
      (environment : String) (rows : List (OrderRow Num)) (order : Order Num) (time : Option ℕ)
      (answer : PageAnswer Num Int) (m : BrokerOrderSnapshot Num Int)
      → claimed_record D C R parse environment rows order time answer ≡ some m
      → (t : ℕ) × (time ≡ some t)
        × (matches_unknown_submission D C R parse order m t ≡ true)
        × (is_linked D C R parse rows order m ≡ false)
        × (fits_another_unknown_submission D C R parse rows order m ≡ false)
  unfolding claimed_record
  claimed_record-RestsOn environment rows order none answer m e = cc e
  claimed_record-RestsOn environment rows order (some t) (page_failed word) m e = cc e
  claimed_record-RestsOn environment rows order (some t) (page history) m e =
      let matches = matching_records D C R parse environment order t history in
      let free : BrokerOrderSnapshot Num Int → Bool =
        λ x. not (is_linked D C R parse rows order x) in
      let (only, unrivalled) =
        unless_rivalled-Same rows order (the_only (select free matches)) m e in
      let alone = the_only-Same (select free matches) m only in
      let unlinked = (subst (All (λ x. free x ≡ true)) alone (select-All free matches)).0 in
      let fitting : All (λ x. matches_unknown_submission D C R parse order x t ≡ true) (m ∷ []) =
        subst (All (λ x. matches_unknown_submission D C R parse order x t ≡ true)) alone
          (All-select _ free matches (matching-All environment order t history)) in
      (t, refl, fitting.0, negated _ unlinked, unrivalled)

  agrees-Side :
      (order order' : Order Num) (m : BrokerOrderSnapshot Num Int) (q : Option (AnyDecimal Num))
      → agrees_in_quantity D C R parse order m q ≡ true
      → agrees_in_quantity D C R parse order' m q ≡ true
      → order.side ≡ order'.side
  agrees-Side order order' m none e f = cc e
  agrees-Side order order' m (some infinite) e f = cc e
  agrees-Side order order' m (some nan) e f = cc e
  agrees-Side order order' m (some (finite q)) e f =
      let side = side_of D C R parse m q in
      sym ((eq_iff side order.side).0 (second_of _ _ e))
      ∙ (eq_iff side order'.side).0 (second_of _ _ f)

  matches-Agrees :
      (order : Order Num) (m : BrokerOrderSnapshot Num Int) (t : ℕ)
      → matches_unknown_submission D C R parse order m t ≡ true
      → (upper (some_or m.ticker "") ≡ upper order.ticker)
        × (agrees_in_quantity D C R parse order m m.quantity ≡ true)
  unfolding matches_unknown_submission
  matches-Agrees order m t e =
      let (ticker, quantity) = middle_of _ _ _ _ _ _ _ e in ((eq_iff _ _).0 ticker, quantity)

  -- The row of a session's order, joined with its attempt.
  abbrev pub row_of : Session Num → OrderRow Num
  row_of s = record { order = s.order; dispatch_committed_at = dispatch_time s.attempts none }

  dispatch_time-Joined :
      (attempts : List OrderSubmissionAttempt) (submitted_at : Option ℕ)
      → dispatch_time attempts submitted_at ≡ either_time (dispatch_time attempts none) submitted_at
  dispatch_time-Joined [] submitted_at = refl
  dispatch_time-Joined (attempt ∷ _) submitted_at = refl

  dispatched_at-row :
      (s : Session Num)
      → dispatched_at D C R parse s
        ≡ either_time (row_of s).dispatch_committed_at s.order.submitted_at
  dispatched_at-row s = dispatch_time-Joined s.attempts s.order.submitted_at

  rival-Fits :
      (rows : List (OrderRow Num)) (order : Order Num) (s' : Session Num)
      (m : BrokerOrderSnapshot Num Int) (t' : ℕ)
      → Mem (row_of s') rows
      → (s'.order.id == order.id) ≡ false
      → status_eq s'.order.status (known submission_unknown) ≡ true
      → s'.order.broker_order_id ≡ none
      → s'.order.ticker ≡ order.ticker
      → s'.order.side ≡ order.side
      → dispatched_at D C R parse s' ≡ some t'
      → matches_unknown_submission D C R parse s'.order m t' ≡ true
      → fits_another_unknown_submission D C R parse rows order m ≡ true
  unfolding fits_another_unknown_submission
  rival-Fits rows order s' m t' row other unresolved unlinked ticker side time fitting =
      any-Mem (λ x. is_rival D C R parse order x && could_own D C R parse m x) (row_of s') rows row
        (rw
          (
            other,
            unresolved,
            unlinked,
            (eq_iff _ _).1 ticker,
            (eq_iff _ _).1 side,
            sym (dispatched_at-row s') ∙ time,
            fitting,
          )
          refl)

  -- Two different orders never claim one record of the history, even where neither has seen the
  -- other's claim: the second is among the rows that the first sees, its submission has no outcome
  -- and it has no id, and tickers that differ in case alone are spelled alike.
  pub claim_of-Distinct :
      (seen seen' : Seen Num Int) (s s' : Session Num) (m m' : BrokerOrderSnapshot Num Int)
      → Mem (row_of s') seen.rows
      → (s'.order.id == s.order.id) ≡ false
      → status_eq s'.order.status (known submission_unknown) ≡ true
      → s'.order.broker_order_id ≡ none
      → (upper s'.order.ticker ≡ upper s.order.ticker → s'.order.ticker ≡ s.order.ticker)
      → claim_of D C R parse seen s ≡ some m
      → claim_of D C R parse seen' s' ≡ some m'
      → m ≢ m'
  claim_of-Distinct seen seen' s s' m m' row other unresolved unlinked spelled mine its same =
      let (t, _, fits, _, free) = claimed_record-RestsOn _ _ _ _ _ m mine in
      let (t', time', fits', _, _) = claimed_record-RestsOn _ _ _ _ _ m' its in
      let fitting : matches_unknown_submission D C R parse s'.order m t' ≡ true =
        subst (λ x. matches_unknown_submission D C R parse s'.order x t' ≡ true) (sym same) fits' in
      let (ticker, quantity) = matches-Agrees s.order m t fits in
      let (ticker', quantity') = matches-Agrees s'.order m t' fitting in
      let one_ticker = spelled (sym ticker' ∙ ticker) in
      let one_side = agrees-Side s'.order s.order m m.quantity quantity' quantity in
      cc (
        free,
        rival-Fits seen.rows s.order s' m t' row other unresolved unlinked one_ticker one_side time'
            fitting,
      )

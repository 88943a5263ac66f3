-- ===== src/Reconcile/Backoff.antt =====
-- apps/api/app/services/reconciliation_backoff.py. A count of attempts is a natural number, as the
-- column holds it.
use mathlib.Core.Path.{subst}
use mathlib.Core.Option.{some-injective}
use t212_cashguard.Common.{
  ℕ, refl, sym, zero, suc, ◌+◌, ◌-◌, ◌≤◌, min, ◌≡◌, Bool, true, false, not, ◌&&◌, Option, none,
  some, List, [], ◌∷◌, length, All, ltb, ◌==◌, arith, if◌then◌else◌, Bool-cases, inl, inr,
}
use t212_cashguard.Common.Numeric.{Floats, IsOrdered}

-- `BACKOFF_STEPS_SECONDS`
unfoldable pub backoff_steps_seconds : List ℕ
backoff_steps_seconds = 30 ∷ 60 ∷ 120 ∷ 240 ∷ 480 ∷ 900 ∷ []

unfoldable pub max_backoff_level : ℕ
unfolding backoff_steps_seconds
max_backoff_level = length backoff_steps_seconds

abbrev entry : List ℕ → ℕ → ℕ
entry [] n = 0
entry (x ∷ xs) zero = x
entry (x ∷ xs) (suc n) = entry xs n

unfoldable pub backoff_delay_seconds : ℕ → ℕ
unfolding max_backoff_level backoff_steps_seconds
backoff_delay_seconds level =
    if level == 0 then 0 else entry backoff_steps_seconds (min level max_backoff_level - 1)

-- A Retry-After value: no number, a whole number too large for a float with its sign, or a number
-- of seconds, which is missing where it is not finite.
pub data RetryAfter (Float : Type 0) : Type 0 where
  no_number : RetryAfter Float
  too_large : Bool → RetryAfter Float
  seconds : Option Float → RetryAfter Float

entry-le : (xs : List ℕ) (m n : ℕ) → All (λ x. x ≤ m) xs → entry xs n ≤ m
entry-le [] m n h = omega arith
entry-le (x ∷ xs) m zero h = h.0
entry-le (x ∷ xs) m (suc n) h = entry-le xs m n h.1

-- No wait is longer than fifteen minutes.
pub delay_le : (level : ℕ) → backoff_delay_seconds level ≤ 900
unfolding backoff_delay_seconds
delay_le level =
    let bound = entry-le backoff_steps_seconds 900 (min level max_backoff_level - 1) (
      omega arith,
      (omega arith, (omega arith, (omega arith, (omega arith, (omega arith, tt))))),
    ) in
    ground (arith, bound)

-- From the last level on the wait is the longest.
pub delay_at_top : (level : ℕ) → 6 ≤ level → backoff_delay_seconds level ≡ 900
unfolding backoff_delay_seconds
delay_at_top level h =
    let top : min level 6 ≡ 6 = omega (arith, h) in
    let positive : (level == 0) ≡ false = ground (arith, h) in rw (positive, top) refl

module _ {Num : Type 0} (F : Floats Num) where
  open F use {Float, float_literal, float_less}

  abbrev pub in_seconds : ℕ → Float
  in_seconds n = float_literal n 0

  unfoldable pub usable_retry_after_seconds : RetryAfter Float → Option Float
  usable_retry_after_seconds no_number = none
  usable_retry_after_seconds (too_large positive) = if positive then some (in_seconds 900) else none
  usable_retry_after_seconds (seconds none) = none
  usable_retry_after_seconds (seconds (some s)) =
      if not (float_less (in_seconds 0) s)
      then none
      else some (if float_less (in_seconds 900) s then in_seconds 900 else s)

  -- The loop that raises the level, for so many steps at most.
  unfoldable pub raise_level : ℕ → ℕ → Float → ℕ
  raise_level zero level wanted = level
  raise_level (suc fuel) level wanted =
      let raised = raise_level fuel (level + 1) wanted in
      if ltb level max_backoff_level && float_less (in_seconds (backoff_delay_seconds level)) wanted
      then raised
      else level

  abbrev raised_to : ℕ → Option Float → ℕ
  raised_to level none = level
  raised_to level (some wanted) = raise_level max_backoff_level level wanted

  unfoldable pub level_after_unsettled_attempt : ℕ → RetryAfter Float → ℕ
  unfolding usable_retry_after_seconds raise_level
  level_after_unsettled_attempt current_level retry_after =
      raised_to (min (current_level + 1) max_backoff_level) (usable_retry_after_seconds retry_after)

  -- The test of the loop.
  abbrev must_wait_longer : ℕ → Float → Bool
  must_wait_longer level wanted =
      ltb level max_backoff_level && float_less (in_seconds (backoff_delay_seconds level)) wanted

  raise_level_bounds :
      (fuel level : ℕ) (wanted : Float)
      → level ≤ 6
      → (level ≤ raise_level fuel level wanted) × (raise_level fuel level wanted ≤ 6)
  unfolding raise_level max_backoff_level
  raise_level_bounds zero level wanted h = (omega arith, h)
  raise_level_bounds (suc fuel) level wanted h = elim (Bool-cases (must_wait_longer level wanted)) [
    | inr e ↦ (ground arith, ground arith)
    | inl e ↦
        let rest = raise_level_bounds fuel (level + 1) wanted (ground arith) in
        (ground (arith, rest.0), ground (arith, rest.1))
  ]

  level_stays :
      (fuel level : ℕ) (wanted : Float)
      → must_wait_longer level wanted ≡ false
      → level ≡ raise_level (suc fuel) level wanted
  unfolding raise_level max_backoff_level
  level_stays fuel level wanted e = ground arith

  level_goes_up :
      (fuel level : ℕ) (wanted : Float)
      → must_wait_longer level wanted ≡ true
      → raise_level fuel (level + 1) wanted ≡ raise_level (suc fuel) level wanted
  unfolding raise_level max_backoff_level
  level_goes_up fuel level wanted e = ground arith

  raised_out :
      (level : ℕ) (wanted : Float)
      → 6 ≤ level
      → must_wait_longer (raise_level zero level wanted) wanted ≡ false
  unfolding raise_level max_backoff_level
  raised_out level wanted h = ground arith

  -- Six steps are enough for the loop to end by its test.
  raise_level_ends :
      (fuel level : ℕ) (wanted : Float)
      → 6 ≤ fuel + level
      → must_wait_longer (raise_level fuel level wanted) wanted ≡ false
  unfolding max_backoff_level
  raise_level_ends zero level wanted h = raised_out level wanted (omega (arith, h))
  raise_level_ends (suc fuel) level wanted h = elim (Bool-cases (must_wait_longer level wanted)) [
    | inr e ↦ subst (λ l. must_wait_longer l wanted ≡ false) (level_stays fuel level wanted e) e
    | inl e ↦
        subst (λ l. must_wait_longer l wanted ≡ false) (level_goes_up fuel level wanted e)
          (raise_level_ends fuel (level + 1) wanted (omega arith))
  ]

  module _ (order : IsOrdered Float float_less) where
    usable_at_most :
        (retry_after : RetryAfter Float) (wanted : Float)
        → usable_retry_after_seconds retry_after ≡ some wanted
        → float_less (in_seconds 900) wanted ≡ false
    unfolding usable_retry_after_seconds
    usable_at_most no_number wanted h = cc
    usable_at_most (too_large b) wanted h = ground (arith, order.irrefl (in_seconds 900))
    usable_at_most (seconds none) wanted h = cc
    usable_at_most (seconds (some s)) wanted h =
        ground (arith, order.irrefl (in_seconds 900), order.irrefl s)

    -- A wait that the loop leaves is long enough, if no more than the longest one is wanted.
    waits_enough :
        (level : ℕ) (wanted : Float)
        → must_wait_longer level wanted ≡ false
        → float_less (in_seconds 900) wanted ≡ false
        → float_less (in_seconds (backoff_delay_seconds level)) wanted ≡ false
    unfolding max_backoff_level
    waits_enough level wanted e capped = elim (Bool-cases (ltb level 6)) [
      | inl below ↦ ground arith
      | inr above ↦
          let top = delay_at_top level (ground arith) in
          subst (λ n. float_less (in_seconds n) wanted ≡ false) (sym top) capped
    ]

    -- After an attempt that settled nothing the level has gone up by one step at least, unless it is
    -- at its ceiling, and never past it; and where the broker's Retry-After can be used, the wait is
    -- then at least as long as it asks for.
    pub level_after_bounds :
        (current_level : ℕ) (retry_after : RetryAfter Float)
        → let level = level_after_unsettled_attempt current_level retry_after in
          (min (current_level + 1) 6 ≤ level)
          × (level ≤ 6)
          × ((wanted : Float)
              → usable_retry_after_seconds retry_after ≡ some wanted
              → float_less (in_seconds (backoff_delay_seconds level)) wanted ≡ false)
    unfolding level_after_unsettled_attempt max_backoff_level
    level_after_bounds current_level retry_after =
        reached (usable_retry_after_seconds retry_after) (usable_at_most retry_after)
      where
        reached :
            (usable : Option Float)
            → ((w : Float) → usable ≡ some w → float_less (in_seconds 900) w ≡ false)
            → let level = raised_to (min (current_level + 1) 6) usable in
              (min (current_level + 1) 6 ≤ level)
              × (level ≤ 6)
              × ((wanted : Float)
                  → usable ≡ some wanted
                  → float_less (in_seconds (backoff_delay_seconds level)) wanted ≡ false)
        reached none k = (omega arith, omega arith, λ w e. cc)
        reached (some x) k =
            let start = min (current_level + 1) 6 in
            let bounds = raise_level_bounds 6 start x (omega arith) in
            (
              bounds.0,
              bounds.1,
              λ w e.
                  subst
                    (λ y.
                      float_less (in_seconds (backoff_delay_seconds (raise_level 6 start x))) y
                      ≡ false)
                    (some-injective _ _ e)
                    (waits_enough (raise_level 6 start x) x
                      (raise_level_ends 6 start x (omega arith)) (k x refl)),
            )

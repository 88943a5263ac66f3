-- ===== src/Circuit/Admission.antt =====
-- apps/api/app/broker/circuit_breaker.py: which calls the breaker lets through.
use t212_cashguard.Common.{
  ℕ, ◌-◌, ◌≤◌, ◌≡◌, refl, ◌≢◌, ◌↔◌, ◌⊎◌, Bool, true, false, List, [], ◌∷◌, All, arith,
}
use t212_cashguard.Circuit.{CircuitBreaker, closed, open_circuit, half_open, success, admit, settle}

-- A call that reaches the breaker is let through exactly when the circuit is not open, or when the
-- recovery time has passed since the last failure. A call that is turned away changes nothing.
pub admit_iff :
    (now : ℕ) (b : CircuitBreaker)
    → (((admit now b).1 ≡ true)
        ↔ ((b.state ≢ open_circuit) ⊎ (b.recovery_timeout ≤ now - b.last_failure_time)))
      × ((admit now b).1 ≡ false → (admit now b).0 ≡ b)
unfolding admit
admit_iff now b = ((λ h. ground arith, λ h. ground arith), λ h. ground arith)

-- The calls that arrive one after another, none of which has ended yet.
pub arrivals : List ℕ → CircuitBreaker → CircuitBreaker × List Bool
arrivals [] b = (b, [])
arrivals (now ∷ times) b =
    let (b', admitted) = admit now b in
    let (b'', rest) = arrivals times b' in (b'', admitted ∷ rest)

half_open-admit : (now : ℕ) (b : CircuitBreaker) → b.state ≡ half_open → admit now b ≡ (b, true)
unfolding admit
half_open-admit now b h = ground arith

-- A half-open circuit does not hold calls back to one test call: however many arrive before the
-- first of them has ended, every one is let through, and the circuit stays as it is.
pub half_open_admits-All :
    (times : List ℕ) (b : CircuitBreaker)
    → b.state ≡ half_open
    → ((arrivals times b).0 ≡ b) × All (λ admitted. admitted ≡ true) (arrivals times b).1
unfolding arrivals
half_open_admits-All [] b h = (ground arith, tt)
half_open_admits-All (now ∷ times) b h =
    let stays = half_open-admit now b h in
    let rest = half_open_admits-All times b h in rw stays (rest.0, (refl, rest.1))

-- When an admitted call succeeds the circuit closes, also if it was opened meanwhile by other calls:
-- the next call is let through at once, without the recovery time having passed.
pub success_readmits :
    (ended now : ℕ) (b : CircuitBreaker)
    → let b' = settle ended success b in
      (b'.state ≡ closed) × (b'.failure_count ≡ 0) × (admit now b' ≡ (b', true))
unfolding settle admit
success_readmits ended now b = (ground arith, ground arith, ground arith)

-- ===== src/Safety.antt =====
-- apps/api/app/services/safety_policy.py: which broker environment the runtime mode allows. A
-- `SafetyPolicyViolation` is its decision code; reasons are left out.
mod Tests
use t212_cashguard.Common.{
  ◌≡◌, ◌↔◌, ◌⊎◌, inl, inr, refl, ap, Bool, true, false, not, ◌&&◌, ◌||◌, Option, none, some, String,
  str_eq, eq_iff, arith, if◌then◌else◌, Bool-cases,
}

-- The settings that the policy reads.
pub record Runtime : Type 0 where
  pub app_mode : String
  pub live_trading_enabled : Bool

-- `environment != word`, of a text that may be missing.
abbrev pub is_word : String → Option String → Bool
is_word word none = false
is_word word (some t) = str_eq t word

abbrev pub is_known_mode : String → Bool
is_known_mode mode =
    str_eq mode "mock" || str_eq mode "paper" || str_eq mode "demo" || str_eq mode "live"

-- `require_broker_environment` after `_runtime_mode`.
unfoldable pub environment_violation : Runtime → Option String → Option String
environment_violation r environment =
    if str_eq r.app_mode "mock"
    then some "mock_broker_block"
    else if str_eq r.app_mode "paper"
    then some "paper_broker_block"
    else if not (is_word "demo" environment || is_word "live" environment)
    then some "broker_environment_invalid"
    else if str_eq r.app_mode "demo" && not (is_word "demo" environment)
    then some "demo_to_live_block"
    else if str_eq r.app_mode "live" && not (is_word "live" environment)
    then some "live_environment_mismatch"
    else if str_eq r.app_mode "live" && not r.live_trading_enabled
    then some "live_flag_disabled"
    else none

-- `require_broker_environment`: none where it returns.
unfoldable pub require_broker_environment : Runtime → Option String → Option String
unfolding environment_violation
require_broker_environment r environment =
    if is_known_mode r.app_mode
    then environment_violation r environment
    else some "app_mode_invalid"

abbrev is_none : Option String → Bool
is_none none = true
is_none (some _) = false

unfoldable pub broker_calls_allowed : Runtime → Option String → Bool
unfolding require_broker_environment
broker_calls_allowed r environment = is_none (require_broker_environment r environment)

-- A real broker is called in two cases only: the demo broker in demo mode, and the live broker in
-- live mode with live trading enabled; in no other mode and with no other environment.
abbrev pub MayCall : Runtime → Option String → Type 0
MayCall r environment =
    ((r.app_mode ≡ "demo") × (environment ≡ some "demo"))
    ⊎ ((r.app_mode ≡ "live") × (environment ≡ some "live") × (r.live_trading_enabled ≡ true))

is_word-eq : (word : String) (t : Option String) → is_word word t ≡ true → t ≡ some word
is_word-eq word none h = cc
is_word-eq word (some t) h = ap some ((eq_iff t word).0 h)

allowed-MayCall :
    (r : Runtime) (environment : Option String)
    → require_broker_environment r environment ≡ none
    → MayCall r environment
unfolding require_broker_environment
allowed-MayCall r environment h = elim (Bool-cases (str_eq r.app_mode "demo")) [
  | inl d ↦ elim (Bool-cases (is_word "demo" environment)) [
    | inl w ↦ inl ((eq_iff r.app_mode "demo").0 d, is_word-eq "demo" environment w)
    | inr w ↦ absurd (ground arith)
  ]
  | inr nd ↦ elim (Bool-cases (str_eq r.app_mode "live")) [
    | inl l ↦ elim (Bool-cases (is_word "live" environment)) [
      | inl w ↦ inr ((eq_iff r.app_mode "live").0 l, is_word-eq "live" environment w, ground arith)
      | inr w ↦ absurd (ground arith)
    ]
    | inr nl ↦ absurd (ground arith)
  ]
]

MayCall-allowed :
    (r : Runtime) (environment : Option String)
    → MayCall r environment
    → require_broker_environment r environment ≡ none
unfolding require_broker_environment
MayCall-allowed r environment (inl (m, e)) = rw (m, e) refl
MayCall-allowed r environment (inr (m, e, on)) = rw (m, e, on) refl

is_none-eq : (o : Option String) → is_none o ≡ true → o ≡ none
is_none-eq none h = refl
is_none-eq (some t) h = cc

-- The policy lets a broker be called exactly in demo mode with the demo broker, and in live mode with
-- the live broker and live trading enabled; `broker_calls_allowed` says the same.
pub environment_allowed_iff :
    (r : Runtime) (environment : Option String)
    → ((require_broker_environment r environment ≡ none) ↔ MayCall r environment)
      × ((broker_calls_allowed r environment ≡ true) ↔ MayCall r environment)
unfolding broker_calls_allowed
environment_allowed_iff r environment = (
  (allowed-MayCall r environment, MayCall-allowed r environment),
  (
    (λ h. allowed-MayCall r environment (is_none-eq (require_broker_environment r environment) h)),
    (λ m. ap is_none (MayCall-allowed r environment m)),
  ),
)

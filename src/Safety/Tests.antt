-- ===== src/Safety/Tests.antt =====
-- apps/api/app/services/safety_policy.py at inputs.
use t212_cashguard.Common.{◌≡◌, ◌↔◌, refl, true, none, some}
use t212_cashguard.Safety.{
  Runtime, require_broker_environment, broker_calls_allowed, MayCall, environment_allowed_iff,
}

abbrev demo : Runtime
demo = record { app_mode = "demo"; live_trading_enabled = true }

demo_not_live : require_broker_environment demo (some "live") ≡ some "demo_to_live_block"
unfolding require_broker_environment
demo_not_live = refl

environment_allowed_iff_example :
    ((require_broker_environment demo (some "live") ≡ none) ↔ MayCall demo (some "live"))
    × ((broker_calls_allowed demo (some "live") ≡ true) ↔ MayCall demo (some "live"))
environment_allowed_iff_example = environment_allowed_iff demo (some "live")

-- ===== src/Execution/Submit.antt =====
-- apps/api/app/execution/engine.py: `submit_order` up to the moment when the request is handed to
-- the broker, with the last gate of apps/api/app/services/safety_policy.py.
use t212_cashguard.Common.{
  ◌+◌, Bool, true, false, not, ◌&&◌, ◌||◌, Option, none, some, String, [], ◌∷◌, ◌++◌, str_eq,
  if◌then◌else◌,
}
use t212_cashguard.Common.Numeric.{Decimals, hundred_of}
use t212_cashguard.Store.{Order, OrderSubmissionAttempt, AppSettings}
use t212_cashguard.Lifecycle.{
  known, pending_intent, submitted, submission_unknown, filled, rejected, error,
}
use t212_cashguard.Lifecycle.Evidence.{status_eq}
use t212_cashguard.Risk.Limits.{first_nonzero}
use t212_cashguard.Safety.{Runtime, is_word, require_broker_environment}
use t212_cashguard.Execution.{
  Method, done, failed, bad_value, safety_violation, ◌>>=◌, ◌>>◌, return, raise, pass, assign,
  decide, transition,
}

-- What a submission reads beside the order: the settings row, the runtime mode, the broker's
-- environment, and in live mode what `authorize_dispatch` answers.
pub record Surroundings : Type 0 where
  pub app_settings : Option AppSettings
  pub runtime : Runtime
  pub broker_environment : Option String
  pub live_authorized : Bool

-- The request that `_send_to_broker` makes of the broker's adapter, with the sign of a sale in the
-- quantity. The numbers are decimals still: the adapter converts them to floats (Posted).
pub record Request (Num : Type 0) : Type 0 where
  pub order_type : String
  pub ticker : String
  pub quantity : Num
  pub limit_price : Option Num
  pub stop_price : Option Num
  pub time_validity : String

-- Where a submission stands when nothing, or something, is to be sent.
pub data Begun (Num : Type 0) : Type 0 where
  simulated : Begun Num
  unprepared : Begun Num
  dispatched : Request Num → OrderSubmissionAttempt → Begun Num

-- `"demo_…" if mode == "demo" else "…"`
abbrev pub by_mode : Runtime → String → String → String
by_mode r demo other = if str_eq r.app_mode "demo" then demo else other

-- `current_runtime_mode() == "demo" and broker_environment == "demo"`
abbrev pub on_demo : Surroundings → Bool
on_demo around = str_eq around.runtime.app_mode "demo" && is_word "demo" around.broker_environment

abbrev pub is_missing : {A : Type 0} → Option A → Bool
is_missing none = true
is_missing (some _) = false

abbrev pub text_or : Option String → String → String
text_or none d = d
text_or (some t) d = if str_eq t "" then d else t

module _ {N : Type 0} where
  abbrev pub live_gate : Surroundings → Method N (Option String)
  live_gate around =
      if str_eq around.runtime.app_mode "live" && not around.live_authorized
      then (do decide "live_readiness_check_failed" "blocked"; return (some "live_readiness_block"))
      else return none

  abbrev pub environment_gate : Surroundings → Option String → Method N (Option String)
  environment_gate around none = live_gate around
  environment_gate around (some code) = do
    decide "order_blocked_by_runtime_policy" "blocked"
    return (some code)

  abbrev pub settings_gate : Surroundings → Bool → Option AppSettings → Method N (Option String)
  settings_gate around is_dry_run none = return (some "settings_missing")
  settings_gate around is_dry_run (some s) =
      if s.kill_switch_active
      then (do
        decide
            (by_mode around.runtime "demo_order_blocked_by_kill_switch"
              "order_blocked_by_kill_switch")
            "blocked"
        return (some "kill_switch_block"))
      else if is_dry_run
      then return none
      else environment_gate around
          (require_broker_environment around.runtime around.broker_environment)

  -- `require_order_submission_allowed`: the code of the violation, none where it returns.
  unfoldable pub require_order_submission_allowed : Surroundings → Method N (Option String)
  require_order_submission_allowed around s =
      settings_gate around s.order.is_dry_run around.app_settings s

  -- `_close_blocked_buy`
  unfoldable pub close_blocked_buy : String → Method N (Unit {0})
  unfolding transition
  close_blocked_buy code = do
    transition (known rejected) "submission_blocked" "submission not allowed; nothing was sent"
        (("decision_code", some code) ∷ [])
    assign λ now order. record order {
      error_message = some "Submission was blocked by the safety policy; nothing was sent.";
      rejected_at = some now;
    }

  abbrev pub refuse_blocked : String → Order N → Method N (Unit {0})
  refuse_blocked code order =
      if str_eq order.side "buy" && not order.is_dry_run then close_blocked_buy code else pass

module _ (D : Decimals) where
  open D use {Num, less, absolute, negate}

  -- The simulated fill of a dry run.
  unfoldable pub simulate : Method Num (Unit {0})
  unfolding transition
  simulate = do
    transition (known submitted) "dry_run_submitted" "dry-run simulated submission" []
    transition (known filled) "dry_run_fill" "dry-run simulated fill" []
    assign λ now order. record order {
      filled_quantity = some order.quantity;
      avg_fill_price =
          first_nonzero D order.expected_fill_price
            (first_nonzero D order.limit_price (some (hundred_of D)));
      submitted_at = some now;
      first_ack_at = some now;
      filled_at = some now;
    }
    decide "order_submitted" "simulated"

  abbrev pub is_known_type : String → Bool
  is_known_type t =
      str_eq t "market" || str_eq t "limit" || str_eq t "stop" || str_eq t "stop_limit"

  -- `make_sell_quantity`, of a sale.
  unfoldable pub signed_quantity : Order Num → Num
  signed_quantity order =
      if str_eq order.side "sell" then negate (absolute order.quantity) else order.quantity

  abbrev lacks_price : Order Num → Bool
  lacks_price order =
      ((str_eq order.order_type "limit" || str_eq order.order_type "stop_limit")
        && is_missing order.limit_price)
      || ((str_eq order.order_type "stop" || str_eq order.order_type "stop_limit")
          && is_missing order.stop_price)

  abbrev when_type : Bool → Option Num → Option Num
  when_type true price = price
  when_type false price = none

  -- `_build_broker_request` and `_send_to_broker`: none where the order cannot be prepared. The payload
  -- with floats that is built beside the quantity only enters the fingerprint, which is left out.
  unfoldable pub build_broker_request : Order Num → Option (Request Num)
  unfolding signed_quantity
  build_broker_request order =
      if not (is_known_type order.order_type) || lacks_price order
      then none
      else some (record {
        order_type = order.order_type;
        ticker = order.ticker;
        quantity = signed_quantity order;
        limit_price =
            when_type (str_eq order.order_type "limit" || str_eq order.order_type "stop_limit")
              order.limit_price;
        stop_price =
            when_type (str_eq order.order_type "stop" || str_eq order.order_type "stop_limit")
              order.stop_price;
        time_validity = order.time_validity;
      })

  -- `_record_failed_before_dispatch`
  unfoldable pub record_failed_before_dispatch : Surroundings → Method Num (Unit {0})
  unfolding transition
  record_failed_before_dispatch around = do
    transition (known error) "broker_error" "order could not be prepared; nothing was sent"
        (("error_type", some "ValueError") ∷ [])
    assign λ now order. record order {
      error_message = some "Broker request failed with ValueError.";
      rejected_at = some now;
    }
    decide (if on_demo around then "demo_broker_order_failure" else "broker_request_failed")
        "failed"

  abbrev pub add_attempt : Method Num OrderSubmissionAttempt
  add_attempt s =
      let attempt : OrderSubmissionAttempt = record {
        id = s.next_id;
        order_id = s.order.id;
        dispatch_committed_at = s.now;
        outcome = none;
      } in
      (done attempt, record s { attempts = s.attempts ++ attempt ∷ []; next_id = s.next_id + 1 })

  -- What is staged before the request is sent. The fingerprint of the request is left out.
  unfoldable pub stage_dispatch : Surroundings → Method Num OrderSubmissionAttempt
  unfolding transition
  stage_dispatch around = do
    transition (known submission_unknown) "dispatch_committed"
        "broker request recorded before transmission" []
    assign λ now order. record order {
      submitted_at = some now;
      execution_environment = some (text_or order.execution_environment around.runtime.app_mode);
    }
    attempt ← add_attempt
    decide (if on_demo around then "demo_broker_order_attempt" else "broker_request_attempted")
        "allowed"
    return attempt

  abbrev pub prepare : Surroundings → Option (Request Num) → Method Num (Begun Num)
  prepare around none = do record_failed_before_dispatch around; return unprepared
  prepare around (some request) = do
    attempt ← stage_dispatch around
    return (dispatched request attempt)

  abbrev pub gated : Surroundings → Option String → Method Num (Begun Num)
  gated around (some code) s = (do refuse_blocked code s.order; raise (safety_violation code)) s
  gated around none s =
      (if s.order.is_dry_run
          then (do simulate; return simulated)
          else prepare around (build_broker_request s.order))
        s

  -- `submit_order` up to the commit before the request is sent.
  unfoldable pub begin_submission : Surroundings → Method Num (Begun Num)
  unfolding require_order_submission_allowed close_blocked_buy simulate build_broker_request
      record_failed_before_dispatch stage_dispatch
  begin_submission around s =
      if status_eq s.order.status (known pending_intent)
      then (do code ← require_order_submission_allowed around; gated around code) s
      else (failed bad_value, s)

-- ===== src/Execution/Gate.antt =====
-- apps/api/app/execution/engine.py: when the gate before a submission lets it pass.
use t212_cashguard.Common.{
  ◌≡◌, inl, inr, refl, true, false, not, ◌&&◌, Option, none, some, String, List, [], ◌∷◌, ◌++◌,
  arith, Bool-cases, str_eq, eq_iff,
}
use t212_cashguard.Store.{AppSettings}
use t212_cashguard.Safety.{require_broker_environment, MayCall, environment_allowed_iff}
use t212_cashguard.Execution.{Session, Decision, done}
use t212_cashguard.Execution.Submit.{Surroundings, require_order_submission_allowed, by_mode}

-- What must hold for a real request: the switch is off, the policy lets this broker be called, and
-- in live mode the dispatch is authorized.
abbrev pub Released : Surroundings → Type 0
Released around =
    ((settings : AppSettings) × (around.app_settings ≡ some settings)
      × (settings.kill_switch_active ≡ false))
    × MayCall around.runtime around.broker_environment
    × (around.runtime.app_mode ≡ "live" → around.live_authorized ≡ true)

module _ {N : Type 0} where
  -- The gate only adds to the decisions.
  abbrev pub GateEnds : Surroundings → Session N → Type 0
  GateEnds around s =
      (code : Option String) × (decisions : List Decision) × (require_order_submission_allowed
          around s
        ≡ (done code, record s { decisions = decisions }))
      × (code ≡ none → s.order.is_dry_run ≡ false → Released around)
      × (s.order.is_dry_run ≡ false → Released around → code ≡ none)

  abbrev blocked : Session N → String → List Decision
  blocked s action =
      let row : Decision = record { action = action; decision = "blocked" } in
      s.decisions ++ row ∷ []

  live_gate-Ends :
      (around : Surroundings) (s : Session N) (settings : AppSettings)
      → around.app_settings ≡ some settings
      → settings.kill_switch_active ≡ false
      → s.order.is_dry_run ≡ false
      → require_broker_environment around.runtime around.broker_environment ≡ none
      → GateEnds around s
  unfolding require_order_submission_allowed
  live_gate-Ends around s settings es off wet allowed =
      elim (Bool-cases (str_eq around.runtime.app_mode "live" && not around.live_authorized)) [
        | inl bad ↦ (
          some "live_readiness_block",
          blocked s "live_readiness_check_failed",
          rw (es, off, wet, allowed, bad) refl,
          (λ h. cc),
          λ d r.
              absurd
                (ground (arith, r.2 ((eq_iff around.runtime.app_mode "live").0 (ground arith)))),
        )
        | inr good ↦ (
          none,
          s.decisions,
          rw (es, off, wet, allowed, good) refl,
          (λ h d. (
            (settings, es, off),
            (environment_allowed_iff around.runtime around.broker_environment).0.0 allowed,
            λ live. ground (arith, (eq_iff around.runtime.app_mode "live").1 live),
          )),
          λ d r. refl,
        )
      ]

  policy_gate-Ends :
      (around : Surroundings) (s : Session N) (settings : AppSettings) (code : Option String)
      → around.app_settings ≡ some settings
      → settings.kill_switch_active ≡ false
      → s.order.is_dry_run ≡ false
      → require_broker_environment around.runtime around.broker_environment ≡ code
      → GateEnds around s
  unfolding require_order_submission_allowed
  policy_gate-Ends around s settings none es off wet e =
      live_gate-Ends around s settings es off wet e
  policy_gate-Ends around s settings (some code) es off wet e = (
    some code,
    blocked s "order_blocked_by_runtime_policy",
    rw (es, off, wet, e) refl,
    (λ h. cc),
    λ d r. cc (e, (environment_allowed_iff around.runtime around.broker_environment).0.1 r.1),
  )

  settings_gate-Ends :
      (around : Surroundings) (s : Session N) (settings : Option AppSettings)
      → around.app_settings ≡ settings
      → GateEnds around s
  unfolding require_order_submission_allowed
  settings_gate-Ends around s none es =
      (some "settings_missing", s.decisions, rw es refl, (λ h. cc), λ d r. cc (es, r.0.1))
  settings_gate-Ends around s (some settings) es = elim (Bool-cases settings.kill_switch_active) [
    | inl on ↦ (
      some "kill_switch_block",
      blocked s (
          by_mode around.runtime "demo_order_blocked_by_kill_switch"
            "order_blocked_by_kill_switch"),
      rw (es, on) refl,
      (λ h. cc),
      λ d r. cc (es, on, r.0.1, r.0.2),
    )
    | inr off ↦ elim (Bool-cases s.order.is_dry_run) [
      | inl dry ↦ (none, s.decisions, rw (es, off, dry) refl, (λ h d. cc), λ d r. refl)
      | inr wet ↦ policy_gate-Ends around s settings _ es off wet refl
    ]
  ]

  pub gate-Ends : (around : Surroundings) (s : Session N) → GateEnds around s
  gate-Ends around s = settings_gate-Ends around s around.app_settings refl

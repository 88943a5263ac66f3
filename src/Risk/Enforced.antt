-- ===== src/Risk/Enforced.antt =====
-- apps/api/app/risk/engine.py: the condition that each check of `RiskEngine` enforces.
use t212_cashguard.Common.{
  ℕ, ◌≡◌, ◌↔◌, inl, inr, refl, Bool, true, false, not, ◌||◌, Option, none, some, String, List, [],
  ◌∷◌, arith, Bool-cases, select, length, All, ◌==◌, if◌then◌else◌,
}
use t212_cashguard.Store.{AppSettings}
use t212_cashguard.Risk.{Db, risk_violation, settings_not_initialized, pass, block}
use t212_cashguard.Risk.Checks.{
  check_kill_switch, check_auto_trading_enabled, check_duplicate_order, is_active_order,
  is_not_false, is_not_true,
}
use t212_cashguard.Risk.Judge.{Judges, Judges-block, Judges-pass, Judges-same}

-- Both the session's settings and the saved row exist, and a flag has one value in both.
abbrev pub BothSay : (AppSettings → Bool) → Bool → Option AppSettings → Option AppSettings → Type 0
BothSay column value (some s) (some row) = (column s ≡ value) × (column row ≡ value)
BothSay column value (some s) none = ⊥
BothSay column value none saved = ⊥

-- No entry of a list passes a test.
abbrev pub Without : {A : Type 0} → (A → Bool) → List A → Type 0
Without p xs = All (λ x. p x ≡ false) xs

pub select_empty :
    {A : Type 0} (p : A → Bool) (xs : List A) → ((length (select p xs) == 0) ≡ true) ↔ Without p xs
select_empty p [] = ((λ _. tt), (λ _. refl))
select_empty p (x ∷ xs) =
    ((λ h. ground (arith, (select_empty p xs).0)), (λ h. ground (arith, (select_empty p xs).1 h.1)))

-- A row's two flags as the checks combine them.
both_off : (a b : Bool) → ((a || is_not_false (some b)) ≡ false) ↔ ((a ≡ false) × (b ≡ false))
both_off a b = (λ h. ground arith, λ h. ground arith)

both_on : (a b : Bool) → ((not a || is_not_true (some b)) ≡ false) ↔ ((a ≡ true) × (b ≡ true))
both_on a b = (λ h. ground arith, λ h. ground arith)

module _ {N : Type 0} (db : Db N) where
  kill_cases :
      (s saved : Option AppSettings)
      → db.session_settings ≡ s
      → db.saved_settings ≡ saved
      → Judges check_kill_switch (BothSay (λ s. s.kill_switch_active) false s saved) db
  unfolding check_kill_switch
  kill_cases none saved e f = inr ((λ h. h), inr (settings_not_initialized, tt, ground arith))
  kill_cases (some s) none e f = inr (
    (λ h. h),
    inl (
      record { event_type = "kill_switch_block"; ticker = none; signal_id = none },
      ground arith,
    ),
  )
  kill_cases (some s) (some row) e f =
      let c = s.kill_switch_active || is_not_false (some row.kill_switch_active) in
      let off = (s.kill_switch_active ≡ false) × (row.kill_switch_active ≡ false) in
      Judges-same db check_kill_switch (if c then block "kill_switch_block" none none else pass) off
        (ground arith)
        (Judges-block db c off "kill_switch_block" none none
          (both_off s.kill_switch_active row.kill_switch_active))

  pub kill_switch_enforced :
      Judges check_kill_switch
        (BothSay (λ s. s.kill_switch_active) false db.session_settings db.saved_settings)
        db
  kill_switch_enforced = kill_cases db.session_settings db.saved_settings refl refl

  auto_trading_cases :
      (s saved : Option AppSettings)
      → db.session_settings ≡ s
      → db.saved_settings ≡ saved
      → Judges check_auto_trading_enabled (BothSay (λ s. s.auto_trading_enabled) true s saved) db
  unfolding check_auto_trading_enabled
  auto_trading_cases none saved e f =
      inr ((λ h. h), inr (settings_not_initialized, tt, ground arith))
  auto_trading_cases (some s) none e f =
      inr ((λ h. h), inr (risk_violation "auto_trading_disabled", refl, ground arith))
  auto_trading_cases (some s) (some row) e f =
      elim (Bool-cases
        (not s.auto_trading_enabled || is_not_true (some row.auto_trading_enabled))) [
          | inl off ↦ inr (
            (λ h. cc (off, (both_on s.auto_trading_enabled row.auto_trading_enabled).1 h)),
            inr (risk_violation "auto_trading_disabled", refl, ground arith),
          )
          | inr on ↦
              inl ((both_on s.auto_trading_enabled row.auto_trading_enabled).0 on, ground arith)
        ]

  pub auto_trading_enforced :
      Judges check_auto_trading_enabled
        (BothSay (λ s. s.auto_trading_enabled) true db.session_settings db.saved_settings)
        db
  auto_trading_enforced = auto_trading_cases db.session_settings db.saved_settings refl refl

  pub duplicate_enforced :
      (ticker side : String) (signal_id : Option ℕ)
      → Judges
          (check_duplicate_order ticker side signal_id)
          (Without (is_active_order ticker side) db.orders)
          db
  unfolding check_duplicate_order
  duplicate_enforced ticker side signal_id =
      Judges-pass db (length (select (is_active_order ticker side) db.orders) == 0)
        (Without (is_active_order ticker side) db.orders) "duplicate_order_block" (some ticker)
        signal_id (select_empty (is_active_order ticker side) db.orders)

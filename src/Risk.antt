-- ===== src/Risk.antt =====
-- apps/api/app/risk/engine.py: the hard risk engine. This file has what its methods share: the
-- database as they see it, and a method as a function from it to a result and the database after
-- it. A `RiskViolation` carries its event type; messages and JSON payloads are left out.
pub mod Checks
pub mod Limits
pub mod Run
pub mod Judge
pub mod Enforced
pub mod ProfileLimits
pub mod AmountLimits
pub mod Sizing
pub mod Sector
pub mod Cfd
pub mod Market
pub mod Switch
mod Tests
pub mod Admission
use t212_cashguard.Common.{
  ℕ, Bool, true, false, Option, none, some, String, List, [], ◌∷◌, ◌++◌, select,
}
use t212_cashguard.Store.{Order, Trade, RiskProfile, AppSettings, RiskEvent}

pub record Db (N : Type 0) : Type 0 where
  -- The settings object that this session holds, and the row as the database has it now.
  pub session_settings : Option AppSettings
  pub saved_settings : Option AppSettings
  pub risk_profiles : List (RiskProfile N)
  pub orders : List (Order N)
  pub trades : List (Trade N)
  pub risk_events : List RiskEvent

pub data Raised : Type 0 where
  -- `RiskViolation` with its event type.
  risk_violation : String → Raised
  -- `RuntimeError` of `_get_settings`.
  settings_not_initialized : Raised
  -- `MultipleResultsFound` of `scalar_one_or_none`.
  multiple_results : Raised

pub data Result (A : Type 0) : Type 0 where
  ok : A → Result A
  raised : Raised → Result A

-- A method of the engine.
abbrev pub Method : Type 0 → Type 0 → Type 0
Method N A = Db N → Result A × Db N

infixl 5 ◌>>=◌ ◌>>◌
abbrev pub ◌>>=◌ : {N A B : Type 0} → Method N A → (A → Method N B) → Method N B
◌>>=◌ m f db = let (r, db') = m db in elim r [ ok a ↦ f a db' | raised e ↦ (raised e, db') ]

abbrev pub ◌>>◌ : {N B : Type 0} → Method N (Unit {0}) → Method N B → Method N B
m >> k = m >>= λ _. k

module _ {N : Type 0} where
  abbrev pub pass : Method N (Unit {0})
  pass db = (ok tt, db)

  abbrev pub raise : {A : Type 0} → Raised → Method N A
  raise e db = (raised e, db)

  abbrev pub gets : {A : Type 0} → (Db N → A) → Method N A
  gets f db = (ok (f db), db)

  -- `_log`
  unfoldable pub log : String → Option String → Option ℕ → Method N (Unit {0})
  log event_type ticker signal_id db =
      let event : RiskEvent = record {
        event_type = event_type;
        ticker = ticker;
        signal_id = signal_id;
      } in
      (ok tt, record db { risk_events = db.risk_events ++ event ∷ [] })

  -- The usual end of a check that fails: a risk event, and the violation of the same type.
  unfoldable pub block : String → Option String → Option ℕ → Method N (Unit {0})
  unfolding log
  block event_type ticker signal_id =
      log event_type ticker signal_id >> raise (risk_violation event_type)

  abbrev pub settings_or_raise : Option AppSettings → Method N AppSettings
  settings_or_raise none db = (raised settings_not_initialized, db)
  settings_or_raise (some s) db = (ok s, db)

  -- `_get_settings`
  unfoldable pub get_settings : Method N AppSettings
  get_settings db = settings_or_raise db.session_settings db

  -- `scalar_one_or_none`
  abbrev pub scalar_one_or_none : {A : Type 0} → List A → Method N (Option A)
  scalar_one_or_none [] db = (ok none, db)
  scalar_one_or_none (a ∷ []) db = (ok (some a), db)
  scalar_one_or_none (_ ∷ _ ∷ _) db = (raised multiple_results, db)

  -- `_get_default_risk_profile`
  unfoldable pub get_default_risk_profile : Method N (Option (RiskProfile N))
  get_default_risk_profile db =
      scalar_one_or_none (select (λ (p : RiskProfile N). p.is_default) db.risk_profiles) db

  -- `risk_profile or await self._get_default_risk_profile()`
  unfoldable pub profile_or_default : Option (RiskProfile N) → Method N (Option (RiskProfile N))
  unfolding get_default_risk_profile
  profile_or_default (some p) db = (ok (some p), db)
  profile_or_default none db = get_default_risk_profile db

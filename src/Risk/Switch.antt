-- ===== src/Risk/Switch.antt =====
-- apps/api/app/risk/engine.py: the module's two helpers that turn the kill switch on and off.
use mathlib.Core.Option.{some-injective}
use t212_cashguard.Common.{
  ◌≡◌, sym, ap, ◌∙◌, inl, inr, Bool, true, false, Option, none, some, [], ◌∷◌, ◌++◌, arith,
}
use t212_cashguard.Store.{AppSettings, RiskEvent}
use t212_cashguard.Risk.{Db, Method}
use t212_cashguard.Risk.Checks.{check_kill_switch, check_auto_trading_enabled}
use t212_cashguard.Risk.Judge.{Judges, Refused}
use t212_cashguard.Risk.Enforced.{BothSay, kill_switch_enforced, auto_trading_enforced}

-- A saved row with another value breaks the agreement, whatever the copy says.
not-BothSay :
    (column : AppSettings → Bool) (value : Bool) (copy saved : Option AppSettings)
    (row : AppSettings)
    → saved ≡ some row
    → (column row ≡ value → ⊥)
    → ¬ BothSay column value copy saved
not-BothSay column value none saved row e ne h = h
not-BothSay column value (some s) none row e ne h = h
not-BothSay column value (some s) (some t) row e ne h =
    ne (ap column (sym (some-injective t row e)) ∙ h.1)

Refused-unless :
    {N : Type 0} (db : Db N) (m : Method N (Unit {0})) (P : Type 0)
    → Judges m P db
    → ¬ P
    → Refused db (m db)
Refused-unless db m P (inl (p, _)) np = absurd (np p)
Refused-unless db m P (inr (_, r)) np = r

-- A commit writes the whole change where the object was read from the row as it is.
abbrev pub WritesFresh :
    (AppSettings → AppSettings → Option AppSettings → Option AppSettings) → Type 0
WritesFresh flush = (s s' : AppSettings) → flush s s' (some s) ≡ some s'

abbrev halted : AppSettings → AppSettings
halted s = record s { kill_switch_active = true; auto_trading_enabled = false }

-- Committing a settings object writes its row. What SQLAlchemy writes is a parameter: the object as
-- it was read, the object as it is now, and the row that another process may have changed.
module _ {N : Type 0}
    (flush : AppSettings → AppSettings → Option AppSettings → Option AppSettings) where
  abbrev write : (AppSettings → AppSettings) → RiskEvent → Db N → Option AppSettings → Db N
  write f event db none = record db { risk_events = db.risk_events ++ event ∷ [] }
  write f event db (some s) = record db {
    session_settings = some (f s);
    saved_settings = flush s (f s) db.saved_settings;
    risk_events = db.risk_events ++ event ∷ [];
  }

  -- The object that the query hands out is changed, if there is one, and the session is committed.
  unfoldable pub commit_change : (AppSettings → AppSettings) → RiskEvent → Db N → Db N
  commit_change f event db = write f event db db.session_settings

  unfoldable pub activate_kill_switch : Db N → Db N
  unfolding commit_change
  activate_kill_switch =
      commit_change (λ s. record s { kill_switch_active = true; auto_trading_enabled = false })
        (record { event_type = "kill_switch_on"; ticker = none; signal_id = none })

  unfoldable pub deactivate_kill_switch : Db N → Db N
  unfolding commit_change
  deactivate_kill_switch =
      commit_change (λ s. record s { kill_switch_active = false })
        (record { event_type = "kill_switch_off"; ticker = none; signal_id = none })

  -- The database as a session sees it that holds its own copy of the settings.
  abbrev pub seen_by : Option AppSettings → Db N → Db N
  seen_by copy db = record db { session_settings = copy }

  saved_on :
      WritesFresh flush
      → (db : Db N) (s : AppSettings) → db.session_settings ≡ some s
      → db.saved_settings ≡ some s
      → ((activate_kill_switch db).session_settings ≡ some (halted s))
        × ((activate_kill_switch db).saved_settings ≡ some (halted s))
  unfolding activate_kill_switch
  saved_on fresh db s e f = (ground arith, ground (arith, fresh s (halted s)))

  saved_off :
      WritesFresh flush
      → (db : Db N) (s : AppSettings) → db.session_settings ≡ some s
      → db.saved_settings ≡ some s
      → (deactivate_kill_switch db).saved_settings ≡ some (record s { kill_switch_active = false })
  unfolding deactivate_kill_switch
  saved_off fresh db s e f = ground (arith, fresh s (record s { kill_switch_active = false }))

  -- Turned on in a session whose copy of the settings is the saved row, where a commit of an object
  -- read from the row as it is writes its whole change, the kill switch stops every session at once,
  -- whatever copy of the settings each of them holds; auto-trading is off as well, in every session,
  -- and stays off when that session turns the kill switch off again.
  pub switch_stops_all :
      WritesFresh flush
      → (db : Db N) (s : AppSettings) (copy : Option AppSettings) → db.session_settings ≡ some s
      → db.saved_settings ≡ some s
      → let on = activate_kill_switch db in
        let off = deactivate_kill_switch on in
        Refused (seen_by copy on) (check_kill_switch (seen_by copy on))
        × Refused (seen_by copy on) (check_auto_trading_enabled (seen_by copy on))
        × Refused (seen_by copy off) (check_auto_trading_enabled (seen_by copy off))
  switch_stops_all fresh db s copy e f =
      let on = activate_kill_switch db in
      let off = deactivate_kill_switch on in
      let (e', f') = saved_on fresh db s e f in
      let g = saved_off fresh on (halted s) e' f' in
      (
        Refused-unless (seen_by copy on) check_kill_switch _
            (kill_switch_enforced (seen_by copy on))
            (not-BothSay (λ r. r.kill_switch_active) false copy on.saved_settings (halted s) f'
              (λ h. cc)),
        Refused-unless (seen_by copy on) check_auto_trading_enabled _
            (auto_trading_enforced (seen_by copy on))
            (not-BothSay (λ r. r.auto_trading_enabled) true copy on.saved_settings (halted s) f'
              (λ h. cc)),
        Refused-unless (seen_by copy off) check_auto_trading_enabled _
            (auto_trading_enforced (seen_by copy off))
            (not-BothSay (λ r. r.auto_trading_enabled) true copy off.saved_settings
              (record (halted s) { kill_switch_active = false }) g (λ h. cc)),
      )

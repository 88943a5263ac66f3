-- ===== src/Risk/Judge.antt =====
-- apps/api/app/risk/engine.py: what it means that a check enforces a condition, and how conditions
-- of checks in sequence add up.
use t212_cashguard.Common.{
  ℕ, ◌≡◌, ◌∙◌, ◌↔◌, ◌⊎◌, inl, inr, refl, Bool, true, false, Option, none, some, String, List, [],
  ◌∷◌, ◌++◌, arith, select, if◌then◌else◌,
}
use t212_cashguard.Store.{RiskEvent, RiskProfile}
use t212_cashguard.Risk.{
  Db, Method, Result, ok, raised, Raised, risk_violation, settings_not_initialized,
  multiple_results, ◌>>=◌, ◌>>◌, pass, scalar_one_or_none, block, profile_or_default,
}
use t212_cashguard.Risk.Checks.{with_profile, when_some}
use t212_cashguard.Risk.Run.{when, unless}

-- The exceptions that leave no risk event behind.
abbrev pub IsSilent : Raised → Type 0
IsSilent (risk_violation t) = t ≡ "auto_trading_disabled"
IsSilent settings_not_initialized = Unit
IsSilent multiple_results = Unit

module _ {N : Type 0} where
  abbrev pub with_event : RiskEvent → Db N → Db N
  with_event event db = record db { risk_events = db.risk_events ++ event ∷ [] }

  -- A check that fails has logged one risk event of the violation's own type and changed nothing
  -- else, or has raised one of the silent exceptions and changed nothing.
  abbrev pub Refused : Db N → Result (Unit {0}) × Db N → Type 0
  Refused db out =
      ((event : RiskEvent) × (out
          ≡ (raised (risk_violation event.event_type), with_event event db)))
      ⊎ ((e : Raised) × IsSilent e × (out ≡ (raised e, db)))

  -- On this database the check passes and changes nothing where the condition holds, and fails
  -- where it does not.
  abbrev pub Judges : Method N (Unit {0}) → Type 0 → Db N → Type 0
  Judges m P db = (P × (m db ≡ (ok tt, db))) ⊎ ((¬ P) × Refused db (m db))

module _ {N : Type 0} (db : Db N) where
  pub Judges-iff : (m : Method N (Unit {0})) (P Q : Type 0) → P ↔ Q → Judges m P db → Judges m Q db
  Judges-iff m P Q e (inl (p, r)) = inl (e.0 p, r)
  Judges-iff m P Q e (inr (np, r)) = inr ((λ q. np (e.1 q)), r)

  -- Only what a check does to this database counts.
  pub Judges-same :
      (m k : Method N (Unit {0})) (P : Type 0) → m db ≡ k db → Judges k P db → Judges m P db
  Judges-same m k P e (inl (p, r)) = inl (p, e ∙ r)
  Judges-same m k P e (inr (np, inl (event, r))) = inr (np, inl (event, e ∙ r))
  Judges-same m k P e (inr (np, inr (x, silent, r))) = inr (np, inr (x, silent, e ∙ r))

  pub Judges-test :
      (c : Bool) (event_type : String) (ticker : Option String) (signal_id : Option ℕ)
      → Judges (if c then block event_type ticker signal_id else pass) (c ≡ false) db
  unfolding block
  Judges-test false t k s = inl (refl, refl)
  Judges-test true t k s =
      inr ((λ h. cc), inl (record { event_type = t; ticker = k; signal_id = s }, refl))

  -- A check that is one test enforces whatever holds exactly where the test fails.
  pub Judges-block :
      (c : Bool) (P : Type 0) (t : String) (k : Option String) (s : Option ℕ)
      → (c ≡ false) ↔ P
      → Judges (if c then block t k s else pass) P db
  Judges-block c P t k s e =
      Judges-iff (if c then block t k s else pass) (c ≡ false) P e (Judges-test c t k s)

  -- The same for a test that lets the check pass.
  pub Judges-pass :
      (c : Bool) (P : Type 0) (t : String) (k : Option String) (s : Option ℕ)
      → (c ≡ true) ↔ P
      → Judges (if c then pass else block t k s) P db
  unfolding block
  Judges-pass true P t k s e = inl (e.0 refl, refl)
  Judges-pass false P t k s e =
      inr ((λ h. cc (e.1 h)), inl (record { event_type = t; ticker = k; signal_id = s }, refl))

  -- An early return: what comes after it counts only where the test fails.
  pub Judges-return :
      (c : Bool) (k : Method N (Unit {0})) (P Q : Type 0)
      → (c ≡ false → P) ↔ Q
      → Judges k P db
      → Judges (if c then pass else k) Q db
  Judges-return true k P Q e j = inl (e.0 (λ h. cc), refl)
  Judges-return false k P Q e j = Judges-iff k P Q ((λ p. e.0 (λ _. p)), (λ q. e.1 q refl)) j

  pub Judges-seq :
      (m k : Method N (Unit {0})) (P Q : Type 0)
      → Judges m P db
      → Judges k Q db
      → Judges (m >> k) (P × Q) db
  Judges-seq m k P Q (inl (p, r)) (inl (q, s)) = inl ((p, q), ground (arith, r, s))
  Judges-seq m k P Q (inl (p, r)) (inr (nq, inl (event, s))) =
      inr ((λ h. nq h.1), inl (event, ground (arith, r, s)))
  Judges-seq m k P Q (inl (p, r)) (inr (nq, inr (e, silent, s))) =
      inr ((λ h. nq h.1), inr (e, silent, ground (arith, r, s)))
  Judges-seq m k P Q (inr (np, inl (event, r))) j =
      inr ((λ h. np h.0), inl (event, ground (arith, r)))
  Judges-seq m k P Q (inr (np, inr (e, silent, r))) j =
      inr ((λ h. np h.0), inr (e, silent, ground (arith, r)))

  pub Judges-when :
      (c : Bool) (m : Method N (Unit {0})) (P : Type 0)
      → Judges m P db
      → Judges (when c m) (c ≡ true → P) db
  Judges-when false m P j = inl ((λ h. cc), refl)
  Judges-when true m P j = Judges-iff m P (true ≡ true → P) ((λ p _. p), (λ f. f refl)) j

  pub Judges-unless :
      (c : Bool) (m : Method N (Unit {0})) (P : Type 0)
      → Judges m P db
      → Judges (unless c m) (c ≡ false → P) db
  Judges-unless true m P j = inl ((λ h. cc), refl)
  Judges-unless false m P j = Judges-iff m P (false ≡ false → P) ((λ p _. p), (λ f. f refl)) j

  -- What must hold of the profile that applies: the given one, or the only default one. Without any
  -- a condition on the profile is met; more than one default is an error.
  abbrev pub Sole : (RiskProfile N → Type 0) → List (RiskProfile N) → Type 0
  Sole P [] = Unit
  Sole P (rp ∷ []) = P rp
  Sole P (_ ∷ _ ∷ _) = ⊥

  abbrev pub UnderProfile : Option (RiskProfile N) → (RiskProfile N → Type 0) → Type 0
  UnderProfile (some rp) P = P rp
  UnderProfile none P = Sole P (select (λ (p : RiskProfile N). p.is_default) db.risk_profiles)

  Judges-some :
      (check : RiskProfile N → Method N (Unit {0})) (P : RiskProfile N → Type 0)
      → ((rp : RiskProfile N) → Judges (check rp) (P rp) db)
      → (profiles : List (RiskProfile N))
      → Judges
          (λ d. (scalar_one_or_none profiles >>= λ rp. when_some rp check) d)
          (Sole P profiles)
          db
  Judges-some check P j [] = inl (tt, refl)
  Judges-some check P j (rp ∷ []) = j rp
  Judges-some check P j (_ ∷ _ ∷ _) = inr ((λ h. h), inr (multiple_results, tt, refl))

  pub Judges-profile :
      (risk_profile : Option (RiskProfile N)) (check : RiskProfile N → Method N (Unit {0}))
      (P : RiskProfile N → Type 0)
      → ((rp : RiskProfile N) → Judges (check rp) (P rp) db)
      → Judges (with_profile risk_profile check) (UnderProfile risk_profile P) db
  unfolding profile_or_default
  Judges-profile (some rp) check P j = j rp
  Judges-profile none check P j =
      Judges-some check P j (select (λ (p : RiskProfile N). p.is_default) db.risk_profiles)

  found_profile :
      (profiles : List (RiskProfile N)) (k : Method N (Unit {0})) (P : Type 0)
      → Judges k P db
      → Judges (scalar_one_or_none profiles >>= λ _. k) (Sole (λ _. Unit) profiles × P) db
  found_profile [] k P j = Judges-iff k P (Unit × P) ((λ p. (tt, p)), (λ h. h.1)) j
  found_profile (rp ∷ []) k P j = Judges-iff k P (Unit × P) ((λ p. (tt, p)), (λ h. h.1)) j
  found_profile (_ ∷ _ ∷ _) k P j = inr ((λ h. h.0), inr (multiple_results, tt, refl))

  -- A profile that is looked up and then not used.
  pub Judges-lookup :
      (risk_profile : Option (RiskProfile N)) (k : Method N (Unit {0})) (P : Type 0)
      → Judges k P db
      → Judges
          (profile_or_default risk_profile >>= λ _. k)
          (UnderProfile risk_profile (λ _. Unit) × P)
          db
  unfolding profile_or_default
  Judges-lookup (some rp) k P j = Judges-iff k P (Unit × P) ((λ p. (tt, p)), (λ h. h.1)) j
  Judges-lookup none k P j =
      found_profile (select (λ (p : RiskProfile N). p.is_default) db.risk_profiles) k P j

-- A judgement as a record, so that a sequence of checks needs no argument written out.
pub record Judged {N : Type 0} (db : Db N) (m : Method N (Unit {0})) (P : Type 0) : Type 0 where
  pub verdict : Judges m P db

module _ {N : Type 0} {db : Db N} where
  infixr 20 ◌then_check◌
  pub ◌then_check◌ :
      {m k : Method N (Unit {0})} {P Q : Type 0}
      → Judged db m P
      → Judged db k Q
      → Judged db (m >> k) (P × Q)
  ◌then_check◌ {m} {k} {P} {Q} h j = record { verdict = Judges-seq db m k P Q h.verdict j.verdict }

  pub only_when :
      {m : Method N (Unit {0})} {P : Type 0} (c : Bool)
      → Judged db m P
      → Judged db (when c m) (c ≡ true → P)
  only_when {m} {P} c h = record { verdict = Judges-when db c m P h.verdict }

  pub only_unless :
      {m : Method N (Unit {0})} {P : Type 0} (c : Bool)
      → Judged db m P
      → Judged db (unless c m) (c ≡ false → P)
  only_unless {m} {P} c h = record { verdict = Judges-unless db c m P h.verdict }

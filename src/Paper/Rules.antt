-- ===== src/Paper/Rules.antt =====
-- apps/api/app/execution/paper_engine.py: rules for its methods. What a method keeps of the paper
-- account and of the order at hand, whatever it ends in, and what it keeps when it refuses.
use t212_cashguard.Common.{
  ◌≡◌, Bool, true, false, Option, String, refl, ap, inl, inr, Bool-cases, if◌then◌else◌,
}
use t212_cashguard.Lifecycle.{Status}
use t212_cashguard.Lifecycle.Evidence.{Outcome, returned, invalid_order_transition, value_error}
use t212_cashguard.Paper.{
  Book, PaperOrder, Session, Raised, paper_execution_error, paper_business_refusal, bad_value,
  bad_transition, risk_engine_error, Result, done, failed, Method, ◌>>=◌, continue, Around, return,
  raise, gets, audit, order_event, transition, write, is_durable, result_of,
}

-- A statement about the paper account and the order at hand.
abbrev pub Claim : Type 0 → Type 1
Claim N = Book N → Option (PaperOrder N) → Type 0

-- Whether a result is a refusal.
abbrev pub is_refusal : {A : Type 0} → Result A → Bool
is_refusal (done a) = false
is_refusal (failed (paper_business_refusal code)) = true
is_refusal (failed (paper_execution_error status)) = false
is_refusal (failed bad_value) = false
is_refusal (failed bad_transition) = false
is_refusal (failed risk_engine_error) = false

outcome_no_refusal : {A B : Type 0} (out : Outcome A) (b : B) → is_refusal (result_of out b) ≡ false
outcome_no_refusal (returned _) b = refl
outcome_no_refusal invalid_order_transition b = refl
outcome_no_refusal value_error b = refl

-- What holds of the value that a method returns, if it returns one.
abbrev pub OnDone : {A : Type 0} → (A → Type 0) → Result A → Type 0
OnDone Q (done a) = Q a
OnDone Q (failed e) = Unit

module _ {N : Type 0} where
  -- A method that keeps a claim, whatever it ends in.
  pub record Preserves {A : Type 0} (P : Claim N) (m : Method N A) : Type 0 where
    pub keeps : (s : Session N) → P s.book s.order → P (m s).1.book (m s).1.order

  -- A method that never ends in a refusal.
  pub record NeverRefuses {A : Type 0} (m : Method N A) : Type 0 where
    pub never : (s : Session N) → is_refusal (m s).0 ≡ false

  -- A method that keeps a claim where it ends in a refusal.
  pub record KeepsIfRefused {A : Type 0} (P : Claim N) (m : Method N A) : Type 0 where
    pub if_refused :
        (s : Session N) (code : String)
        → P s.book s.order
        → (m s).0 ≡ failed (paper_business_refusal code)
        → P (m s).1.book (m s).1.order

  pub record Yields {A : Type 0} (Q : A → Type 0) (m : Method N A) : Type 0 where
    pub yields : (s : Session N) → OnDone Q (m s).0

  continue-Yields :
      {A B : Type 0} (Q : B → Type 0) (f : A → Method N B)
      → ((a : A) → Yields Q (f a))
      → (run : Result A × Session N) → OnDone Q (continue f run).0
  continue-Yields Q f k (done a, t) = (k a).yields t
  continue-Yields Q f k (failed e, t) = tt

  continue_after-Yields :
      {A B : Type 0} (R : A → Type 0) (Q : B → Type 0) (f : A → Method N B)
      → ((a : A) → R a → Yields Q (f a))
      → (run : Result A × Session N) → OnDone R run.0
      → OnDone Q (continue f run).0
  continue_after-Yields R Q f k (done a, t) r = (k a r).yields t
  continue_after-Yields R Q f k (failed e, t) r = tt

  pub after-Yields :
      {A B : Type 0} (R : A → Type 0) (Q : B → Type 0) (m : Method N A) (f : A → Method N B)
      → Yields R m
      → ((a : A) → R a → Yields Q (f a))
      → Yields Q (m >>= f)
  unfolding ◌>>=◌
  after-Yields R Q m f h k = record {
    yields = λ s. continue_after-Yields R Q f k (m s) (h.yields s);
  }

  pub return-Yields : {A : Type 0} (Q : A → Type 0) (a : A) → Q a → Yields Q (return a)
  unfolding return
  return-Yields Q a q = record { yields = λ s. q }

  pub raise-Yields : {A : Type 0} (Q : A → Type 0) (e : Raised) → Yields Q (raise e)
  unfolding raise
  raise-Yields Q e = record { yields = λ s. tt }

  -- A guard that raises.
  pub unless-OnDone :
      {A : Type 0} (Q : A → Type 0) (b : Bool) (e : Raised) (k : Method N A) (s : Session N)
      → (b ≡ false → OnDone Q (k s).0)
      → OnDone Q ((if b then raise e else k) s).0
  unfolding raise
  unless-OnDone Q true e k s h = tt
  unless-OnDone Q false e k s h = h refl

  pub bind-Yields :
      {A B : Type 0} (Q : B → Type 0) (m : Method N A) (f : A → Method N B)
      → ((a : A) → Yields Q (f a))
      → Yields Q (m >>= f)
  unfolding ◌>>=◌
  bind-Yields Q m f k = record { yields = λ s. continue-Yields Q f k (m s) }

  module _ (P : Claim N) where
    keeps_after :
        {A B : Type 0} (Q : A → Type 0) (f : A → Method N B)
        → ((a : A) → Q a → Preserves P (f a))
        → (run : Result A × Session N) → OnDone Q run.0
        → P run.1.book run.1.order
        → P (continue f run).1.book (continue f run).1.order
    keeps_after Q f k (done a, t) q p = (k a q).keeps t p
    keeps_after Q f k (failed e, t) q p = p

    -- What follows may rely on what holds of the value that is handed to it.
    pub after-Preserves :
        {A B : Type 0} (Q : A → Type 0) (m : Method N A) (f : A → Method N B)
        → Preserves P m
        → Yields Q m
        → ((a : A) → Q a → Preserves P (f a))
        → Preserves P (m >>= f)
    unfolding ◌>>=◌
    after-Preserves Q m f h y k = record {
      keeps = λ s p. keeps_after Q f k (m s) (y.yields s) (h.keeps s p);
    }

    -- What follows may rely on what a reading of the session gives.
    pub gets_then-Preserves :
        {A B : Type 0} (g : Session N → A) (f : A → Method N B)
        → ((s : Session N) → P s.book s.order → P (f (g s) s).1.book (f (g s) s).1.order)
        → Preserves P (gets g >>= f)
    unfolding ◌>>=◌ gets
    gets_then-Preserves g f k = record { keeps = λ s p. k s p }

    keeps_on :
        {A B : Type 0} (f : A → Method N B)
        → ((a : A) → Preserves P (f a))
        → (run : Result A × Session N) → P run.1.book run.1.order
        → P (continue f run).1.book (continue f run).1.order
    keeps_on f k (done a, t) q = (k a).keeps t q
    keeps_on f k (failed e, t) q = q

    pub bind-Preserves :
        {A B : Type 0} (m : Method N A) (f : A → Method N B)
        → Preserves P m
        → ((a : A) → Preserves P (f a))
        → Preserves P (m >>= f)
    unfolding ◌>>=◌
    bind-Preserves m f h k = record { keeps = λ s p. keeps_on f k (m s) (h.keeps s p) }

    refused_on :
        {A B : Type 0} (f : A → Method N B)
        → ((a : A) → KeepsIfRefused P (f a))
        → (code : String) (run : Result A × Session N) → P run.1.book run.1.order
        → (continue f run).0 ≡ failed (paper_business_refusal code)
        → P (continue f run).1.book (continue f run).1.order
    refused_on f k code (done a, t) q e = (k a).if_refused t code q e
    refused_on f k code (failed e, t) q _ = q

    pub bind-KeepsIfRefused :
        {A B : Type 0} (m : Method N A) (f : A → Method N B)
        → Preserves P m
        → ((a : A) → KeepsIfRefused P (f a))
        → KeepsIfRefused P (m >>= f)
    unfolding ◌>>=◌
    bind-KeepsIfRefused m f h k = record {
      if_refused = λ s code p e. refused_on f k code (m s) (h.keeps s p) e;
    }

    pub Preserves-KeepsIfRefused :
        {A : Type 0} (m : Method N A) → Preserves P m → KeepsIfRefused P m
    Preserves-KeepsIfRefused m h = record { if_refused = λ s code p e. h.keeps s p }

    pub NeverRefuses-KeepsIfRefused :
        {A : Type 0} (m : Method N A) → NeverRefuses m → KeepsIfRefused P m
    NeverRefuses-KeepsIfRefused m h = record {
      if_refused = λ s code p e. cc (h.never s, ap is_refusal e);
    }

    pub if-Preserves :
        {A : Type 0} (b : Bool) (m k : Method N A)
        → Preserves P m
        → Preserves P k
        → Preserves P (if b then m else k)
    if-Preserves true m k h g = h
    if-Preserves false m k h g = g

    pub if-KeepsIfRefused :
        {A : Type 0} (b : Bool) (m k : Method N A)
        → KeepsIfRefused P m
        → KeepsIfRefused P k
        → KeepsIfRefused P (if b then m else k)
    if-KeepsIfRefused true m k h g = h
    if-KeepsIfRefused false m k h g = g

    pub return-Preserves : {A : Type 0} (a : A) → Preserves P (return a)
    unfolding return
    return-Preserves a = record { keeps = λ s p. p }

    pub raise-Preserves : (A : Type 0) (e : Raised) → Preserves {A = A} P (raise e)
    unfolding raise
    raise-Preserves A e = record { keeps = λ s p. p }

    pub gets-Preserves : {A : Type 0} (f : Session N → A) → Preserves P (gets f)
    unfolding gets
    gets-Preserves f = record { keeps = λ s p. p }

    pub order_event-Preserves :
        (name : String) (a b : Option Status) → Preserves P (order_event name a b)
    unfolding order_event
    order_event-Preserves name a b = record { keeps = λ s p. p }

    pub audit-Preserves :
        (around : Around) (action : String) (code : Option String)
        → Preserves P (audit around action code)
    unfolding audit
    audit-Preserves around action code = record {
      keeps = λ s p. elim (Bool-cases (is_durable action)) [
        | inl e ↦ elim (Bool-cases around.durable_available) [
          | inl f ↦ rw (e, f) p
          | inr f ↦ rw (e, f) p
        ]
        | inr e ↦ rw e p
      ];
    }

  never_on :
      {A B : Type 0} (f : A → Method N B)
      → ((a : A) → NeverRefuses (f a))
      → (run : Result A × Session N) → is_refusal run.0 ≡ false
      → is_refusal (continue f run).0 ≡ false
  never_on f k (done a, t) h = (k a).never t
  never_on f k (failed (paper_business_refusal code), t) h = cc h
  never_on f k (failed (paper_execution_error status), t) h = refl
  never_on f k (failed bad_value, t) h = refl
  never_on f k (failed bad_transition, t) h = refl
  never_on f k (failed risk_engine_error, t) h = refl

  pub bind-NeverRefuses :
      {A B : Type 0} (m : Method N A) (f : A → Method N B)
      → NeverRefuses m
      → ((a : A) → NeverRefuses (f a))
      → NeverRefuses (m >>= f)
  unfolding ◌>>=◌
  bind-NeverRefuses m f h k = record { never = λ s. never_on f k (m s) (h.never s) }

  pub if-NeverRefuses :
      {A : Type 0} (b : Bool) (m k : Method N A)
      → NeverRefuses m
      → NeverRefuses k
      → NeverRefuses (if b then m else k)
  if-NeverRefuses true m k h g = h
  if-NeverRefuses false m k h g = g

  pub return-NeverRefuses : {A : Type 0} (a : A) → NeverRefuses (return a)
  unfolding return
  return-NeverRefuses a = record { never = λ s. refl }

  pub raise-NeverRefuses :
      (A : Type 0) (e : Raised)
      → is_refusal {A = A} (failed e) ≡ false
      → NeverRefuses {A = A} (raise e)
  unfolding raise
  raise-NeverRefuses A e h = record { never = λ s. h }

  pub gets-NeverRefuses : {A : Type 0} (f : Session N → A) → NeverRefuses (gets f)
  unfolding gets
  gets-NeverRefuses f = record { never = λ s. refl }

  pub order_event-NeverRefuses :
      (name : String) (a b : Option Status) → NeverRefuses (order_event name a b)
  unfolding order_event
  order_event-NeverRefuses name a b = record { never = λ s. refl }

  pub write-NeverRefuses : (order : PaperOrder N) → NeverRefuses (write order)
  unfolding write
  write-NeverRefuses order = record { never = λ s. refl }

  pub audit-NeverRefuses :
      (around : Around) (action : String) (code : Option String)
      → NeverRefuses (audit around action code)
  unfolding audit
  audit-NeverRefuses around action code = record {
    never = λ s. elim (Bool-cases (is_durable action)) [
      | inl e ↦ elim (Bool-cases around.durable_available) [
        | inl f ↦ rw (e, f) refl
        | inr f ↦ rw (e, f) refl
      ]
      | inr e ↦ rw e refl
    ];
  }

  pub transition-NeverRefuses :
      (around : Around) (order : PaperOrder N) (status : Status) (event_type reason : String)
      → NeverRefuses (transition around order status event_type reason)
  unfolding transition
  transition-NeverRefuses around order status event_type reason = record {
    never = λ s. outcome_no_refusal _ _;
  }

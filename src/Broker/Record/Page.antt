-- ===== src/Broker/Record/Page.antt =====
-- apps/api/app/execution/broker_record.py: what a page of the order history is taken to say.
use t212_cashguard.Common.{
  ◌≡◌, refl, ap, Bool, true, false, not, Option, none, some, String, List, [], ◌∷◌, All, select,
  eq_iff, arith,
}
use mathlib.Core.Path.{subst}
use t212_cashguard.Common.Numeric.{Decimals, IsOrdered}
use t212_cashguard.Broker.{Json, Conversions, usable_order_id}
use t212_cashguard.Broker.Record.{fine, ◌>>=◌, LocalOrder, Reported, RecordConversions, first}
use t212_cashguard.Broker.Record.Reading.{id_paths, differs_from}
use t212_cashguard.Broker.Record.Verdict.{FinalRecord, Verdict, final_record, open_record, judge}
use t212_cashguard.Broker.Record.History.{
  carries_id, history_items, records_of, read_all, only_final, of_found, interpret_history,
}
use t212_cashguard.Broker.Record.Amounts.{bind-fine}
use t212_cashguard.Broker.Record.Stated.{EachStates, read_all-EachStates}
use t212_cashguard.Broker.Record.Final.{RestsOnParts, RestsOn, judge-RestsOn}

All-chosen :
    {A : Type 0} (P : A → Type 0) (b : Bool) (x : A) (rest : List A)
    → (b ≡ true → P x)
    → All P rest
    → All P (elim b as (λ _. List A) [ true ↦ x ∷ rest | false ↦ rest ])
All-chosen P true x rest k h = (k refl, h)
All-chosen P false x rest k h = h

-- What follows from a test holds of the entries that it selects.
select-All :
    {A : Type 0} (p : A → Bool) (P : A → Type 0) (xs : List A)
    → ((x : A) → p x ≡ true → P x)
    → All P (select p xs)
select-All p P [] k = tt
select-All p P (x ∷ xs) k = All-chosen P (p x) x (select p xs) (k x) (select-All p P xs k)

not-differs : (s : String) (t : Option String) → not (differs_from s t) ≡ true → t ≡ some s
not-differs s none h = cc
not-differs s (some t) h = ap some ((eq_iff t s).0 (ground arith))

module _ (D : Decimals) (C : Conversions (Decimals.Num D))
    (R : RecordConversions (Decimals.Num D) (Conversions.Int C))
    (order : IsOrdered (Decimals.Num D) (Decimals.less D)) where
  open D use {Num}
  open C use {Int}

  -- The entry carries this order id.
  abbrev pub IsAbout : String → Json Num Int → Type 0
  IsAbout id entry = usable_order_id C (first entry id_paths) ≡ some id

  records_of-IsAbout :
      (history : Json Num Int) (id : String) (found : List (Json Num Int))
      → records_of D C R history id ≡ fine found
      → All (IsAbout id) found
  unfolding records_of
  records_of-IsAbout history id found h =
      let (items, e, g) =
        bind-fine (history_items D C R history) (λ items. fine (select (carries_id D C R id) items))
          h in
      let chosen : select (carries_id D C R id) items ≡ found = cc g in
      subst (All (IsAbout id)) chosen (
        select-All (carries_id D C R id) (IsAbout id) items
          λ entry c. not-differs id (usable_order_id C (first entry id_paths)) c)

  -- What is found on a page: records about the order, what each states, and the final state that they
  -- amount to.
  abbrev pub Found : LocalOrder Num → FinalRecord Num → List (Json Num Int) → Type 0
  Found local r found =
      All (IsAbout local.broker_order_id) found
      × (parts : List (Reported Num)) × (read_all D C R found local ≡ fine parts)
      × EachStates D C R order found local parts
      × RestsOnParts D C R order parts local r

  only_final-Found :
      (local : LocalOrder Num) (found found' : List (Json Num Int)) (parts : List (Reported Num))
      (v : Verdict Num) (r : FinalRecord Num)
      → All (IsAbout local.broker_order_id) found
      → read_all D C R found local ≡ fine parts
      → RestsOn D C R order parts local v
      → only_final D C R found v ≡ fine (some (r, found'))
      → Found local r found'
  only_final-Found local found found' parts (open_record word) r about e rests h = cc
  only_final-Found local found found' parts (final_record r') r about e rests h =
      let same_record : r' ≡ r = cc h in
      let same_found : found ≡ found' = cc h in
      subst (Found local r) same_found (
        about,
        parts,
        e,
        read_all-EachStates D C R order found local parts e,
        subst (RestsOnParts D C R order parts local) same_record rests,
      )

  of_found-Found :
      (local : LocalOrder Num) (found found' : List (Json Num Int)) (r : FinalRecord Num)
      → All (IsAbout local.broker_order_id) found
      → of_found D C R found local ≡ fine (some (r, found'))
      → Found local r found'
  of_found-Found local [] found' r about h = cc
  of_found-Found local (entry ∷ entries) found' r about h =
      let found = entry ∷ entries in
      let (parts, e, g) =
        bind-fine (read_all D C R found local)
          (λ parts. judge D C R parts local true >>= only_final D C R found) h in
      let (v, f, k) = bind-fine (judge D C R parts local true) (only_final D C R found) g in
      only_final-Found local found found' parts v r about e
        (judge-RestsOn D C R order parts local true v f) k

  -- A final state that the order history is taken to report rests on records that carry the order's
  -- own id, each of which passes as a record of this order, and which call it by one and the same
  -- final word. The word, the amount and the price of each are taken down as it states them: its price,
  -- if it states one, is the finite number that stands there, not negative and below the first that is
  -- too large to be stored. One states the amount, not above the ordered quantity and all of it for a
  -- filled order. Unless that is zero, in which case no price is recorded, the price recorded is not
  -- below the smallest that is not stored as zero, and it is the record's own, or, of several records,
  -- each a fill with its amount and price, what was paid for all of them divided by the amount that they
  -- add up to, with eight decimals.
  pub history-Found :
      (history : Json Num Int) (local : LocalOrder Num) (r : FinalRecord Num)
      (found : List (Json Num Int))
      → interpret_history D C R history local ≡ fine (some (r, found))
      → Found local r found
  unfolding interpret_history
  history-Found history local r found h =
      let (found', e, g) =
        bind-fine (records_of D C R history local.broker_order_id)
          (λ found'. of_found D C R found' local) h in
      of_found-Found local found' found r
        (records_of-IsAbout history local.broker_order_id found' e) g

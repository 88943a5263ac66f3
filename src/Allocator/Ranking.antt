-- ===== src/Allocator/Ranking.antt =====
-- apps/api/app/services/signal_allocator.py: in which order a batch is judged.
use t212_cashguard.Common.{
  ℕ, suc, arith, ◌≡◌, Bool, true, false, not, ◌&&◌, some, String, List, [], ◌∷◌, map, refl, ◌∙◌,
  sym, select, str_eq, if◌then◌else◌,
}
use t212_cashguard.Common.Numeric.{Decimals, Floats, IsOrdered, less_asymm, not_less_trans}
use t212_cashguard.Common.Sorting.{
  stable_sort, stable_sort-perm, stable_sort-InOrder, stable_sort-ties, IsKeyOrder, ties,
}
use mathlib.Core.List.{Perm, Pairwise}
use mathlib.Core.List.Pairwise
use t212_cashguard.Allocator.{AllocatorCandidate}
use t212_cashguard.Allocator.Score.{pre_score}
use t212_cashguard.Allocator.Decide.{
  AllocationDecision, AllocationState, Account, decide, allocate_one, sorts_before, ranking,
  allocate_each, allocate_batch,
}

-- The comparison of keys, by whether each item is a sale and how their scores compare.
abbrev key_before : Bool → Bool → Bool → Bool
key_before s t less = if s then (if t then less else true) else (if t then false else less)

key_before_asymm :
    (s t l m : Bool) → (l ≡ true → m ≡ false) → key_before s t l ≡ true → key_before t s m ≡ false
key_before_asymm true true l m f h = f h
key_before_asymm true false l m f h = refl
key_before_asymm false true l m f h = cc h
key_before_asymm false false l m f h = f h

key_before_trans :
    (s t u l m n : Bool)
    → (l ≡ false → m ≡ false → n ≡ false)
    → key_before s t l ≡ false
    → key_before t u m ≡ false
    → key_before s u n ≡ false
key_before_trans true true true l m n f h k = f h k
key_before_trans true true false l m n f h k = cc k
key_before_trans true false u l m n f h k = cc h
key_before_trans false true true l m n f h k = refl
key_before_trans false true false l m n f h k = cc k
key_before_trans false false true l m n f h k = refl
key_before_trans false false false l m n f h k = f h k

key_before-sells :
    (s t l : Bool) → key_before t s l ≡ false → (t ≡ true → s ≡ true) × (s ≡ t → l ≡ false)
key_before-sells true true l h = ((λ e. refl), λ e. h)
key_before-sells true false l h = ((λ e. refl), λ e. cc e)
key_before-sells false true l h = cc h
key_before-sells false false l h = ((λ e. e), λ e. h)

key_before-equal :
    (s t l m : Bool)
    → (not (key_before s t l) && not (key_before t s m))
      ≡ ((if s then t else not t) && not m && not l)
key_before-equal true true l m = ground arith
key_before-equal true false l m = refl
key_before-equal false true l m = refl
key_before-equal false false l m = ground arith

module _ (D : Decimals) (F : Floats (Decimals.Num D)) (upper : String → String) where
  open D use {Num}
  open F use {Float, float_less}

  abbrev Scored : Type 0
  Scored = Float × AllocatorCandidate Num Float

  abbrev sells : Scored → Bool
  sells (_, c) = str_eq c.side "sell"

  abbrev FloatOrder : Type 0
  FloatOrder = IsOrdered Float float_less

  -- An item that may stand before another: sales stand first, and of two that are both sales, or
  -- both none, the one with the lower score does not.
  pub MayPrecede : Scored → Scored → Type 0
  MayPrecede x y =
      (sells y ≡ true → sells x ≡ true) × (sells x ≡ sells y → float_less x.0 y.0 ≡ false)

  -- Items that are both sales, or both none, of one score.
  unfoldable pub equal_rank : Scored → Scored → Bool
  equal_rank x y =
      (if sells x then sells y else not (sells y))
      && not (float_less x.0 y.0)
      && not (float_less y.0 x.0)

  -- The decision on a candidate that has this rank.
  pub IsFor : ℕ → AllocatorCandidate Num Float → AllocationDecision Float → Type 0
  IsFor n c d =
      (d.ticker ≡ upper c.ticker)
      × (d.side ≡ c.side)
      × (d.strategy_id ≡ c.strategy_id)
      × (d.signal_type ≡ c.signal_type)
      × (d.rank ≡ some n)

  -- One decision on each item, with ranks that count on from a number.
  abbrev pub DecidedFrom : ℕ → List Scored → List (AllocationDecision Float) → Type 0
  DecidedFrom n [] [] = Unit
  DecidedFrom n [] (d ∷ ds) = ⊥
  DecidedFrom n (x ∷ xs) [] = ⊥
  DecidedFrom n (x ∷ xs) (d ∷ ds) = IsFor n x.1 d × DecidedFrom (suc n) xs ds

  abbrev scored : Account D F upper → List (AllocatorCandidate Num Float) → List Scored
  scored a cs = map (λ c. (pre_score D F c a.regime, c)) cs

  -- Decisions on the candidates of a batch, by rank.
  pub record IsRanked (a : Account D F upper) (cs : List (AllocatorCandidate Num Float))
      (ds : List (AllocationDecision Float)) : Type 0 where
    pub ranked : List Scored
    pub same_candidates : Perm ranked (scored a cs)
    pub best_first : Pairwise MayPrecede ranked
    pub ties_keep_order :
        (x : Scored) → select (equal_rank x) ranked ≡ select (equal_rank x) (scored a cs)
    pub decided : DecidedFrom 1 ranked ds

  module _ (order : FloatOrder) where
    sorts_before-IsKeyOrder : IsKeyOrder (sorts_before D F upper)
    unfolding sorts_before
    sorts_before-IsKeyOrder = record {
      asymm = λ x y h.
          key_before_asymm (sells x) (sells y) (float_less y.0 x.0) (float_less x.0 y.0)
            (less_asymm order y.0 x.0) h;
      not_before_trans = λ x y z h k.
          key_before_trans (sells x) (sells y) (sells z) (float_less y.0 x.0) (float_less z.0 y.0)
            (float_less z.0 x.0) (λ l m. not_less_trans order z.0 y.0 x.0 m l) h k;
    }

    not_before-MayPrecede : (x y : Scored) → sorts_before D F upper y x ≡ false → MayPrecede x y
    unfolding sorts_before MayPrecede
    not_before-MayPrecede x y h = key_before-sells (sells x) (sells y) (float_less x.0 y.0) h

    ties-equal_rank : (x y : Scored) → ties (sorts_before D F upper) x y ≡ equal_rank x y
    unfolding ties equal_rank sorts_before
    ties-equal_rank x y =
        key_before-equal (sells x) (sells y) (float_less y.0 x.0) (float_less x.0 y.0)

    select-ext :
        (p q : Scored → Bool)
        → ((x : Scored) → p x ≡ q x)
        → (l : List Scored) → select p l ≡ select q l
    select-ext p q h [] = refl
    select-ext p q h (x ∷ l) = cc (h x, select-ext p q h l)

    select-equal_rank :
        (x : Scored) (l : List Scored)
        → select (ties (sorts_before D F upper) x) l ≡ select (equal_rank x) l
    select-equal_rank x l =
        select-ext (ties (sorts_before D F upper) x) (equal_rank x) (ties-equal_rank x) l

  each-DecidedFrom :
      (a : Account D F upper) (n : ℕ) (xs : List Scored) (state : AllocationState Num Float)
      → DecidedFrom n xs (allocate_each D F upper a n xs state).0
  unfolding IsFor allocate_each allocate_one decide
  each-DecidedFrom a n [] state = tt
  each-DecidedFrom a n ((x, c) ∷ xs) state =
      ((refl, refl, refl, refl, refl), each-DecidedFrom a (suc n) xs _)

  -- A batch is decided one candidate after the other, with ranks from 1: sales come first, a lower
  -- score never comes before a higher one among the sales or among the others, and candidates that
  -- agree in both stay in the order in which they were given. Of the order of the floats it is
  -- assumed that it is one.
  pub allocate_batch-IsRanked :
      IsOrdered Float float_less
      → (a : Account D F upper) (cs : List (AllocatorCandidate Num Float))
      → (state : AllocationState Num Float) → IsRanked a cs (allocate_batch D F upper a cs state).0
  unfolding allocate_batch ranking
  allocate_batch-IsRanked order a cs state =
      let before = sorts_before D F upper in
      let keys = sorts_before-IsKeyOrder order in
      let list = scored a cs in
      record {
        ranked = ranking D F upper a cs;
        same_candidates = stable_sort-perm before list;
        best_first =
            Pairwise.imp (not_before-MayPrecede order) (stable_sort-InOrder before keys list);
        ties_keep_order = λ x.
            sym (select-equal_rank order x (stable_sort before list))
            ∙ stable_sort-ties before keys x list
            ∙ select-equal_rank order x list;
        decided = each-DecidedFrom a 1 (ranking D F upper a cs) state;
      }

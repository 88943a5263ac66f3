-- ===== src/Common/Sorting.antt =====
-- `list.sort`, which keeps items with equal keys in their order, by the comparison of their keys.
use t212_cashguard.Common.{
  ◌≡◌, Bool, true, false, not, ◌&&◌, refl, ap, inl, inr, List, [], ◌∷◌, select, Bool-cases,
  if◌then◌else◌,
}
use mathlib.Core.Bool.{Bool-set}
use mathlib.Core.Path.{◌∙◌}
use mathlib.Core.List.{Perm, Pairwise, Mem, Pairwise-singleton, forall_mem-cons}
use mathlib.Core.List.Perm

module _ {A : Type 0} (before : A → A → Bool) where
  unfoldable pub insert_sorted : A → List A → List A
  insert_sorted x [] = x ∷ []
  insert_sorted x (y ∷ ys) =
      let rest = insert_sorted x ys in if before y x then y ∷ rest else x ∷ y ∷ ys

  unfoldable pub stable_sort : List A → List A
  stable_sort [] = []
  stable_sort (x ∷ xs) = insert_sorted x (stable_sort xs)

  insert_sorted-perm : (x : A) (l : List A) → Perm (insert_sorted x l) (x ∷ l)
  unfolding insert_sorted
  insert_sorted-perm x [] = Perm.rfl
  insert_sorted-perm x (y ∷ ys) = elim (Bool-cases (before y x)) [
    | inl e ↦ rw e (Perm.trans (Perm.cons y (insert_sorted-perm x ys)) (Perm.swap x y ys))
    | inr e ↦ rw e Perm.rfl
  ]

  -- A sorted list has the same items.
  pub stable_sort-perm : (l : List A) → Perm (stable_sort l) l
  unfolding stable_sort
  stable_sort-perm [] = Perm.rfl
  stable_sort-perm (x ∷ xs) =
      Perm.trans (insert_sorted-perm x (stable_sort xs)) (Perm.cons x (stable_sort-perm xs))

  -- An item before a list, where a test selects it.
  abbrev put : Bool → A → List A → List A
  put b x rest = elim b [ true ↦ x ∷ rest | false ↦ rest ]

  put_swap :
      (b c : Bool) (y x : A) (rest : List A)
      → (b ≡ true → c ≡ false)
      → put b y (put c x rest) ≡ put c x (put b y rest)
  put_swap true true y x rest h = cc (h refl)
  put_swap true false y x rest h = refl
  put_swap false c y x rest h = refl

  select_under :
      (p : A → Bool) (x : A) (xs ys : List A)
      → select p xs ≡ select p ys
      → select p (x ∷ xs) ≡ select p (x ∷ ys)
  select_under p x xs ys h = ap (put (p x) x) h

  -- What the comparison of keys promises.
  pub record IsKeyOrder : Type 0 where
    pub asymm : (a b : A) → before a b ≡ true → before b a ≡ false
    pub not_before_trans :
        (a b c : A) → before a b ≡ false → before b c ≡ false → before a c ≡ false

  -- No later item belongs before an earlier one.
  abbrev pub InOrder : List A → Type 0
  InOrder = Pairwise (λ a b. before b a ≡ false)

  -- The items with the same key.
  unfoldable pub ties : A → A → Bool
  ties a b = not (before a b) && not (before b a)

  module _ (order : IsKeyOrder) where
    none_before :
        (x y : A) (ys : List A)
        → before y x ≡ false
        → ((z : A) → Mem z ys → before z x ≡ false)
        → (z : A) → Mem z (y ∷ ys)
        → before z x ≡ false
    none_before x y ys e below = (forall_mem-cons λ w. Bool-set (before w x) false).1 (e, below)

    insert_sorted-InOrder : (x : A) {l : List A} → InOrder l → InOrder (insert_sorted x l)
    unfolding insert_sorted
    insert_sorted-InOrder x Pairwise.nil = Pairwise-singleton _ x
    insert_sorted-InOrder x (Pairwise.cons {a = y} {l = ys} below s) =
        elim (Bool-cases (before y x)) [
          | inl e ↦ rw e (
              Pairwise.cons
                (λ z m.
                  none_before y x ys (order.asymm y x e) below z
                    ((Perm.mem_iff (insert_sorted-perm x ys)).0 m))
                (insert_sorted-InOrder x s))
          | inr e ↦ rw e (
              Pairwise.cons (none_before x y ys e λ w k. order.not_before_trans w y x (below w k) e)
                (Pairwise.cons below s))
        ]

    -- A sorted list is in the order of its keys.
    pub stable_sort-InOrder : (l : List A) → InOrder (stable_sort l)
    unfolding stable_sort
    stable_sort-InOrder [] = Pairwise.nil
    stable_sort-InOrder (x ∷ xs) = insert_sorted-InOrder x (stable_sort-InOrder xs)

    no_ties : (a y x : A) → before y x ≡ true → ties a y ≡ true → ties a x ≡ false
    unfolding ties
    no_ties a y x e h = elim (Bool-cases (before y a)) [
      | inl f ↦ cc (f, h, order.asymm y a f)
      | inr f ↦ elim (Bool-cases (before a x)) [
        | inl g ↦ rw g refl
        | inr g ↦ cc (order.not_before_trans y a x f g)
      ]
    ]

    -- Two items of which one belongs first do not both have the key of a third.
    swapped :
        (a y x : A) (ys : List A)
        → before y x ≡ true
        → select (ties a) (y ∷ x ∷ ys) ≡ select (ties a) (x ∷ y ∷ ys)
    swapped a y x ys e = put_swap (ties a y) (ties a x) y x (select (ties a) ys) (no_ties a y x e)

    insert_sorted-ties :
        (a x : A) (l : List A) → select (ties a) (insert_sorted x l) ≡ select (ties a) (x ∷ l)
    unfolding insert_sorted
    insert_sorted-ties a x [] = refl
    insert_sorted-ties a x (y ∷ ys) = elim (Bool-cases (before y x)) [
      | inl e ↦
          rw e (select_under (ties a) y _ (x ∷ ys) (insert_sorted-ties a x ys) ∙ swapped a y x ys e)
      | inr e ↦ rw e refl
    ]

    -- Items with equal keys stay in their order.
    pub stable_sort-ties :
        (a : A) (l : List A) → select (ties a) (stable_sort l) ≡ select (ties a) l
    unfolding stable_sort
    stable_sort-ties a [] = refl
    stable_sort-ties a (x ∷ xs) =
        insert_sorted-ties a x (stable_sort xs)
        ∙ select_under (ties a) x (stable_sort xs) xs (stable_sort-ties a xs)

-- ===== src/DataFilter/Exclude.antt =====
-- `filter_exclude` splits the data: an item is removed exactly if some filter matches it.
use byoda_python.Base.{
  ◌≡◌, ap, ◌⊎◌, inl, inr, Bool, true, false, List, [], ◌∷◌, none, some, if◌then◌else◌, Result, ok,
  key_error, or_raise, arith, >>=-eq-ok, ok-injective, or_raise-eq-ok,
}
use byoda_python.Text.{Text}
use byoda_python.DataFilter.{Platform, Value, DataFilter, compare}
use byoda_python.DataFilter.Sets.{
  Dict, lookup, Item, Conditions, DataFilterSet, new_set, excluded_by_field, excluded,
  exclude_items, filter_exclude,
}
use byoda_python.DataFilter.Select.{HoldsAt}

module _ (p : Platform) where
  open p use {Num}

  -- Some filter of the list, or of the set, holds of the item.
  abbrev pub AnyAt : Item Num → Text → List (DataFilter Num) → Type 0
  AnyAt item field [] = ⊥
  AnyAt item field (f ∷ fs) = HoldsAt p item field f ⊎ AnyAt item field fs

  abbrev pub AnyHolds : Item Num → Dict (List (DataFilter Num)) → Type 0
  AnyHolds item [] = ⊥
  AnyHolds item ((field, fs) ∷ rest) = AnyAt item field fs ⊎ AnyHolds item rest

  -- The data in their order, dealt out to the two results.
  pub data Splits (fs : Dict (List (DataFilter Num)))
      : List (Item Num) → List (Item Num) → List (Item Num) → Type 0 where
    nil : Splits fs [] [] []
    remains :
        {item : Item Num} {xs ys zs : List (Item Num)}
        → ¬ AnyHolds item fs
        → Splits fs xs ys zs
        → Splits fs (item ∷ xs) (item ∷ ys) zs
    removed :
        {item : Item Num} {xs ys zs : List (Item Num)}
        → AnyHolds item fs
        → Splits fs xs ys zs
        → Splits fs (item ∷ xs) ys (item ∷ zs)

  -- What a result of the inner loop means.
  abbrev Means : Bool → Type 0 → Type 0
  Means true P = P
  Means false P = ¬ P

  field_means :
      (item : Item Num) (field : Text) (fs : List (DataFilter Num)) (b : Bool)
      → excluded_by_field p item field fs ≡ ok b
      → Means b (AnyAt item field fs)
  unfolding excluded_by_field
  field_means item field [] true h = absurd (cc)
  field_means item field [] false h = λ k. k
  field_means item field (f ∷ fs) b h =
      let (v, found, h1) = >>=-eq-ok (or_raise key_error (lookup field item)) _ h in
      let (same, compared, h2) = >>=-eq-ok (compare p f v) _ h1 in
      first v same (or_raise-eq-ok _ _ found) compared b h2 (field_means item field fs b)
    where
      first :
          (v : Value Num) (same : Bool)
          → lookup field item ≡ some v
          → compare p f v ≡ ok same
          → (b : Bool) → (if same then ok true else excluded_by_field p item field fs) ≡ ok b
          → (excluded_by_field p item field fs ≡ ok b → Means b (AnyAt item field fs))
          → Means b (AnyAt item field (f ∷ fs))
      first v true found compared true k ih = inl (v, found, compared)
      first v true found compared false k ih = absurd (cc)
      first v false found compared true k ih = inr (ih k)
      first v false found compared false k ih =
          λ m. elim m [ inl (w, found', compared') ↦ grind arith | inr later ↦ ih k later ]

  excluded_means :
      (item : Item Num) (fs : Dict (List (DataFilter Num))) (b : Bool)
      → excluded p item fs ≡ ok b
      → Means b (AnyHolds item fs)
  unfolding excluded
  excluded_means item [] true h = absurd (cc)
  excluded_means item [] false h = λ k. k
  excluded_means item ((field, fs) ∷ rest) b h =
      let (here, at_field, h1) = >>=-eq-ok (excluded_by_field p item field fs) _ h in
      let (later, at_rest, h2) = >>=-eq-ok (excluded p item rest) _ h1 in
      both here later b (field_means item field fs here at_field)
        (excluded_means item rest later at_rest) (ok-injective h2)
    where
      both :
          (here later b : Bool)
          → Means here (AnyAt item field fs)
          → Means later (AnyHolds item rest)
          → (if here then true else later) ≡ b
          → Means b (AnyHolds item ((field, fs) ∷ rest))
      both true later true m n e = inl m
      both true later false m n e = absurd (cc)
      both false true true m n e = inr n
      both false true false m n e = absurd (cc)
      both false false true m n e = absurd (cc)
      both false false false m n e = λ k. elim k [ inl a ↦ m a | inr a ↦ n a ]

  abbrev pair : List (Item Num) → List (Item Num) → Result (List (Item Num) × List (Item Num))
  pair ys zs = ok (ys, zs)

  parts : (ys zs ys' zs' : List (Item Num)) → pair ys zs ≡ pair ys' zs' → (ys ≡ ys') × (zs ≡ zs')
  parts ys zs ys' zs' h =
      let e : (ys, zs) ≡ (ys', zs') = ok-injective h in (ap (λ r. r.0) e, ap (λ r. r.1) e)

  exclude_items-Splits :
      (set : DataFilterSet Num) (xs ys zs : List (Item Num))
      → exclude_items p set xs ≡ ok (ys, zs)
      → Splits set.filters xs ys zs
  unfolding exclude_items
  exclude_items-Splits set [] ys zs h = let e = parts [] [] ys zs h in rw (← e.0, ← e.1) nil
  exclude_items-Splits set (item ∷ xs) ys zs h =
      let (out, tested, h1) = >>=-eq-ok (excluded p item set.filters) _ h in
      let ((ys', zs'), split, h2) = >>=-eq-ok (exclude_items p set xs) _ h1 in
      deal out ys' zs' (excluded_means item set.filters out tested)
        (exclude_items-Splits set xs ys' zs' split) h2
    where
      deal :
          (out : Bool) (ys' zs' : List (Item Num))
          → Means out (AnyHolds item set.filters)
          → Splits set.filters xs ys' zs'
          → ok (if out then (ys', item ∷ zs') else (item ∷ ys', zs')) ≡ pair ys zs
          → Splits set.filters (item ∷ xs) ys zs
      deal true ys' zs' m s h =
          let e = parts ys' (item ∷ zs') ys zs h in rw (← e.0, ← e.1) (Splits.removed m s)
      deal false ys' zs' m s h =
          let e = parts (item ∷ ys') zs' ys zs h in rw (← e.0, ← e.1) (Splits.remains m s)

  -- What `filter_exclude` returns is the data dealt out in their order: an item is in the second
  -- list if some filter of the set that the conditions make holds of it, and in the first if none does.
  pub filter_exclude-Splits :
      (conditions : Conditions Num) (xs ys zs : List (Item Num))
      → filter_exclude p conditions xs ≡ ok (ys, zs)
      → (set : DataFilterSet Num) × (new_set p conditions none false ≡ ok set)
        × Splits set.filters xs ys zs
  unfolding filter_exclude
  filter_exclude-Splits conditions xs ys zs h =
      let (set, made, h1) = >>=-eq-ok (new_set p conditions none false) _ h in
      (set, made, exclude_items-Splits set xs ys zs h1)

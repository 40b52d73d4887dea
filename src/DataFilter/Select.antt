-- ===== src/DataFilter/Select.antt =====
-- `filter` selects exactly the items on which every filter of every field holds, and returns whenever
-- the filters can be compared with the items.
use byoda_python.Base.{
  ◌≡◌, refl, Bool, true, false, ◌&&◌, List, [], ◌∷◌, some, if◌then◌else◌, ok, key_error, or_raise,
  All, arith, >>=-eq-ok, ok-injective, or_raise-eq-ok,
}
use byoda_python.Text.{Text}
use byoda_python.DataFilter.{Platform, Value, DataFilter, compare}
use byoda_python.DataFilter.Sets.{Dict, lookup, Item, DataFilterSet, matches_field, matches, filter}

module _ (p : Platform) where
  open p use {Num}

  -- One filter holds of an item: the item has the field, and the comparison is true.
  abbrev pub HoldsAt : Item Num → Text → DataFilter Num → Type 0
  HoldsAt item field f = (v : Value Num) × (lookup field item ≡ some v) × (compare p f v ≡ ok true)

  abbrev pub Holds : Item Num → Dict (List (DataFilter Num)) → Type 0
  Holds item = All (λ e. All (HoldsAt item e.0) e.1)

  -- One filter can be compared with an item.
  abbrev pub ReadsAt : Item Num → Text → DataFilter Num → Type 0
  ReadsAt item field f =
      (v : Value Num) × (b : Bool) × (lookup field item ≡ some v) × (compare p f v ≡ ok b)

  abbrev pub Reads : Item Num → Dict (List (DataFilter Num)) → Type 0
  Reads item = All (λ e. All (ReadsAt item e.0) e.1)

  -- The result keeps the items that hold, in order, and drops the others.
  pub data Selects (fs : Dict (List (DataFilter Num)))
      : List (Item Num) → List (Item Num) → Type 0 where
    nil : Selects fs [] []
    keep :
        {item : Item Num} {xs ys : List (Item Num)}
        → Holds item fs
        → Selects fs xs ys
        → Selects fs (item ∷ xs) (item ∷ ys)
    drop :
        {item : Item Num} {xs ys : List (Item Num)}
        → ¬ Holds item fs
        → Selects fs xs ys
        → Selects fs (item ∷ xs) ys

  first_holds :
      (item : Item Num) (field : Text) (f : DataFilter Num) (fs : List (DataFilter Num))
      → matches_field p item field (f ∷ fs) ≡ ok true
      → HoldsAt item field f × (matches_field p item field fs ≡ ok true)
  unfolding matches_field
  first_holds item field f fs h =
      let (v, found, h1) = >>=-eq-ok (or_raise key_error (lookup field item)) _ h in
      let (same, compared, h2) = >>=-eq-ok (compare p f v) _ h1 in
      continued v same found compared h2
    where
      continued :
          (v : Value Num) (same : Bool)
          → or_raise key_error (lookup field item) ≡ ok v
          → compare p f v ≡ ok same
          → (if same then matches_field p item field fs else ok false) ≡ ok true
          → HoldsAt item field f × (matches_field p item field fs ≡ ok true)
      continued v true found compared k = ((v, or_raise-eq-ok _ _ found, compared), k)
      continued v false found compared k = absurd (cc)

  field_sound :
      (item : Item Num) (field : Text) (fs : List (DataFilter Num))
      → matches_field p item field fs ≡ ok true
      → All (HoldsAt item field) fs
  field_sound item field [] h = tt
  field_sound item field (f ∷ fs) h =
      let (here, rest) = first_holds item field f fs h in (here, field_sound item field fs rest)

  field_complete :
      (item : Item Num) (field : Text) (fs : List (DataFilter Num))
      → All (HoldsAt item field) fs
      → matches_field p item field fs ≡ ok true
  unfolding matches_field
  field_complete item field [] h = refl
  field_complete item field (f ∷ fs) ((v, found, same), h) =
      rw (found, same) (field_complete item field fs h)

  matches_sound :
      (item : Item Num) (fs : Dict (List (DataFilter Num)))
      → matches p item fs ≡ ok true
      → Holds item fs
  unfolding matches
  matches_sound item [] h = tt
  matches_sound item ((field, fs) ∷ rest) h =
      let (here, at_field, h1) = >>=-eq-ok (matches_field p item field fs) _ h in
      let (later, at_rest, h2) = >>=-eq-ok (matches p item rest) _ h1 in
      (field_sound item field fs (ground arith), matches_sound item rest (ground arith))

  matches_complete :
      (item : Item Num) (fs : Dict (List (DataFilter Num)))
      → Holds item fs
      → matches p item fs ≡ ok true
  unfolding matches
  matches_complete item [] h = refl
  matches_complete item ((field, fs) ∷ rest) (h, k) =
      rw (field_complete item field fs h, matches_complete item rest k)

  field_total :
      (item : Item Num) (field : Text) (fs : List (DataFilter Num))
      → All (ReadsAt item field) fs
      → (b : Bool) × (matches_field p item field fs ≡ ok b)
  unfolding matches_field
  field_total item field [] h = (true, refl)
  field_total item field (f ∷ fs) ((v, true, found, same), h) =
      let (b, e) = field_total item field fs h in (b, rw (found, same) e)
  field_total item field (f ∷ fs) ((v, false, found, same), h) = (false, rw (found, same))

  matches_total :
      (item : Item Num) (fs : Dict (List (DataFilter Num)))
      → Reads item fs
      → (b : Bool) × (matches p item fs ≡ ok b)
  unfolding matches
  matches_total item [] h = (true, refl)
  matches_total item ((field, fs) ∷ rest) (h, k) =
      let (b, e) = field_total item field fs h in
      let (c, e') = matches_total item rest k in (b && c, rw (e, e'))

  -- What `filter` returns is the selection: each item stays, in its place, exactly if every filter
  -- of every field holds of it, although the loops stop early within a field.
  pub filter-Selects :
      (set : DataFilterSet Num) (xs ys : List (Item Num))
      → filter p set xs ≡ ok ys
      → Selects set.filters xs ys
  unfolding filter
  filter-Selects set [] ys h = rw (← ok-injective h) nil
  filter-Selects set (item ∷ xs) ys h =
      let (keep_it, matched, h1) = >>=-eq-ok (matches p item set.filters) _ h in
      let (rest, selected, h2) = >>=-eq-ok (filter p set xs) _ h1 in
      decide keep_it rest matched (filter-Selects set xs rest selected) (ok-injective h2)
    where
      decide :
          (b : Bool) (rest : List (Item Num))
          → matches p item set.filters ≡ ok b
          → Selects set.filters xs rest
          → (if b then item ∷ rest else rest) ≡ ys
          → Selects set.filters (item ∷ xs) ys
      decide true rest m s e = rw (← e) (Selects.keep (matches_sound item set.filters m) s)
      decide false rest m s e =
          rw (← e) (Selects.drop (λ k. cc (m, matches_complete item set.filters k)) s)

  -- `filter` returns if every item has the fields that are filtered on, with values that the filters
  -- can be compared with.
  pub filter_total :
      (set : DataFilterSet Num) (xs : List (Item Num))
      → All (λ item. Reads item set.filters) xs
      → (ys : List (Item Num)) × (filter p set xs ≡ ok ys) × Selects set.filters xs ys
  unfolding filter
  filter_total set [] h = ([], refl, nil)
  filter_total set (item ∷ xs) (h, hs) =
      let (b, matched) = matches_total item set.filters h in
      let (rest, selected, _) = filter_total set xs hs in
      let ys : List (Item Num) = if b then item ∷ rest else rest in
      let e : filter p set (item ∷ xs) ≡ ok ys = rw (matched, selected) in
      (ys, e, filter-Selects set (item ∷ xs) ys e)

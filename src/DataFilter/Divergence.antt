-- ===== src/DataFilter/Divergence.antt =====
-- Where the code of the filters does not do what its documentation says.
use byoda_python.Base.{
  ◌≡◌, sym, subst, ◌∙◌, ◌≢◌, Bool, true, List, [], ◌∷◌, ◌++◌, some, ok, All, arith, or_raise,
  key_error, or_raise-eq-ok, >>=-eq-ok,
}
use byoda_python.Text.{Text, codes}
use byoda_python.DataFilter.{
  Platform, Value, text, Moment, DataFilter, number_filter, date_filter, NumberOp, compare,
  compare_operand, compare_date, adapt_date_type, find_op, date_ops,
}
use byoda_python.DataFilter.Sql.{SqlCondition, sql_filter, number_symbol}
use byoda_python.DataFilter.Sets.{
  Dict, lookup, Item, filter, matches, matches_field, where_field, where_fields, join_and,
  sql_where_clause,
}
use byoda_python.Text.Laws.{text_eq_refl}
use byoda_python.DataFilter.Conditions.{placeholder-sql_filter}

module _ (p : Platform) where
  open p use {Num}

  abbrev pub number_with : Text → Text → Num → DataFilter Num
  number_with field operator n = record {
    field = field;
    operator = operator;
    operand = number_filter n;
  }

  abbrev pub date_with : Text → Text → Moment Num → DataFilter Num
  date_with field operator m = record {
    field = field;
    operator = operator;
    operand = date_filter m;
  }

  -- Of two filters on one field, the WHERE clause binds only the value of the second: both conditions
  -- name one placeholder, and the dictionary of the values holds that placeholder alone.
  sql_where_clause-overrides :
      (is_meta : Bool) (f g : DataFilter Num) (c d : SqlCondition Num)
      → f.field ≡ g.field
      → sql_filter p f true is_meta ≡ ok c
      → sql_filter p g true is_meta ≡ ok d
      → (c.placeholder ≡ d.placeholder)
        × (sql_where_clause p
              (record { filters = (f.field, f ∷ g ∷ []) ∷ []; is_meta_filter = is_meta })
            ≡ ok (
              codes "WHERE " ++ (c.condition ++ (codes " AND " ++ d.condition)),
              (c.placeholder, d.value) ∷ [],
            ))
  unfolding sql_where_clause where_fields where_field join_and
  sql_where_clause-overrides is_meta f g c d same h k =
      let one : c.placeholder ≡ d.placeholder =
        cc (placeholder-sql_filter p f is_meta c h, placeholder-sql_filter p g is_meta d k) in
      (one, rw (h, k, one, text_eq_refl d.placeholder))

  -- A number filter with `elt`, at most, matches what the one with `lt`, less than, matches, although
  -- their SQL has two operators.
  elt_is_lt :
      (field : Text) (n : Num) (v : Value Num)
      → (compare p (number_with field (codes "elt") n) v
          ≡ compare p (number_with field (codes "lt") n) v)
        × (number_symbol NumberOp.elt ≢ number_symbol NumberOp.lt)
  unfolding compare number_symbol
  elt_is_lt field n v = (ground arith, cc)

  refuses :
      (field operator s : Text) (m : Moment Num) (b : Bool)
      → compare p (date_with field operator m) (text s) ≢ ok b
  unfolding compare compare_operand compare_date adapt_date_type
  refuses field operator s m b h =
      let (op, _, e) = >>=-eq-ok (find_op operator date_ops) _ h in cc (e)

  first_compared :
      (item : Item Num) (field : Text) (f : DataFilter Num) (fs : List (DataFilter Num))
      (rest : Dict (List (DataFilter Num))) (b : Bool)
      → matches p item ((field, f ∷ fs) ∷ rest) ≡ ok b
      → (v : Value Num) × (same : Bool) × (lookup field item ≡ some v) × (compare p f v ≡ ok same)
  unfolding matches matches_field
  first_compared item field f fs rest b h =
      let (here, at_field, h1) = >>=-eq-ok (matches_field p item field (f ∷ fs)) _ h in
      let (v, found, h2) = >>=-eq-ok (or_raise key_error (lookup field item)) _ at_field in
      let (same, compared, h3) = >>=-eq-ok (compare p f v) _ h2 in
      (v, same, or_raise-eq-ok _ _ found, compared)

  -- If the first filter is on a date, then `filter` returns only if no item has a text in that
  -- field, not even a text that is a date.
  date_filter-refuses_text :
      (field operator : Text) (m : Moment Num) (fs : List (DataFilter Num))
      (rest : Dict (List (DataFilter Num))) (is_meta : Bool) (xs ys : List (Item Num))
      → filter p
          (record {
            filters = (field, date_with field operator m ∷ fs) ∷ rest;
            is_meta_filter = is_meta;
          })
          xs
        ≡ ok ys
      → All (λ item. (s : Text) → lookup field item ≢ some (text s)) xs
  unfolding filter
  date_filter-refuses_text field operator m fs rest is_meta [] ys h = tt
  date_filter-refuses_text field operator m fs rest is_meta (item ∷ xs) ys h =
      let (keep, matched, h1) =
        >>=-eq-ok (matches p item ((field, date_with field operator m ∷ fs) ∷ rest)) _ h in
      let (others, selected, _) =
        >>=-eq-ok
          (filter p
            (record {
              filters = (field, date_with field operator m ∷ fs) ∷ rest;
              is_meta_filter = is_meta;
            })
            xs)
          _ h1 in
      let (v, same, found, compared) =
        first_compared item field (date_with field operator m) fs rest keep matched in
      (
        λ s e. refuses field operator s m same (
            subst (λ (w : Value Num). compare p (date_with field operator m) w ≡ ok same)
              (some-injective (sym found ∙ e)) compared),
        date_filter-refuses_text field operator m fs rest is_meta xs others selected,
      )
    where
      some-injective : {A : Type 0} {a b : A} → some a ≡ some b → a ≡ b
      some-injective h = cc

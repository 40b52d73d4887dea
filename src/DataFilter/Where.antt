-- ===== src/DataFilter/Where.antt =====
-- The WHERE clause of `DataFilterSet.sql_where_clause`, and the values of its placeholders.
use mathlib.Core.List.{append-nil, append_assoc}
use byoda_python.Base.{
  ◌≡◌, sym, ◌∙◌, ap, ◌≢◌, map, subst, Bool, true, false, List, [], ◌∷◌, ◌++◌, some, ok, All, arith,
  >>=-eq-ok, ok-injective,
}
use byoda_python.Text.{Text, codes}
use byoda_python.Text.Laws.{text_eq→≡, text_eq_refl}
use byoda_python.DataFilter.{Platform, DataFilter}
use byoda_python.DataFilter.Sql.{SqlValue, SqlCondition, sql_filter}
use byoda_python.DataFilter.Sets.{
  Dict, lookup, insert, where_field, where_fields, join_and, sql_where_clause,
}
use byoda_python.DataFilter.Conditions.{
  placeholder_of, IsCondition, sql_filter-IsCompared, placeholder-sql_filter,
}

module _ {V : Type 0} where
  pub lookup-insert : (key : Text) (v : V) (d : Dict V) → lookup key (insert key v d) ≡ some v
  unfolding lookup insert
  lookup-insert key v [] = rw (text_eq_refl key)
  lookup-insert key v ((k, w) ∷ d) =
      ground (arith, text_eq_refl key, text_eq→≡ k key, lookup-insert key v d)

  lookup-insert_other :
      (key other : Text) (v : V) (d : Dict V)
      → key ≢ other
      → lookup other (insert key v d) ≡ lookup other d
  unfolding lookup insert
  lookup-insert_other key other v [] h = ground (arith, text_eq→≡ key other)
  lookup-insert_other key other v ((k, w) ∷ d) h = ground (
    arith,
    text_eq→≡ key other,
    text_eq→≡ k key,
    text_eq→≡ k other,
    lookup-insert_other key other v d h,
  )

-- The conditions joined by AND, after WHERE.
abbrev pub conjunction : List Text → Text
conjunction [] = []
conjunction (t ∷ texts) = codes " AND " ++ (t ++ conjunction texts)

abbrev pub clause : List Text → Text
clause [] = []
clause (t ∷ texts) = codes "WHERE " ++ (t ++ conjunction texts)

join_and-conjunction :
    (t : Text) (texts : List Text) → join_and (t ∷ texts) ≡ t ++ conjunction texts
unfolding join_and
join_and-conjunction t [] = sym (append-nil t)
join_and-conjunction t (u ∷ texts) =
    ap (λ x. t ++ (codes " AND " ++ x)) (join_and-conjunction u texts)

module _ (p : Platform) where
  open p use {Num, round5, local_timestamp}

  placeholder_of-injective :
      (x y : Text) (is_meta : Bool)
      → placeholder_of p x is_meta ≡ placeholder_of p y is_meta
      → x ≡ y
  placeholder_of-injective x y true h = cc
  placeholder_of-injective x y false h = cc

  -- One filter for a field.
  abbrev pub single : DataFilter Num → Text × List (DataFilter Num)
  single f = (f.field, f ∷ [])

  -- No two of the filters are on one field.
  abbrev pub Distinct : List (DataFilter Num) → Type 0
  Distinct [] = Unit
  Distinct (f ∷ fs) = All (λ g. f.field ≢ g.field) fs × Distinct fs

  -- The conditions are those of the filters, in order, and each placeholder has the value of its
  -- filter.
  abbrev pub Bound : Bool → Dict (SqlValue Num) → List (DataFilter Num) → List Text → Type 0
  Bound is_meta values [] [] = Unit
  Bound is_meta values (f ∷ fs) (t ∷ texts) =
      ((v : SqlValue Num) × IsCondition p is_meta f t v
        × (lookup (placeholder_of p f.field is_meta) values ≡ some v))
      × Bound is_meta values fs texts
  Bound is_meta values [] (t ∷ texts) = ⊥
  Bound is_meta values (f ∷ fs) [] = ⊥

  first_where :
      (is_meta : Bool) (f : DataFilter Num) (fs : Dict (List (DataFilter Num))) (texts : List Text)
      (values : Dict (SqlValue Num)) (r : List Text × Dict (SqlValue Num))
      → where_fields p is_meta (single f ∷ fs) texts values ≡ ok r
      → (c : SqlCondition Num) × (sql_filter p f true is_meta ≡ ok c)
        × (where_fields p is_meta fs
              (texts ++ c.condition ∷ [])
              (insert c.placeholder c.value values)
            ≡ ok r)
  unfolding where_fields where_field
  first_where is_meta f fs texts values r h =
      let (here, at_field, h1) = >>=-eq-ok (where_field p is_meta (f ∷ []) texts values) _ h in
      let (c, sql, h2) = >>=-eq-ok (sql_filter p f true is_meta) _ at_field in
      (
        c,
        sql,
        subst (λ (q : List Text × Dict (SqlValue Num)). where_fields p is_meta fs q.0 q.1 ≡ ok r)
            (sym (ok-injective h2)) h1,
      )

  keeps :
      (is_meta : Bool) (fs : List (DataFilter Num)) (texts : List Text)
      (values : Dict (SqlValue Num)) (r : List Text × Dict (SqlValue Num)) (field : Text)
      → where_fields p is_meta (map single fs) texts values ≡ ok r
      → All (λ f. field ≢ f.field) fs
      → lookup (placeholder_of p field is_meta) r.1 ≡ lookup (placeholder_of p field is_meta) values
  unfolding where_fields
  keeps is_meta [] texts values r field h d =
      ap (λ r. lookup (placeholder_of p field is_meta) r.1) (sym (ok-injective h))
  keeps is_meta (f ∷ fs) texts values r field h (d, ds) =
      let (c, sql, h1) = first_where is_meta f (map single fs) texts values r h in
      keeps is_meta fs _ _ r field h1 ds
      ∙ lookup-insert_other c.placeholder (placeholder_of p field is_meta) c.value values (λ e. d (
          placeholder_of-injective field f.field is_meta
            (sym e ∙ placeholder-sql_filter p f is_meta c sql)))

  binds :
      (is_meta : Bool) (fs : List (DataFilter Num)) (texts : List Text)
      (values : Dict (SqlValue Num)) (r : List Text × Dict (SqlValue Num))
      → where_fields p is_meta (map single fs) texts values ≡ ok r
      → Distinct fs
      → (conditions : List Text) × (r.0 ≡ texts ++ conditions) × Bound is_meta r.1 fs conditions
  unfolding where_fields
  binds is_meta [] texts values r h d = (
    [],
    sym (ap (λ (r : List Text × Dict (SqlValue Num)). r.0) (ok-injective h))
        ∙ sym (append-nil texts),
    tt,
  )
  binds is_meta (f ∷ fs) texts values r h (d, ds) =
      let (c, sql, h1) = first_where is_meta f (map single fs) texts values r h in
      let s = sql_filter-IsCompared p f is_meta c sql in
      let next = insert c.placeholder c.value values in
      let kept : lookup (placeholder_of p f.field is_meta) r.1 ≡ some c.value =
        keeps is_meta fs (texts ++ c.condition ∷ []) next r f.field h1 d
        ∙ subst (λ (x : Text). lookup x next ≡ some c.value) s.is_placeholder
            (lookup-insert c.placeholder c.value values) in
      let (conditions, made, bound) = binds is_meta fs (texts ++ c.condition ∷ []) next r h1 ds in
      (
        c.condition ∷ conditions,
        made ∙ append_assoc texts (c.condition ∷ []) conditions,
        (
          (
            c.value,
            record {
              symbol = s.symbol;
              is_symbol = s.is_symbol;
              is_value = s.is_value;
              is_text = s.is_text;
            },
            kept,
          ),
          bound,
        ),
      )

  -- Where no field has more than one filter, the WHERE clause that is made is the conditions of the
  -- filters in order, joined by AND: each compares the field of its filter, by the filter's operator, with
  -- a placeholder whose value is the filter's operand. Without filters the clause is empty.
  pub sql_where_clause-Bound :
      (is_meta : Bool) (fs : List (DataFilter Num)) (r : Text × Dict (SqlValue Num))
      → Distinct fs
      → sql_where_clause p (record { filters = map single fs; is_meta_filter = is_meta }) ≡ ok r
      → (conditions : List Text) × (r.0 ≡ clause conditions) × Bound is_meta r.1 fs conditions
  unfolding sql_where_clause
  sql_where_clause-Bound is_meta [] r d h =
      ([], sym (ap (λ (r : Text × Dict (SqlValue Num)). r.0) (ok-injective h)), tt)
  sql_where_clause-Bound is_meta (f ∷ fs) r d h =
      let (parts, made, h1) = >>=-eq-ok (where_fields p is_meta (map single (f ∷ fs)) [] []) _ h in
      let (conditions, texts, bound) = binds is_meta (f ∷ fs) [] [] parts made d in
      let e = ok-injective h1 in
      (
        conditions,
        sym (ap (λ (r : Text × Dict (SqlValue Num)). r.0) e)
            ∙ (ap (λ ts. codes "WHERE " ++ join_and ts) texts
                ∙ clause_lem parts.1 conditions bound),
        subst (λ (r : Text × Dict (SqlValue Num)). Bound is_meta r.1 (f ∷ fs) conditions) e bound,
      )
    where
      clause_lem :
          (values : Dict (SqlValue Num)) (conditions : List Text)
          → Bound is_meta values (f ∷ fs) conditions
          → codes "WHERE " ++ join_and conditions ≡ clause conditions
      clause_lem values [] b = absurd b
      clause_lem values (t ∷ texts) b = ap (λ x. codes "WHERE " ++ x) (join_and-conjunction t texts)

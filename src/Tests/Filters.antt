-- ===== src/Tests/Filters.antt =====
-- Filters over people with a name and an age.
use byoda_python.Base.{
  ℕ, ◌≡◌, refl, true, false, List, [], ◌∷◌, map, none, some, ok, raise, value_error, ltb, leb, ◌==◌,
  if◌then◌else◌, All,
}
use byoda_python.Text.{Text, codes}
use byoda_python.DataFilter.{Platform, text, number, string_filter, DataFilter, compare}
use byoda_python.DataFilter.Sql.{SqlValue, sql_text, sql_number}
use byoda_python.DataFilter.Sets.{
  Dict, lookup, Item, Conditions, DataFilterSet, new_set, filter, filter_exclude, sql_where_clause,
}
use byoda_python.DataFilter.Select.{Reads, Selects, filter-Selects, filter_total}
use byoda_python.DataFilter.Exclude.{Splits, filter_exclude-Splits}
use byoda_python.DataFilter.Where.{Bound, clause, single, sql_where_clause-Bound}
use byoda_python.DataFilter.Divergence.{number_with}

-- Natural numbers for the numbers; no dates are read and no pattern matches.
abbrev platform : Platform
platform = record {
  Num = ℕ;
  num_eq = λ a b. a == b;
  num_lt = ltb;
  num_le = leb;
  round5 = λ n. n;
  of_bool = λ b. if b then 1 else 0;
  local_timestamp = λ n. n;
  parse_date = λ s. raise value_error;
  re_match = λ r s. false;
  re_escape = λ c. c ∷ [];
}

abbrev person : Text → ℕ → Item ℕ
person name age = (codes "name", text name) ∷ (codes "age", number age) ∷ []

abbrev people : List (Item ℕ)
people = person (codes "Ann") 31 ∷ person (codes "Bob") 17 ∷ []

abbrev named_ann : DataFilter ℕ
named_ann = record {
  field = codes "name";
  operator = codes "eq";
  operand = string_filter (codes "Ann");
}

abbrev over_17 : DataFilter ℕ
over_17 = number_with platform (codes "age") (codes "gt") 17

abbrev under_40 : DataFilter ℕ
under_40 = number_with platform (codes "age") (codes "lt") 40

abbrev set_of : Dict (List (DataFilter ℕ)) → DataFilterSet ℕ
set_of fs = record { filters = fs; is_meta_filter = false }

abbrev adults : Dict (List (DataFilter ℕ))
adults = (codes "age", over_17 ∷ under_40 ∷ []) ∷ []

adults-filtered : filter platform (set_of adults) people ≡ ok (person (codes "Ann") 31 ∷ [])
unfolding filter
adults-filtered = refl

filter-Selects_example : Selects platform adults people (person (codes "Ann") 31 ∷ [])
filter-Selects_example =
    filter-Selects platform (set_of adults) people (person (codes "Ann") 31 ∷ []) adults-filtered

people-Reads : All (λ item. Reads platform item adults) people
unfolding compare lookup
people-Reads = (
  (((number 31, true, refl, refl), ((number 31, true, refl, refl), tt)), tt),
  ((((number 17, false, refl, refl), ((number 17, true, refl, refl), tt)), tt), tt),
)

filter_total_example :
    (ys : List (Item ℕ)) × (filter platform (set_of adults) people ≡ ok ys)
    × Selects platform adults people ys
filter_total_example = filter_total platform (set_of adults) people people-Reads

abbrev conditions : Conditions ℕ
conditions = (codes "age", some ((codes "gt", number 17) ∷ [])) ∷ []

people-split :
    filter_exclude platform conditions people
    ≡ ok (person (codes "Bob") 17 ∷ [], person (codes "Ann") 31 ∷ [])
unfolding filter_exclude
people-split = refl

filter_exclude-Splits_example :
    (set : DataFilterSet ℕ) × (new_set platform conditions none false ≡ ok set)
    × Splits platform set.filters people
        (person (codes "Bob") 17 ∷ [])
        (person (codes "Ann") 31 ∷ [])
filter_exclude-Splits_example =
    filter_exclude-Splits platform conditions people (person (codes "Bob") 17 ∷ [])
      (person (codes "Ann") 31 ∷ []) people-split

abbrev bound : Dict (SqlValue ℕ)
bound = (codes "_WHERE_name", sql_text (codes "Ann")) ∷ (codes "_WHERE_age", sql_number 17) ∷ []

where-made :
    sql_where_clause platform (set_of (map (single platform) (named_ann ∷ over_17 ∷ [])))
    ≡ ok (codes "WHERE _name = :_WHERE_name AND _age > :_WHERE_age", bound)
unfolding sql_where_clause
where-made = refl

sql_where_clause-Bound_example :
    (conditions : List Text) × (codes "WHERE _name = :_WHERE_name AND _age > :_WHERE_age"
      ≡ clause conditions)
    × Bound platform false bound (named_ann ∷ over_17 ∷ []) conditions
sql_where_clause-Bound_example =
    sql_where_clause-Bound platform false (named_ann ∷ over_17 ∷ [])
      (codes "WHERE _name = :_WHERE_name AND _age > :_WHERE_age", bound) (((cc), tt), (tt, tt))
      where-made

-- ===== src/DataFilter/Sets.antt =====
-- `DataFilterSet` of byoda/datamodel/datafilter.py: filters by field, the selection of data by them,
-- and the WHERE clause.
use byoda_python.Base.{
  Bool, true, false, ◌&&◌, List, [], ◌∷◌, ◌++◌, Option, none, some, if◌then◌else◌, Result, ok,
  raise, value_error, key_error, ◌>>=◌, or_raise,
}
use byoda_python.Text.{Text, codes, text_eq}
use byoda_python.DataFilter.{Platform, Value, null, DataFilter, PythonType, create, compare}
use byoda_python.DataFilter.Sql.{SqlValue, sql_filter}

-- A `dict` with texts as keys, in the order of insertion.
abbrev pub Dict {ℓ} : Type ℓ → Type ℓ
Dict V = List (Text × V)

module _ {ℓ} {V : Type ℓ} where
  -- `d.get(key)`
  unfoldable pub lookup : Text → Dict V → Option V
  unfolding text_eq
  lookup key [] = none
  lookup key ((k, v) ∷ d) = if text_eq k key then some v else lookup key d

  -- `d[key] = v`
  unfoldable pub insert : Text → V → Dict V → Dict V
  unfolding text_eq
  insert key v [] = (key, v) ∷ []
  insert key v ((k, w) ∷ d) = if text_eq k key then (k, v) ∷ d else (k, w) ∷ insert key v d

-- What a filter set reads of a class of the schema: the fields' types with their operator for
-- equality, and the names of the required fields.
pub record Scalar : Type 0 where
  pub python_type : PythonType
  pub equal_operator : Text

pub record DataClass : Type 0 where
  pub fields : Dict Scalar
  pub required_fields : List Text

pub record DataFilterSet (Num : Type 0) : Type 0 where
  pub filters : Dict (List (DataFilter Num))
  pub is_meta_filter : Bool

-- An item of data, and the conditions that a caller gives: by field, by operator; None for a field
-- is an error, None for an operator is left out.
abbrev pub Item : Type 0 → Type 0
Item Num = Dict (Value Num)

abbrev pub Conditions : Type 0 → Type 0
Conditions Num = Dict (Option (Dict (Value Num)))

abbrev type_of_field : Option DataClass → Text → Option PythonType
type_of_field none field = none
type_of_field (some c) field = elim (lookup field c.fields) [
  | none ↦ none
  | some scalar ↦ some scalar.python_type
]

module _ (p : Platform) where
  open p use {Num}

  -- The loop over the operators of one field.
  unfoldable pub field_filters :
      Option DataClass → Text → Dict (Value Num) → Result (List (DataFilter Num))
  unfolding create lookup
  field_filters data_class field [] = ok []
  field_filters data_class field ((operator, null) ∷ rest) = field_filters data_class field rest
  field_filters data_class field ((operator, value) ∷ rest) = do
    f ← create p field operator value (type_of_field data_class field)
    fs ← field_filters data_class field rest
    ok (f ∷ fs)

  -- The loop over the fields.
  unfoldable pub all_filters :
      Option DataClass → Conditions Num → Result (Dict (List (DataFilter Num)))
  unfolding field_filters
  all_filters data_class [] = ok []
  all_filters data_class ((field, none) ∷ rest) = raise value_error
  all_filters data_class ((field, some conditions) ∷ rest) = do
    fs ← field_filters data_class field conditions
    others ← all_filters data_class rest
    ok ((field, fs) ∷ others)

  -- The constructor of `DataFilterSet`.
  unfoldable pub new_set : Conditions Num → Option DataClass → Bool → Result (DataFilterSet Num)
  unfolding all_filters
  new_set conditions data_class is_meta_filter = do
    filters ← all_filters data_class conditions
    ok (record { filters = filters; is_meta_filter = is_meta_filter })

  -- The loop of `from_data_class_data` over the required fields.
  unfoldable pub required_conditions : DataClass → Item Num → List Text → Result (Conditions Num)
  unfolding lookup
  required_conditions c item [] = ok []
  required_conditions c item (field ∷ rest) = elim (lookup field item) [
    | none ↦ required_conditions c item rest
    | some value ↦ do
      scalar ← or_raise key_error (lookup field c.fields)
      others ← required_conditions c item rest
      ok ((field, some ((scalar.equal_operator, value) ∷ [])) ∷ others)
  ]

  abbrev non_empty : Conditions Num → Result (Conditions Num)
  non_empty [] = raise value_error
  non_empty (c ∷ cs) = ok (c ∷ cs)

  -- `DataFilterSet.from_data_class_data`
  unfoldable pub from_data_class_data : DataClass → Item Num → Result (DataFilterSet Num)
  unfolding required_conditions new_set
  from_data_class_data c item = do
    conditions ← required_conditions c item c.required_fields
    given ← non_empty conditions
    new_set given (some c) false

  -- The inner loop of `filter`: it stops at the first filter that does not match. `item[field]` is
  -- read for each filter, so a missing field is a KeyError only where there is a filter for it.
  unfoldable pub matches_field : Item Num → Text → List (DataFilter Num) → Result Bool
  unfolding lookup compare
  matches_field item field [] = ok true
  matches_field item field (f ∷ fs) = do
    v ← or_raise key_error (lookup field item)
    same ← compare p f v
    (if same then matches_field item field fs else ok false)

  -- The loop over the fields: a field that does not match does not end it.
  unfoldable pub matches : Item Num → Dict (List (DataFilter Num)) → Result Bool
  unfolding matches_field
  matches item [] = ok true
  matches item ((field, fs) ∷ rest) = do
    here ← matches_field item field fs
    later ← matches item rest
    ok (here && later)

  -- `DataFilterSet.filter`
  unfoldable pub filter : DataFilterSet Num → List (Item Num) → Result (List (Item Num))
  unfolding matches
  filter set [] = ok []
  filter set (item ∷ data_items) = do
    keep ← matches item set.filters
    rest ← filter set data_items
    ok (if keep then item ∷ rest else rest)

  -- The loops of `filter_exclude`: the first filter of a field that matches excludes the item.
  unfoldable pub excluded_by_field : Item Num → Text → List (DataFilter Num) → Result Bool
  unfolding lookup compare
  excluded_by_field item field [] = ok false
  excluded_by_field item field (f ∷ fs) = do
    v ← or_raise key_error (lookup field item)
    same ← compare p f v
    (if same then ok true else excluded_by_field item field fs)

  unfoldable pub excluded : Item Num → Dict (List (DataFilter Num)) → Result Bool
  unfolding excluded_by_field
  excluded item [] = ok false
  excluded item ((field, fs) ∷ rest) = do
    here ← excluded_by_field item field fs
    later ← excluded item rest
    ok (if here then true else later)

  -- `DataFilterSet.filter_exclude`: what remains and what is removed.
  unfoldable pub exclude_items :
      DataFilterSet Num → List (Item Num) → Result (List (Item Num) × List (Item Num))
  unfolding excluded
  exclude_items set [] = ok ([], [])
  exclude_items set (item ∷ data_items) = do
    out ← excluded item set.filters
    (remaining, removed) ← exclude_items set data_items
    ok (if out then (remaining, item ∷ removed) else (item ∷ remaining, removed))

  unfoldable pub filter_exclude :
      Conditions Num → List (Item Num) → Result (List (Item Num) × List (Item Num))
  unfolding new_set exclude_items
  filter_exclude conditions data_items = do
    set ← new_set conditions none false
    exclude_items set data_items

  -- The loops of `sql_where_clause`: the conditions in order, and the values by placeholder; a
  -- placeholder that occurs again takes the new value.
  unfoldable pub where_field :
      Bool
      → List (DataFilter Num)
      → List Text
      → Dict (SqlValue Num)
      → Result (List Text × Dict (SqlValue Num))
  unfolding sql_filter insert
  where_field is_meta [] texts values = ok (texts, values)
  where_field is_meta (f ∷ fs) texts values = do
    c ← sql_filter p f true is_meta
    where_field is_meta fs (texts ++ c.condition ∷ []) (insert c.placeholder c.value values)

  unfoldable pub where_fields :
      Bool
      → Dict (List (DataFilter Num))
      → List Text
      → Dict (SqlValue Num)
      → Result (List Text × Dict (SqlValue Num))
  unfolding where_field
  where_fields is_meta [] texts values = ok (texts, values)
  where_fields is_meta ((field, fs) ∷ rest) texts values = do
    (texts', values') ← where_field is_meta fs texts values
    where_fields is_meta rest texts' values'

-- `' AND '.join(texts)`
unfoldable pub join_and : List Text → Text
join_and [] = []
join_and (t ∷ []) = t
join_and (t ∷ u ∷ ts) = t ++ (codes " AND " ++ join_and (u ∷ ts))

module _ (p : Platform) where
  open p use {Num}

  abbrev where_text : List Text × Dict (SqlValue Num) → Text × Dict (SqlValue Num)
  where_text (texts, values) = (codes "WHERE " ++ join_and texts, values)

  -- `DataFilterSet.sql_where_clause`
  unfoldable pub sql_where_clause : DataFilterSet Num → Result (Text × Dict (SqlValue Num))
  unfolding where_fields join_and
  sql_where_clause set = elim set.filters [
    | [] ↦ ok ([], [])
    | f ∷ fs ↦ do r ← where_fields p set.is_meta_filter (f ∷ fs) [] []; ok (where_text r)
  ]

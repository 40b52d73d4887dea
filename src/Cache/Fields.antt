-- ===== src/Cache/Fields.antt =====
-- The counters of byoda/datamodel/memberdata.py: one for a class, and one for each combination of
-- values of its fields that are counters.
use byoda_python.Base.{
  ℕ, suc, zero, Bool, true, false, ◌&&◌, List, [], ◌∷◌, ◌++◌, map, any, length, Option, none, some,
  Result, ok, ◌>>=◌, if◌then◌else◌,
}
use byoda_python.Text.{Text, text_eq, rstrip}
use byoda_python.Text.Number.{ℤ}
use byoda_python.Cache.{Orjson, SqlTable}
use byoda_python.Cache.Counter.{CounterFilter, specifier, add_specifiers, update}

-- A field of the class that a class of an array refers to.
pub record Field : Type 0 where
  pub name : Text
  pub is_counter : Bool

-- A value of the data: `str(value)`, and whether it is true.
pub record Value : Type 0 where
  pub text : Text
  pub is_true : Bool

abbrev pub Data : Type 0
Data = List (Text × Value)

unfoldable pub lookup : Text → Data → Option Value
lookup name [] = none
lookup name ((key, v) ∷ values) =
    let rest = lookup name values in if text_eq name key then some v else rest

abbrev has_value : Option Value → Bool
has_value none = false
has_value (some v) = v.is_true

-- `field.is_counter and (not data or data.get(field.name))`
abbrev pub counts : Data → Field → Bool
counts [] field = field.is_counter
counts (entry ∷ values) field = field.is_counter && has_value (lookup field.name (entry ∷ values))

unfoldable pub counter_fields : Data → List Field → List Text
counter_fields values [] = []
counter_fields values (field ∷ fields) =
    let rest = counter_fields values fields in
    if counts values field then field.name ∷ rest else rest

-- `itertools.combinations(fields, n)`
unfoldable pub combinations : ℕ → List Text → List (List Text)
combinations zero fields = [] ∷ []
combinations (suc n) [] = []
combinations (suc n) (field ∷ fields) =
    map (◌∷◌ field) (combinations n fields) ++ combinations (suc n) fields

-- The combinations of 1 up to `n` fields, the longest first.
unfoldable pub combinations_to : ℕ → List Text → List (List Text)
unfolding combinations
combinations_to zero fields = []
combinations_to (suc n) fields = combinations (suc n) fields ++ combinations_to n fields

abbrev pub add_specifier : Text → Option Value → List Text → List Text
add_specifier field none rest = rest
add_specifier field (some v) rest = specifier (field, v.text) ∷ rest

-- The specifiers of the fields that have a value.
unfoldable pub specifiers : Data → List Text → List Text
unfolding lookup
specifiers values [] = []
specifiers values (field ∷ combo) =
    add_specifier field (lookup field values) (specifiers values combo)

unfoldable pub key_of : Text → Data → List Text → Text
unfolding specifiers
key_of class_name values combo = rstrip b'-' (add_specifiers class_name (specifiers values combo))

-- `keys.add(key)`
abbrev pub add_key : Text → List Text → List Text
add_key key keys = if any (text_eq key) keys then keys else key ∷ keys

unfoldable pub add_keys : Text → Data → List (List Text) → List Text → List Text
unfolding key_of
add_keys class_name values [] keys = keys
add_keys class_name values (combo ∷ combos) keys =
    add_keys class_name values combos (add_key (key_of class_name values combo) keys)

-- `_get_counter_key_permutations`: a set, as a list without repetitions. There are no fields without
-- a class that is referred to.
unfoldable pub get_counter_key_permutations : Text → List Field → Data → List Text
unfolding counter_fields combinations_to add_keys
get_counter_key_permutations class_name fields values =
    let names = counter_fields values fields in
    add_key class_name (add_keys class_name values (combinations_to (length names) names) [])

module _ {S V : Type 0} (sqlite : SqlTable S) (orjson : Orjson V) where
  -- Every key is updated with no filter, so that a counter that is not in the cache gets the number of
  -- all rows.
  unfoldable pub update_keys : ℕ → ℕ → S → ℤ → (CounterFilter → ℕ) → List Text → Result S
  unfolding update
  update_keys now later s delta count [] = ok s
  update_keys now later s delta count (key ∷ keys) = do
    (next, n) ← update sqlite orjson true true true now later s key delta count []
    update_keys now later next delta count keys

-- ===== src/Cache/Updated.antt =====
-- The counters that an append and a delete update, and those that are read.
use byoda_python.Base.{
  ℕ, ◌≡◌, ◌≢◌, refl, subst, ap, ◌∙◌, sym, ◌⊎◌, inl, inr, true, false, List, [], ◌∷◌, ◌++◌, map, any,
  Any, length, Option, none, some, arith, ◌<◌, Bool-cases, Option-cases,
}
use byoda_python.Text.{Text, text_eq, rstrip}
use byoda_python.Text.Laws.{text_eq→≡, text_eq_refl}
use byoda_python.Cache.Counter.{
  CounterFilter, specifier, add_specifiers, get_key_name, sorted_texts, insert_text, text_leb,
}
use byoda_python.Cache.Names.{IsSorted, sorted_texts_of_IsSorted}
use byoda_python.Cache.Fields.{
  Field, Value, Data, lookup, specifiers, key_of, add_key, add_keys, counter_fields,
  combinations_to, get_counter_key_permutations,
}

-- The keys of `delete_data`. Its filter data are read from Python's `filter`, which has no
-- attribute with a value to compare with, so there are none.
unfoldable pub delete_keys : Text → List Field → List Text
unfolding get_counter_key_permutations
delete_keys class_name fields = get_counter_key_permutations class_name fields []

specifiers_of_nil : (combo : List Text) → specifiers [] combo ≡ []
unfolding specifiers lookup
specifiers_of_nil [] = refl
specifiers_of_nil (field ∷ combo) = specifiers_of_nil combo

one_key :
    (class_name : Text) (combos : List (List Text)) (keys : List Text)
    → rstrip b'-' class_name ≡ class_name
    → (keys ≡ []) ⊎ (keys ≡ class_name ∷ [])
    → (add_keys class_name [] combos keys ≡ [])
      ⊎ (add_keys class_name [] combos keys ≡ class_name ∷ [])
unfolding add_keys key_of add_specifiers
one_key class_name [] keys h k = k
one_key class_name (combo ∷ combos) keys h (inl e) =
    one_key class_name combos (add_key (key_of class_name [] combo) keys) h
      (inr (rw (e, specifiers_of_nil combo, h) refl))
one_key class_name (combo ∷ combos) keys h (inr e) =
    one_key class_name combos (add_key (key_of class_name [] combo) keys) h
      (inr (rw (e, specifiers_of_nil combo, h, text_eq_refl class_name) refl))

-- A delete updates the counter of its class and no other, whatever fields of the class are counters and
-- whatever its filter: for a class with a name that does not end with a dash.
pub delete_keys_lem :
    (class_name : Text) (fields : List Field)
    → rstrip b'-' class_name ≡ class_name
    → delete_keys class_name fields ≡ class_name ∷ []
unfolding delete_keys get_counter_key_permutations
delete_keys_lem class_name fields h =
    elim (one_key class_name
      (combinations_to (length (counter_fields [] fields)) (counter_fields [] fields)) [] h
      (inl refl)) [ inl e ↦ rw e refl | inr e ↦ rw (e, text_eq_refl class_name) refl ]

-- The filter on the fields of a combination, with the values of the data.
abbrev pub add_field : Text → Option Value → CounterFilter → CounterFilter
add_field field none rest = rest
add_field field (some v) rest = (field, v.text) ∷ rest

unfoldable pub filter_of : Data → List Text → CounterFilter
filter_of values [] = []
filter_of values (field ∷ combo) = add_field field (lookup field values) (filter_of values combo)

specifiers-filter_of :
    (values : Data) (combo : List Text)
    → specifiers values combo ≡ map specifier (filter_of values combo)
unfolding specifiers filter_of
specifiers-filter_of values [] = refl
specifiers-filter_of values (field ∷ combo) = elim (Option-cases (lookup field values)) [
  | inl e ↦ rw e (specifiers-filter_of values combo)
  | inr (v, e) ↦ rw e (ap (◌∷◌ (specifier (field, v.text))) (specifiers-filter_of values combo))
]

add_key-Any :
    (key other : Text) (keys : List Text)
    → Any (λ k. k ≡ other) keys
    → Any (λ k. k ≡ other) (add_key key keys)
add_key-Any key other keys h = elim (Bool-cases (any (text_eq key) keys)) [
  | inl e ↦ rw e h
  | inr e ↦ rw e (inr h)
]

any-Any : (key : Text) (keys : List Text) → any (text_eq key) keys ≡ true → Any (λ k. k ≡ key) keys
any-Any key [] h = absurd (cc)
any-Any key (k ∷ keys) h = elim (Bool-cases (text_eq key k)) [
  | inl e ↦ inl (sym (text_eq→≡ key k e))
  | inr e ↦ inr (any-Any key keys (ground arith))
]

add_key-has : (key : Text) (keys : List Text) → Any (λ k. k ≡ key) (add_key key keys)
add_key-has key keys = elim (Bool-cases (any (text_eq key) keys)) [
  | inl e ↦ rw e (any-Any key keys e)
  | inr e ↦ rw e (inl refl)
]

add_keys-Any :
    (class_name : Text) (values : Data) (combos : List (List Text)) (keys : List Text) (key : Text)
    → Any (λ k. k ≡ key) keys
    → Any (λ k. k ≡ key) (add_keys class_name values combos keys)
unfolding add_keys
add_keys-Any class_name values [] keys key h = h
add_keys-Any class_name values (combo ∷ combos) keys key h =
    add_keys-Any class_name values combos (add_key (key_of class_name values combo) keys) key
      (add_key-Any (key_of class_name values combo) key keys h)

add_keys-has :
    (class_name : Text) (values : Data) (combos : List (List Text)) (keys : List Text)
    (combo : List Text)
    → Any (λ c. c ≡ combo) combos
    → Any (λ k. k ≡ key_of class_name values combo) (add_keys class_name values combos keys)
unfolding add_keys
add_keys-has class_name values [] keys combo h = absurd h
add_keys-has class_name values (c ∷ combos) keys combo (inl e) =
    add_keys-Any class_name values combos (add_key (key_of class_name values c) keys)
      (key_of class_name values combo) (rw e (add_key-has (key_of class_name values combo) keys))
add_keys-has class_name values (c ∷ combos) keys combo (inr h) =
    add_keys-has class_name values combos (add_key (key_of class_name values c) keys) combo h

-- Of the counters that an append updates, one is read by a filter on any combination of the counter
-- fields that have values: if the specifiers are in order as the class has its fields, and the last
-- value does not end with a dash.
pub append-updates :
    (class_name : Text) (fields : List Field) (values : Data) (combo : List Text)
    → let names = counter_fields values fields in
      Any (λ c. c ≡ combo) (combinations_to (length names) names)
      → IsSorted (specifiers values combo)
      → rstrip b'-' (get_key_name class_name (filter_of values combo))
        ≡ get_key_name class_name (filter_of values combo)
      → Any
          (λ key. key ≡ get_key_name class_name (filter_of values combo))
          (get_counter_key_permutations class_name fields values)
unfolding get_counter_key_permutations key_of get_key_name
append-updates class_name fields values combo h sorted stripped =
    let names = counter_fields values fields in
    let same : key_of class_name values combo ≡ get_key_name class_name (filter_of values combo) =
      ap (rstrip b'-') (
        ap (add_specifiers class_name) (
          sym (sorted_texts_of_IsSorted (specifiers values combo) sorted)
          ∙ ap sorted_texts (specifiers-filter_of values combo)))
      ∙ stripped in
    add_key-Any class_name (get_key_name class_name (filter_of values combo))
      (add_keys class_name values (combinations_to (length names) names) [])
      (subst
        (λ key.
          Any (λ k. k ≡ key) (add_keys class_name values (combinations_to (length names) names) []))
        same (add_keys-has class_name values (combinations_to (length names) names) [] combo h))

after_prefix :
    (s : Text) (c d : ℕ) (x y z w : Text)
    → (s ++ (b'_' ∷ c ∷ x)) ++ y ≡ (s ++ (b'_' ∷ d ∷ z)) ++ w
    → c ≡ d
after_prefix [] c d x y z w e = cc
after_prefix (a ∷ s) c d x y z w e = after_prefix s c d x y z w (cc)

-- The order of the fields in the class counts: for two counter fields whose names begin with letters in
-- descending order, the counter that an append updates for both values is not the one that
-- a filter on both reads.
pub key_of-ne-get_key_name :
    (class_name : Text) (values : Data) (c d : ℕ) (f g : Text) (v w : Value)
    → d < c
    → lookup (c ∷ f) values ≡ some v
    → lookup (d ∷ g) values ≡ some w
    → rstrip b'-'
        (class_name ++ (b'_' ∷ specifier (c ∷ f, v.text)) ++ (b'_' ∷ specifier (d ∷ g, w.text)))
      ≡ class_name ++ (b'_' ∷ specifier (c ∷ f, v.text)) ++ (b'_' ∷ specifier (d ∷ g, w.text))
    → key_of class_name values ((c ∷ f) ∷ (d ∷ g) ∷ [])
      ≢ get_key_name class_name (filter_of values ((c ∷ f) ∷ (d ∷ g) ∷ []))
unfolding key_of get_key_name specifiers filter_of add_specifiers sorted_texts insert_text text_leb
key_of-ne-get_key_name class_name values c d f g v w h ev ew stripped =
    let first = specifier (c ∷ f, v.text) in
    let second = specifier (d ∷ g, w.text) in
    let order : text_leb first second ≡ false = ground arith in
    rw (ev, ew, order)
      (λ e.
        let same : c ≡ d =
          after_prefix class_name c d (f ++ (b'=' ∷ v.text)) (b'_' ∷ second) (g ++ (b'=' ∷ w.text))
            (b'_' ∷ first) (sym stripped ∙ e) in
        omega (arith, same))

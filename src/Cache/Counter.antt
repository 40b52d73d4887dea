-- ===== src/Cache/Counter.antt =====
-- `CounterCache` of byoda/datacache/counter_cache.py, and the keys of the counters that
-- byoda/datamodel/memberdata.py updates.
use byoda_python.Base.{
  ℕ, Bool, true, false, ◌&&◌, ◌||◌, List, [], ◌∷◌, ◌++◌, map, Option, none, some, Result, ok, ◌>>=◌,
  ltb, ◌==◌, if◌then◌else◌,
}
use byoda_python.Text.{Text}
use byoda_python.Text.Number.{ℤ, pos}
use byoda_python.Cache.{Orjson, SqlTable}
use byoda_python.Cache.Sqlite
use byoda_python.Cache.Query.{default_expiration}

-- `s <= t` on texts.
unfoldable pub text_leb : Text → Text → Bool
text_leb [] t = true
text_leb (c ∷ s) [] = false
text_leb (c ∷ s) (d ∷ t) = ltb c d || c == d && text_leb s t

unfoldable pub insert_text : Text → List Text → List Text
insert_text s [] = s ∷ []
insert_text s (t ∷ texts) =
    let later = insert_text s texts in if text_leb s t then s ∷ t ∷ texts else t ∷ later

-- `sorted(texts)`
unfoldable pub sorted_texts : List Text → List Text
unfolding insert_text
sorted_texts [] = []
sorted_texts (s ∷ texts) = insert_text s (sorted_texts texts)

-- A filter: the names of fields with the texts of their values.
abbrev pub CounterFilter : Type 0
CounterFilter = List (Text × Text)

-- `f'{field_name}={str(value)}'`
abbrev pub specifier : Text × Text → Text
specifier (field_name, value) = field_name ++ (b'=' ∷ value)

-- `key += f'_{specifier}'`
unfoldable pub add_specifiers : Text → List Text → Text
add_specifiers key [] = key
add_specifiers key (s ∷ specifiers) = add_specifiers (key ++ (b'_' ∷ s)) specifiers

-- `CounterCache.get_key_name`
unfoldable pub get_key_name : Text → CounterFilter → Text
unfolding add_specifiers sorted_texts
get_key_name class_name counter_filter =
    add_specifiers class_name (sorted_texts (map specifier counter_filter))

abbrev pub counted : Option (CounterFilter → ℕ) → CounterFilter → Option ℕ
counted none counter_filter = none
counted (some count) counter_filter = some (count counter_filter)

module _ {S V : Type 0} (sqlite : SqlTable S) (orjson : Orjson V) where
  -- The count of the table is written for a counter that the cache does not have.
  unfoldable pub recount : Bool → ℕ → S → Text → ℕ → Result (S × ℕ)
  unfolding Sqlite.set
  recount writes now s key count = do
    (next, is_set) ←
        Sqlite.set sqlite orjson writes now s key (some (orjson.integer (pos count)))
          default_expiration
    ok (next, count)

  abbrev pub or_recount : (S → Result (S × ℕ)) → S × Option ℕ → Result (S × ℕ)
  or_recount count (s, some n) = ok (s, n)
  or_recount count (s, none) = count s

  -- `CounterCache.update`: `count` is `table.count`, and `later` the time of its last statement.
  unfoldable pub update :
      Bool
      → Bool
      → Bool
      → ℕ
      → ℕ
      → S
      → Text
      → ℤ
      → (CounterFilter → ℕ)
      → CounterFilter
      → Result (S × ℕ)
  unfolding Sqlite.incr recount
  update reads writes sets now later s key delta count counter_filter =
      Sqlite.incr sqlite orjson reads writes now s key delta default_expiration
      >>= or_recount (λ next. recount sets later next key (count counter_filter))

  abbrev pub read_or_count : S → Option V → Option ℕ → (ℕ → Result (S × ℕ)) → Result (S × Option V)
  read_or_count s (some counter) table write = ok (s, some counter)
  read_or_count s none none write = ok (s, none)
  read_or_count s none (some count) write = do
    (next, n) ← write count
    ok (next, some (orjson.integer (pos n)))

  -- `CounterCache.get`: `table` counts, if there is one.
  unfoldable pub get :
      Bool
      → Bool
      → ℕ
      → S
      → Text
      → CounterFilter
      → Option (CounterFilter → ℕ)
      → Result (S × Option V)
  unfolding Sqlite.get recount get_key_name
  get reads sets now s class_name counter_filter table = do
    counter ← Sqlite.get sqlite orjson reads s (get_key_name class_name counter_filter)
    read_or_count s counter (counted table counter_filter)
        (recount sets now s (get_key_name class_name counter_filter))

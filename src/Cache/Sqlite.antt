-- ===== src/Cache/Sqlite.antt =====
-- `KVSqlite` of byoda/datacache/kv_sqlite.py. `runs` tells if SQLite carries a statement out, or
-- refuses it with an OperationalError; a call that raises leaves the table as it was.
use byoda_python.Base.{
  ℕ, ◌+◌, Bool, true, false, List, [], ◌∷◌, Option, none, some, Result, ok, raise, value_error,
  operational_error, ◌>>=◌, ◌>>◌, require, ltb, if◌then◌else◌,
}
use byoda_python.Text.{Text}
use byoda_python.Text.Number.{ℤ, pos, neg, negsuc}
use byoda_python.Cache.{Orjson, SqlTable, Row, max_zero, ◌+ℤ◌}

abbrev pub negate : ℤ → ℤ
negate (pos n) = neg n
negate (negsuc n) = pos (n + 1)

abbrev pub some_row : List Row → Bool
some_row [] = false
some_row (r ∷ rows) = true

abbrev pub inserted : {S : Type 0} → S → Option S → S × Bool
inserted s none = (s, false)
inserted s (some next) = (next, true)

module _ {S : Type 0} (sqlite : SqlTable S) where
  unfoldable pub exists : Bool → S → Text → Option Bool
  exists runs s key = if runs then some (some_row (sqlite.select s key)) else none

  unfoldable pub delete : Bool → S → Text → S × Bool
  delete runs s key =
      if runs then ((sqlite.delete s key).0, ltb 0 (sqlite.delete s key).1) else (s, false)

  -- `False`, for a refused statement, is 0.
  unfoldable pub purge : Bool → ℕ → S → S × ℕ
  purge runs now s = if runs then sqlite.delete_before s now else (s, 0)

module _ {S V : Type 0} (sqlite : SqlTable S) (orjson : Orjson V) where
  -- The rows that a key selects.
  abbrev pub value_of : List Row → Result (Option V)
  value_of [] = ok none
  value_of (r ∷ []) = orjson.loads r.content
  value_of (r ∷ q ∷ rows) = raise value_error

  unfoldable pub get : Bool → S → Text → Result (Option V)
  get runs s key = if runs then value_of (sqlite.select s key) else ok none

  unfoldable pub set : Bool → ℕ → S → Text → Option V → ℕ → Result (S × Bool)
  set runs now s key value expiration = do
    content ← orjson.dumps value
    require runs operational_error
    ok (
        inserted s
          (sqlite.insert s (record { key = key; content = content; expires = now + expiration })))

  -- What `incr` makes of the value that it has read.
  abbrev pub add_to : (ℕ → Text → Result S) → ℤ → S → Option V → Result (S × Option ℕ)
  add_to update value s none = ok (s, none)
  add_to update value s (some current) = do
    n ← orjson.to_int current
    content ← orjson.dumps (some (orjson.integer (pos (max_zero (n +ℤ value)))))
    next ← update (max_zero (n +ℤ value)) content
    ok (next, some (max_zero (n +ℤ value)))

  -- The flags are those of the SELECT and of the UPDATE.
  unfoldable pub incr : Bool → Bool → ℕ → S → Text → ℤ → ℕ → Result (S × Option ℕ)
  unfolding get
  incr reads writes now s key value expiration = do
    current ← get reads s key
    add_to
        (λ n content.
          require writes operational_error >> ok (sqlite.update s key content (now + expiration)))
        value s current

  -- The UPDATE of `decr` has no space before its WHERE, which SQLite refuses as a syntax error.
  unfoldable pub decr : Bool → ℕ → S → Text → ℤ → ℕ → Result (S × Option ℕ)
  unfolding get
  decr reads now s key value expiration = do
    current ← get reads s key
    add_to (λ n content. raise operational_error) (negate value) s current

-- ===== src/Cache.antt =====
-- Caches of a key and a value: byoda/datacache/. The values are those that `orjson` writes, and the
-- SQLite table is reached by its statements; both are parameters.
pub mod Sqlite
pub mod Spec
pub mod Refines
pub mod Query
pub mod Once
pub mod Counter
pub mod Counting
pub mod Names
pub mod Fields
pub mod Updated
pub mod Redis
pub mod Persist
pub mod Forgets
use byoda_python.Base.{
  ℕ, ◌+◌, ◌-◌, ◌<◌, ◌≤◌, ◌^◌, ◌≡◌, Bool, not, List, [], ◌∷◌, map, Option, none, some, length,
  Result, ok, ltb, if◌then◌else◌,
}
use byoda_python.Text.{Text, text_eq}
use byoda_python.Text.Number.{ℤ, pos, negsuc}

-- `max(0, current + value)`
abbrev pub max_zero : ℤ → ℕ
max_zero (pos n) = n
max_zero (negsuc n) = 0

infixl 20 ◌+ℤ◌
abbrev pub ◌+ℤ◌ : ℤ → ℤ → ℤ
pos a +ℤ pos b = pos (a + b)
pos a +ℤ negsuc b = if ltb b a then pos (a - (b + 1)) else negsuc (b - a)
negsuc a +ℤ pos b = if ltb a b then pos (b - (a + 1)) else negsuc (a - b)
negsuc a +ℤ negsuc b = negsuc (a + b + 1)

-- Python values other than `None`, which is `none` of an option, as `orjson` writes and reads them;
-- `to_int` is `int(value)`.
pub record Orjson (V : Type 0) : Type 0 where
  pub dumps : Option V → Result Text
  pub loads : Text → Result (Option V)
  pub integer : ℤ → V
  pub to_int : V → Result ℤ
  pub loads-dumps : (v : Option V) (s : Text) → dumps v ≡ ok s → loads s ≡ ok v
  pub to_int-integer : (n : ℤ) → to_int (integer n) ≡ ok n
  pub dumps-integer : (n : ℕ) → n < 2 ^ 63 → (s : Text) × (dumps (some (integer (pos n))) ≡ ok s)

-- A row of the table: `data` is `content`.
pub record Row : Type 0 where
  pub key : Text
  pub content : Text
  pub expires : ℕ

abbrev pub keep : (Row → Bool) → List Row → List Row
keep p [] = []
keep p (r ∷ rows) = if p r then r ∷ keep p rows else keep p rows

abbrev pub is_current : ℕ → Row → Bool
is_current now r = not (ltb r.expires now)

-- A table with a primary key: the five statements that the code sends, with what each leaves to
-- be selected. `insert` gives none for an IntegrityError; `delete` and `delete_before` count the rows.
pub record SqlTable (S : Type 0) : Type 0 where
  pub select : S → Text → List Row
  pub insert : S → Row → Option S
  pub update : S → Text → Text → ℕ → S
  pub delete : S → Text → S × ℕ
  pub delete_before : S → ℕ → S × ℕ
  pub select-unique : (s : S) (k : Text) → length (select s k) ≤ 1
  pub insert-taken :
      (s : S) (r x : Row) (rows : List Row) → select s r.key ≡ x ∷ rows → insert s r ≡ none
  pub insert-free :
      (s : S) (r : Row)
      → select s r.key ≡ []
      → (s' : S) × (insert s r ≡ some s')
        × ((k : Text) → select s' k ≡ (if text_eq k r.key then r ∷ [] else select s k))
  pub select-update :
      (s : S) (key content : Text) (expires : ℕ) (k : Text)
      → select (update s key content expires) k ≡ (
          if text_eq k key
          then map (λ r. record { key = r.key; content = content; expires = expires }) (select s k)
          else select s k)
  pub select-delete :
      (s : S) (key k : Text)
      → select (delete s key).0 k ≡ (if text_eq k key then [] else select s k)
  pub delete-count : (s : S) (key : Text) → (delete s key).1 ≡ length (select s key)
  pub select-delete_before :
      (s : S) (now : ℕ) (k : Text)
      → select (delete_before s now).0 k ≡ keep (is_current now) (select s k)

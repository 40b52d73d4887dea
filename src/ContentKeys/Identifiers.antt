-- ===== src/ContentKeys/Identifiers.antt =====
-- The identifiers of the keys in a table.
use byoda_python.Base.{
  ℕ, ◌<◌, ◌≤◌, ◌≡◌, ◌≢◌, refl, List, [], ◌∷◌, ◌++◌, Option, none, some, ok, All, All-imp, map,
  arith,
}
use byoda_python.Text.{Text}
use byoda_python.ContentKeys.{
  KeyData, ContentKey, from_dict, as_dict, filtered_keys, get_content_keys, highest_id, create_key,
  persist,
}
use byoda_python.ContentKeys.Sorting.{All-sorted_keys}

-- No key of the table has the identifier of another.
abbrev pub Distinct : List ℕ → Type 0
Distinct [] = Unit
Distinct (n ∷ ns) = All (λ m. m ≢ n) ns × Distinct ns

abbrev pub ids_of : List KeyData → List ℕ
ids_of rows = map (λ (row : KeyData). row.key_id) rows

-- Every key has at most the highest identifier.
highest_id-All :
    (keys : List ContentKey) (n : ℕ)
    → highest_id keys ≤ n
    → All (λ (k : ContentKey). k.key_id ≤ n) keys
unfolding highest_id
highest_id-All [] n h = tt
highest_id-All (k ∷ keys) n h = (ground arith, highest_id-All keys n (ground arith))

All-unfiltered :
    (now : ℕ) (P : ContentKey → Type 0) (rows : List KeyData)
    → All P (filtered_keys now none rows)
    → All (λ row. P (from_dict now row)) rows
unfolding filtered_keys
All-unfiltered now P [] h = tt
All-unfiltered now P (row ∷ rows) h = (h.0, All-unfiltered now P rows h.1)

rows_below :
    (now : ℕ) (rows : List KeyData)
    → All (λ (row : KeyData). row.key_id ≤ highest_id (get_content_keys now none rows)) rows
unfolding get_content_keys from_dict
rows_below now rows =
    let P : ContentKey → Type 0 = λ k. k.key_id ≤ highest_id (get_content_keys now none rows) in
    All-unfiltered now P rows (
      All-sorted_keys P (filtered_keys now none rows)
        (highest_id-All (get_content_keys now none rows) _ (omega arith)))

Distinct-append :
    (rows : List KeyData) (row : KeyData)
    → All (λ (other : KeyData). other.key_id < row.key_id) rows
    → Distinct (ids_of rows)
    → Distinct (ids_of (rows ++ row ∷ []))
Distinct-append [] row h d = (tt, tt)
Distinct-append (other ∷ rows) row h d =
    (others_differ other rows row h.0 d.0, Distinct-append rows row h.1 d.1)
  where
    others_differ :
        (other : KeyData) (rows : List KeyData) (row : KeyData)
        → other.key_id < row.key_id
        → All (λ m. m ≢ other.key_id) (ids_of rows)
        → All (λ m. m ≢ other.key_id) (ids_of (rows ++ row ∷ []))
    others_differ other [] row h d = ((λ e. omega (arith, e, h)), tt)
    others_differ other (first ∷ rows) row h d = (d.0, others_differ other rows row h d.1)

-- A key can always be created for a table without an identifier, and it gets one that no key in the table
-- has: the identifiers in the table stay distinct when the key is stored.
pub create_key-Distinct :
    (now : ℕ) (key : Text) (not_before not_after : Option ℕ) (rows : List KeyData)
    → Distinct (ids_of rows)
    → (k : ContentKey) × (create_key now key none not_before not_after (some rows) ≡ ok k)
      × Distinct (ids_of (persist rows k))
unfolding create_key persist as_dict from_dict
create_key-Distinct now key not_before not_after rows d = (
  _,
  refl,
  Distinct-append rows _
      (All-imp (λ (row : KeyData) below. omega (arith, below)) rows (rows_below now rows)) d,
)

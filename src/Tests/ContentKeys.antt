-- ===== src/Tests/ContentKeys.antt =====
-- A table with two active keys, one that has ended and one that is yet to start.
use byoda_python.Base.{arith, ℕ, ◌≡◌, refl, List, [], ◌∷◌, none, some, ok}
use byoda_python.Text.{codes}
use byoda_python.ContentKeys.{
  ContentKeyStatus, KeyData, ContentKey, get_active_content_key, create_key, persist,
}
use byoda_python.ContentKeys.Active.{IsAnswer, get_active_content_key-IsAnswer}
use byoda_python.ContentKeys.Tokens.{hashed_text-injective}
use byoda_python.ContentKeys.Identifiers.{Distinct, ids_of, create_key-Distinct}

abbrev row : ℕ → ℕ → ℕ → KeyData
row key_id not_before not_after = record {
  key = codes "k";
  key_id = key_id;
  not_before = not_before;
  not_after = not_after;
}

abbrev rows : List KeyData
rows = row 4 400 900 ∷ row 1 100 200 ∷ row 2 200 900 ∷ row 3 700 900 ∷ []

older-found :
    get_active_content_key 500 rows
    ≡ some (record {
      key = codes "k";
      key_id = 2;
      not_before = 200;
      not_after = 900;
      status = ContentKeyStatus.active;
    })
unfolding get_active_content_key
older-found = refl

get_active_content_key-IsAnswer_example : IsAnswer 500 rows (get_active_content_key 500 rows)
get_active_content_key-IsAnswer_example = get_active_content_key-IsAnswer 500 rows

abbrev made : ContentKey
made = record {
  key = codes "n";
  key_id = 5;
  not_before = 600;
  not_after = 800;
  status = ContentKeyStatus.inactive;
}

is_made : create_key 500 (codes "n") none (some 600) (some 800) (some rows) ≡ ok made
unfolding create_key
is_made = refl

rows-Distinct : Distinct (ids_of rows)
rows-Distinct =
    ((λ e. cc, (λ e. cc, (λ e. cc, tt))), ((λ e. cc, (λ e. cc, tt)), ((λ e. cc, tt), (tt, tt))))

create_key-Distinct_example :
    (k : ContentKey) × (create_key 500 (codes "n") none (some 600) (some 800) (some rows) ≡ ok k)
    × Distinct (ids_of (persist rows k))
create_key-Distinct_example =
    create_key-Distinct 500 (codes "n") (some 600) (some 800) rows rows-Distinct

abbrev service_id : ℕ
service_id = 12

abbrev asset_id : ℕ
asset_id = 9

hashed_text-injective_example :
    (service_id ≡ service_id)
    × (made.key_id ≡ made.key_id)
    × (asset_id ≡ asset_id)
    × (made.key ≡ made.key)
hashed_text-injective_example =
    hashed_text-injective made.key made.key service_id service_id made.key_id made.key_id asset_id
      asset_id (omega arith) (omega arith) (omega arith) (omega arith) refl

-- ===== src/ContentKeys.antt =====
-- Keys for restricted content: byoda/datamodel/content_key.py. A table is the list of its rows, and a
-- date with its time the number of seconds; a call reads the clock once.
pub mod Sorting
pub mod Active
pub mod Identifiers
pub mod Tokens
use byoda_python.Base.{
  ℕ, ◌+◌, ◌*◌, Bool, true, false, not, List, [], ◌∷◌, ◌++◌, Option, none, some, ltb, if◌then◌else◌,
  Result, ok, raise, value_error, ◌>>=◌,
}
use byoda_python.Text.{Text}

pub data ContentKeyStatus : Type 0 where
  inactive active expired : ContentKeyStatus

-- The fields of a key that are stored.
pub record KeyData : Type 0 where
  pub key : Text
  pub key_id : ℕ
  pub not_before : ℕ
  pub not_after : ℕ

pub record ContentKey : Type 0 where
  pub key : Text
  pub key_id : ℕ
  pub not_before : ℕ
  pub not_after : ℕ
  pub status : ContentKeyStatus

-- The two tests of the constructor in their order: the second decides.
unfoldable pub status_at : ℕ → ℕ → ℕ → ContentKeyStatus
status_at now not_before not_after =
    let started =
      if ltb now not_before then ContentKeyStatus.inactive else ContentKeyStatus.active in
    if ltb now not_after then started else ContentKeyStatus.expired

-- `ContentKey.from_dict` and the constructor.
unfoldable pub from_dict : ℕ → KeyData → ContentKey
unfolding status_at
from_dict now row = record {
  key = row.key;
  key_id = row.key_id;
  not_before = row.not_before;
  not_after = row.not_after;
  status = status_at now row.not_before row.not_after;
}

unfoldable pub as_dict : ContentKey → KeyData
as_dict k = record {
  key = k.key;
  key_id = k.key_id;
  not_before = k.not_before;
  not_after = k.not_after;
}

abbrev pub same_status : ContentKeyStatus → ContentKeyStatus → Bool
same_status ContentKeyStatus.inactive ContentKeyStatus.inactive = true
same_status ContentKeyStatus.active ContentKeyStatus.active = true
same_status ContentKeyStatus.expired ContentKeyStatus.expired = true
same_status _ _ = false

-- `__lt__` for two keys of different statuses.
abbrev pub status_lt : ContentKeyStatus → ContentKeyStatus → Bool
status_lt ContentKeyStatus.expired other = false
status_lt ContentKeyStatus.inactive other = true
status_lt ContentKeyStatus.active ContentKeyStatus.expired = false
status_lt ContentKeyStatus.active other = true

-- `ContentKey.__lt__`
unfoldable pub key_lt : ContentKey → ContentKey → Bool
key_lt a b =
    if same_status a.status b.status
    then ltb a.not_before b.not_before
    else status_lt a.status b.status

-- `sorted` is stable. Keys of different statuses are not in order by `__lt__`, so that their places then
-- depend on the method, which is here insertion.
unfoldable pub insert_key : ContentKey → List ContentKey → List ContentKey
unfolding key_lt
insert_key k [] = k ∷ []
insert_key k (l ∷ keys) =
    let later = insert_key k keys in if key_lt l k then l ∷ later else k ∷ l ∷ keys

unfoldable pub sorted_keys : List ContentKey → List ContentKey
unfolding insert_key
sorted_keys [] = []
sorted_keys (k ∷ keys) = insert_key k (sorted_keys keys)

abbrev pub has_status : Option ContentKeyStatus → ContentKeyStatus → Bool
has_status none status = true
has_status (some wanted) status = same_status wanted status

unfoldable pub filtered_keys : ℕ → Option ContentKeyStatus → List KeyData → List ContentKey
unfolding from_dict
filtered_keys now status [] = []
filtered_keys now status (row ∷ rows) =
    let k = from_dict now row in
    let rest = filtered_keys now status rows in
    if has_status status k.status then k ∷ rest else rest

-- `ContentKey.get_content_keys`
unfoldable pub get_content_keys : ℕ → Option ContentKeyStatus → List KeyData → List ContentKey
unfolding filtered_keys sorted_keys
get_content_keys now status rows = sorted_keys (filtered_keys now status rows)

abbrev pub first_key : List ContentKey → Option ContentKey
first_key [] = none
first_key (k ∷ keys) = some k

-- `ContentKey.get_active_content_key`
unfoldable pub get_active_content_key : ℕ → List KeyData → Option ContentKey
unfolding get_content_keys
get_active_content_key now rows =
    first_key (get_content_keys now (some ContentKeyStatus.active) rows)

-- `sorted(keys, key=attrgetter('key_id'), reverse=True)[0].key_id`, or 0 if there is no key.
unfoldable pub highest_id : List ContentKey → ℕ
highest_id [] = 0
highest_id (k ∷ keys) = let rest = highest_id keys in if ltb rest k.key_id then k.key_id else rest

unfoldable pub new_id : ℕ → Option ℕ → Option (List KeyData) → Result ℕ
unfolding get_content_keys highest_id
new_id now (some key_id) table = ok key_id
new_id now none none = raise value_error
new_id now none (some rows) = ok (highest_id (get_content_keys now none rows) + 1)

abbrev pub or_else : Option ℕ → ℕ → ℕ
or_else none default = default
or_else (some n) default = n

-- `ContentKey.create`: the default for the end is a `timedelta` of so many days.
unfoldable pub create_key :
    ℕ → Text → Option ℕ → Option ℕ → Option ℕ → Option (List KeyData) → Result ContentKey
unfolding new_id from_dict
create_key now key key_id not_before not_after table = do
  id ← new_id now key_id table
  ok (
      from_dict now (record {
        key = key;
        key_id = id;
        not_before = or_else not_before (now + 86400);
        not_after = or_else not_after (now + (86400 + 86400) * 86400);
      }))

-- `ContentKey.persist`
unfoldable pub persist : List KeyData → ContentKey → List KeyData
unfolding as_dict
persist rows k = rows ++ as_dict k ∷ []

-- ===== src/CommonName.antt =====
-- `Secret.review_commonname_by_parameters` of byoda/secrets/secret.py: what a certificate's common
-- name says about its owner.
pub mod RoundTrip
pub mod Safety
use byoda_python.Base.{
  ℕ, suc, ◌+◌, ◌-◌, ◌^◌, ◌≡◌, refl, Bool, true, false, ◌&&◌, ◌||◌, not, List, [], ◌∷◌, ◌++◌, Option,
  none, some, length, ltb, leb, ◌==◌, if◌then◌else◌, Result, ok, raise, value_error,
  permission_error, type_error, ◌>>=◌, ◌>>◌, require, or_raise,
}
use byoda_python.Text.{
  Text, codes, is_empty, starts_with, ends_with, split, split_max, join, drop_last, rstrip,
}
use byoda_python.Text.Number.{ℤ, pos, negsuc, to_int}
use byoda_python.Text.Uuid.{to_uuid}
use byoda_python.DataTypes.{IdType, id_value, by_value_lengths, Identifier, uuid, name, EntityId}

-- `hostname, subdomain, domain = commonname.split('.', 2)`, all three not empty.
unfoldable pub three_parts : List Text → Result (Unit {0})
three_parts (hostname ∷ subdomain ∷ domain ∷ []) =
    require (not (is_empty hostname) && not (is_empty subdomain) && not (is_empty domain))
      value_error
three_parts _ = raise value_error

-- The identifier and the subdomain, from the name without the network.
unfoldable pub two_levels : List Text → Result (Option Text × Text)
two_levels [] = raise value_error
two_levels (subdomain ∷ []) = ok (none, subdomain)
two_levels (identifier ∷ subdomain ∷ []) = ok (some identifier, subdomain)
two_levels (_ ∷ _ ∷ _ ∷ _) = raise value_error

-- `UUID(None)` is a TypeError.
unfoldable pub read_identifier : Bool → Option Text → Result (Option Identifier)
read_identifier false none = ok none
read_identifier false (some text) = ok (some (name text))
read_identifier true none = raise type_error
read_identifier true (some text) = do u ← to_uuid text; ok (some (uuid u))

abbrev pub last_or : Text → List Text → Text
last_or d [] = d
last_or d (w ∷ ws) = last_or w ws

-- The subdomain and the service id at its end, once its parts between dashes are known.
unfoldable pub numbered : Bool → Text → List Text → Result (Text × Option ℤ)
numbered check subdomain [] = ok (subdomain, none)
numbered check subdomain (word ∷ []) = ok (subdomain, none)
numbered check subdomain (word ∷ next ∷ words) = elim (to_int 10 (last_or next words)) [
  | some n ↦ ok (drop_last 1 (join b'-' (word ∷ next ∷ words)), some n)
  | none ↦ if check then raise value_error else ok (subdomain, none)
]

-- The service id must fit 32 bits.
unfoldable pub in_range : Option ℤ → Result (Option ℕ)
in_range none = ok none
in_range (some (negsuc n)) = raise value_error
in_range (some (pos n)) = if ltb (2 ^ 32 - 1) n then raise value_error else ok (some n)

-- The first identity type whose value, less its dash, starts the subdomain.
unfoldable pub find_id_type : Text → List IdType → Option IdType
find_id_type subdomain [] = none
find_id_type subdomain (t ∷ ts) =
    if starts_with subdomain (rstrip b'-' (id_value t)) then some t else find_id_type subdomain ts

-- `a != b` for service ids that may be None.
abbrev pub same_service : Option ℕ → Option ℕ → Bool
same_service none none = true
same_service (some n) (some m) = n == m
same_service _ _ = false

abbrev pub is_some {ℓ} : {A : Type ℓ} → Option A → Bool
is_some none = false
is_some (some a) = true

-- `Secret.review_commonname_by_parameters`
unfoldable pub review : Text → Text → Option ℕ → Bool → Bool → Result EntityId
unfolding three_parts two_levels read_identifier numbered in_range find_id_type
review commonname network service_id uuid_identifier check_service_id = do
  require (not check_service_id || is_some service_id) value_error
  three_parts (split_max b'.' 2 commonname)
  require (ends_with commonname (b'.' ∷ network)) permission_error
  let prefix = drop_last (length network + 1) commonname
  (text, subdomain) ← two_levels (split b'.' prefix)
  identifier ← read_identifier uuid_identifier text
  (kind, number) ← numbered check_service_id subdomain (split b'-' subdomain)
  cn_service_id ← in_range number
  id_type ← or_raise value_error (find_id_type kind by_value_lengths)
  require (not check_service_id || same_service cn_service_id service_id) permission_error
  ok (record { id_type = id_type; id = identifier; service_id = cn_service_id })

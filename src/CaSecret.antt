-- ===== src/CaSecret.antt =====
-- The certificate authorities: byoda/secrets/ca_secret.py and its six subclasses. A CSR comes
-- from the `cryptography` package, so a record holds what the code reads of one.
pub mod Policy
pub mod Requests
pub mod Signing
pub mod Store
use byoda_python.Base.{
  ℕ, ◌+◌, ◌*◌, Bool, true, false, ◌&&◌, ◌||◌, not, List, [], ◌∷◌, Option, none, some, any, length,
  ltb, ◌==◌, if◌then◌else◌, Exception, Result, ok, raise, value_error, permission_error, key_error,
  not_implemented, extension_not_found, ◌>>=◌, ◌>>◌, require, or_raise,
}
use byoda_python.Text.{Text, codes, text_eq, is_empty, starts_with, split, join}
use byoda_python.DataTypes.{IdType, EntityId, id_type_eq}
use byoda_python.CommonName.{review, is_some}

-- The six classes that derive from `CaSecret`.
pub data CaKind : Type 0 where
  network_root network_accounts network_services service_ca members_ca apps_ca : CaKind

-- `ACCEPTED_CSRS` of each class: the types that it signs for, and for how many days.
unfoldable pub accepted_csrs : CaKind → List (IdType × ℕ)
accepted_csrs CaKind.network_root =
    (IdType.accounts_ca, 2 * 365)
    ∷ (IdType.services_ca, 16 * 365)
    ∷ (IdType.network_data, 2 * 365)
    ∷ []
accepted_csrs CaKind.network_accounts = (IdType.account, 365) ∷ (IdType.account_data, 365) ∷ []
accepted_csrs CaKind.network_services = (IdType.service_ca, 15 * 365) ∷ []
accepted_csrs CaKind.service_ca =
    (IdType.members_ca, 5 * 365)
    ∷ (IdType.apps_ca, 5 * 365)
    ∷ (IdType.service, 2 * 365)
    ∷ (IdType.service_data, 5 * 365)
    ∷ []
accepted_csrs CaKind.members_ca = (IdType.member, 365) ∷ (IdType.member_data, 365) ∷ []
accepted_csrs CaKind.apps_ca = (IdType.app, 365) ∷ (IdType.app_data, 365) ∷ []

-- `accepted_csrs[id_type]`
unfoldable pub days_for : IdType → List (IdType × ℕ) → Option ℕ
days_for t [] = none
days_for t ((u, days) ∷ rest) = if id_type_eq t u then some days else days_for t rest

pub record Ca : Type 0 where
  pub kind : CaKind
  pub ca : Bool
  pub private_key_file : Bool
  pub private_key : Bool
  pub network : Text
  pub service_id : Option ℕ
  pub common_name : Text
  pub is_root_cert : Bool
  pub cert_chain : List Text

-- `CaSecret.review_commonname_by_parameters`
unfoldable pub review_by_parameters :
    Text → Text → List (IdType × ℕ) → Option ℕ → Bool → Bool → Result EntityId
unfolding days_for
review_by_parameters commonname network accepted service_id uuid_identifier check_service_id = do
  entity_id ← review commonname network service_id uuid_identifier check_service_id
  require (is_some (days_for entity_id.id_type accepted)) permission_error
  ok entity_id

-- `CaSecret.review_commonname`
unfoldable pub review_base : Ca → Text → Bool → Bool → Result EntityId
unfolding review_by_parameters accepted_csrs
review_base c commonname uuid_identifier check_service_id = do
  require c.ca not_implemented
  require (not check_service_id || is_some c.service_id) value_error
  review_by_parameters commonname c.network (accepted_csrs c.kind) c.service_id uuid_identifier
      check_service_id

-- Whether the class asks for a UUID and for its own service id.
abbrev pub by_uuid : CaKind → Bool
by_uuid CaKind.members_ca = true
by_uuid CaKind.apps_ca = true
by_uuid _ = false

abbrev pub by_service : CaKind → Bool
by_service CaKind.members_ca = true
by_service CaKind.apps_ca = true
by_service _ = false

-- `review_commonname` of the subclasses.
unfoldable pub review_commonname : Ca → Text → Result EntityId
unfolding review_base
review_commonname c commonname = review_base c commonname (by_uuid c.kind) (by_service c.kind)

-- The static `review_commonname_by_parameters` of the subclasses; that of the accounts' CA asks for
-- a UUID.
abbrev pub static_by_uuid : CaKind → Bool
static_by_uuid CaKind.network_accounts = true
static_by_uuid k = by_uuid k

unfoldable pub review_static : CaKind → Text → Text → Option ℕ → Result EntityId
unfolding review_by_parameters accepted_csrs
review_static k commonname network service_id =
    review_by_parameters commonname network (accepted_csrs k) service_id (static_by_uuid k)
      (by_service k)

-- ===== src/RequestAuth.antt =====
-- Who makes a request: `RequestAuth` of byoda/requestauth/requestauth.py. This file has its state, the
-- names in a client certificate, and the checks of the names against the certificate authorities. The
-- reverse proxy has verified the certificate itself; the code reads the names that it passes on.
pub mod Tokens
pub mod Requests
pub mod Handlers
pub mod Certs
pub mod Callers
pub mod Evidence
pub mod Known
pub mod DataRequests
pub mod Issuers
pub mod Api
pub mod ApiChecks
pub mod ApiCallers
pub mod Servers
pub mod ServerCallers
pub mod Registration
pub mod Directory
use byoda_python.Base.{
  ℕ, Bool, true, false, ◌||◌, not, List, [], ◌∷◌, Option, none, some, if◌then◌else◌, ◌==◌, Result,
  ok, raise, http, value_error, type_error, attribute_error, ◌>>=◌, ◌>>◌, require, or_raise,
  on_value_error,
}
use byoda_python.Text.{Text, codes, text_eq, is_empty, split, split_max, contains}
use byoda_python.Text.Number.{ℤ, pos, negsuc, to_int}
use byoda_python.DataTypes.{IdType, Identifier, EntityId, AuthSource, id_type_eq}
use byoda_python.CommonName.{review}
use byoda_python.CaSecret.{CaKind, Ca, review_commonname, review_static}
use byoda_python.CaSecret.Requests.{subject_name}
use byoda_python.Jwt.{to_id_type}

-- A service id is a text of the certificate until a check has read it as a number.
pub data ServiceRef : Type 0 where
  text : Text → ServiceRef
  number : ℤ → ServiceRef

pub data AuthId : Type 0 where
  identifier : Identifier → AuthId
  service : ℕ → AuthId

pub record RequestAuth : Type 0 where
  pub is_authenticated : Bool
  pub auth_source : AuthSource
  pub id_type : IdType
  pub client_cn : Option Text
  pub issuing_ca_cn : Option Text
  pub account_id : Option Identifier
  pub service_id : Option ServiceRef
  pub member_id : Option Identifier
  pub domain : Option Text
  pub id : Option AuthId

-- `RequestAuth.__init__`
abbrev pub new_auth : RequestAuth
new_auth = record {
  is_authenticated = false;
  auth_source = AuthSource.none;
  id_type = IdType.anonymous;
  client_cn = none;
  issuing_ca_cn = none;
  account_id = none;
  service_id = none;
  member_id = none;
  domain = none;
  id = none;
}

-- `RequestAuth.get_commonname`
unfoldable pub get_commonname : Text → Result Text
unfolding subject_name
get_commonname dname = or_raise (http 403) (subject_name (split b',' dname))

-- `subdomain[:subdomain.find('-') + 1]`, for a subdomain with a dash.
abbrev pub up_to_dash : Text → Text
up_to_dash [] = []
up_to_dash (c ∷ s) = c ∷ (if c == b'-' then [] else up_to_dash s)

unfoldable pub id_type_of_levels : List Text → Result IdType
unfolding to_id_type
id_type_of_levels (hostname ∷ subdomain ∷ third ∷ fourth ∷ rest) =
    to_id_type (if contains subdomain b'-' then up_to_dash subdomain else subdomain)
id_type_of_levels _ = raise (http 400)

-- `RequestAuth.get_cert_idtype`
unfoldable pub get_cert_idtype : Text → Result IdType
unfolding id_type_of_levels
get_cert_idtype commonname = id_type_of_levels (split b'.' commonname)

-- `id, subdomain = names[0:2]`
unfoldable pub first_two : List Text → Result (Text × Text)
first_two (hostname ∷ subdomain ∷ rest) = ok (hostname, subdomain)
first_two _ = raise value_error

-- `names[-2]`, for two names at least.
abbrev pub last_but_one : List Text → Option Text
last_but_one [] = none
last_but_one (word ∷ []) = none
last_but_one (word ∷ next ∷ []) = some word
last_but_one (word ∷ next ∷ last ∷ rest) = last_but_one (next ∷ last ∷ rest)

-- `subdomain.split('-')[1]`, where there is a dash.
abbrev pub second : List Text → Option Text
second (word ∷ next ∷ words) = some next
second _ = none

abbrev pub cert_service_id : Text → Option ServiceRef → Option ServiceRef
cert_service_id subdomain old = elim (second (split b'-' subdomain)) [
  | none ↦ old
  | some word ↦ some (ServiceRef.text word)
]

-- The identity that a certificate of each type gives; other types are refused.
unfoldable pub set_identity : IdType → Text → RequestAuth → Result RequestAuth
set_identity IdType.account id auth =
    ok (record auth { id_type = IdType.account; account_id = some (Identifier.name id) })
set_identity IdType.member id auth =
    ok (record auth { id_type = IdType.member; member_id = some (Identifier.name id) })
set_identity IdType.service id auth = ok (record auth { id_type = IdType.service })
set_identity _ id auth = raise (http 400)

-- A certificate that names itself as its issuer, or with a name that is missing.
abbrev pub is_misformed : Text → Text → Bool
is_misformed client_cn issuing_ca_cn =
    text_eq client_cn issuing_ca_cn
    || is_empty issuing_ca_cn
    || text_eq client_cn (codes "None")
    || text_eq issuing_ca_cn (codes "None")

-- `RequestAuth.authenticate_client_cert`; `None.split` is an AttributeError.
unfoldable pub authenticate_client_cert : Text → Option Text → RequestAuth → Result RequestAuth
unfolding get_commonname first_two get_cert_idtype set_identity text_eq
authenticate_client_cert client_dn issuing_ca_dn auth = do
  client_cn ← get_commonname client_dn
  issuer ← or_raise attribute_error issuing_ca_dn
  issuing_ca_cn ← get_commonname issuer
  require (not (is_misformed client_cn issuing_ca_cn)) (http 400)
  (hostname, subdomain) ← first_two (split b'.' client_cn)
  id_type ← get_cert_idtype client_cn
  set_identity id_type hostname (record auth {
    client_cn = some client_cn;
    issuing_ca_cn = some issuing_ca_cn;
    id = some (AuthId.identifier (Identifier.name hostname));
    domain = last_but_one (split_max b'.' 3 client_cn);
    service_id = cert_service_id subdomain auth.service_id;
  })

-- The certificate authority that a check makes, only to review names: it holds no key.
abbrev pub checking_ca : CaKind → Option ℕ → Text → Ca
checking_ca kind service_id network = record {
  kind = kind;
  ca = true;
  private_key_file = true;
  private_key = false;
  network = network;
  service_id = service_id;
  common_name = [];
  is_root_cert = false;
  cert_chain = [];
}

-- A name that is there and not empty.
abbrev pub named : Option Text → Option Text
named none = none
named (some []) = none
named (some (c ∷ s)) = some (c ∷ s)

-- `int(service_id)`. A part between dashes has no sign, so that no certificate gives a negative number.
unfoldable pub service_number : Option ServiceRef → Result ℕ
service_number none = raise type_error
service_number (some (ServiceRef.number (pos n))) = ok n
service_number (some (ServiceRef.number (negsuc n))) = raise value_error
service_number (some (ServiceRef.text s)) = elim (to_int 10 s) [
  | some (pos n) ↦ ok n
  | _ ↦ raise value_error
]

abbrev pub as_service : Option ℕ → Option ServiceRef
as_service none = none
as_service (some n) = some (ServiceRef.number (pos n))

abbrev pub as_id : Option Identifier → Option AuthId
as_id none = none
as_id (some i) = some (AuthId.identifier i)

abbrev pub same_identifier : Option Identifier → ℕ → Bool
same_identifier (some (Identifier.uuid u)) n = u == n
same_identifier _ n = false

-- `self.account_id != account.account_id`, where the server has an account.
abbrev pub for_account : Option ℕ → Option Identifier → Bool
for_account none id = true
for_account (some account_id) id = same_identifier id account_id

-- The two reviews in the `try` block of each check: that of the client's name gives the entity.
unfoldable pub review_account_names : Text → Text → Text → Result EntityId
unfolding review_static
review_account_names network client_cn issuing_ca_cn = do
  entity_id ← review_static CaKind.network_accounts client_cn network none
  issuer ← review_static CaKind.network_root issuing_ca_cn network none
  ok entity_id

unfoldable pub review_names_by :
    CaKind → CaKind → Option ServiceRef → Text → Text → Text → Result EntityId
unfolding service_number review_commonname
review_names_by kind issuing_kind service_id network client_cn issuing_ca_cn = do
  n ← service_number service_id
  entity_id ← review_commonname (checking_ca kind (some n) network) client_cn
  issuer ← review_commonname (checking_ca issuing_kind (some n) network) issuing_ca_cn
  ok entity_id

unfoldable pub review_service_names : ℕ → Text → Text → Text → Result EntityId
unfolding review_commonname
review_service_names n network client_cn issuing_ca_cn = do
  entity_id ← review_commonname (checking_ca CaKind.service_ca (some n) network) client_cn
  issuer ← review_commonname (checking_ca CaKind.network_services none network) issuing_ca_cn
  ok entity_id

-- `RequestAuth.check_account_cert`, for a required certificate.
unfoldable pub check_account_cert : Text → Option ℕ → RequestAuth → Result RequestAuth
unfolding review_account_names
check_account_cert network account_id auth = do
  client_cn ← or_raise (http 400) (named auth.client_cn)
  issuing_ca_cn ← or_raise (http 400) (named auth.issuing_ca_cn)
  entity_id ← on_value_error (http 403) (review_account_names network client_cn issuing_ca_cn)
  require (for_account account_id entity_id.id) (http 403)
  ok (record auth { account_id = entity_id.id })

-- `RequestAuth.check_member_cert`
unfoldable pub check_member_cert : Option ServiceRef → Text → RequestAuth → Result RequestAuth
unfolding review_names_by
check_member_cert service_id network auth = do
  client_cn ← or_raise (http 401) (named auth.client_cn)
  issuing_ca_cn ← or_raise (http 401) (named auth.issuing_ca_cn)
  entity_id ← on_value_error (http 403) (
      review_names_by CaKind.members_ca CaKind.service_ca service_id network client_cn
        issuing_ca_cn)
  ok (record auth {
    member_id = entity_id.id;
    id = as_id entity_id.id;
    service_id = as_service entity_id.service_id;
  })

-- `ServiceSecret.parse_commonname` of byoda/secrets/service_secret.py: the service id.
unfoldable pub parse_service_commonname : Text → Text → Result ℕ
unfolding review
parse_service_commonname commonname network = do
  entity_id ← review commonname network none false false
  require (id_type_eq entity_id.id_type IdType.service) value_error
  or_raise value_error entity_id.service_id

abbrev pub as_service_id : Option ℕ → Option AuthId
as_service_id none = none
as_service_id (some n) = some (AuthId.service n)

-- `RequestAuth.check_service_cert`
unfoldable pub check_service_cert : Text → RequestAuth → Result RequestAuth
unfolding parse_service_commonname review_service_names
check_service_cert network auth = do
  client_cn ← or_raise (http 401) (named auth.client_cn)
  issuing_ca_cn ← or_raise (http 401) (named auth.issuing_ca_cn)
  n ← parse_service_commonname client_cn network
  entity_id ← on_value_error (http 403) (review_service_names n network client_cn issuing_ca_cn)
  ok (record auth {
    service_id = as_service entity_id.service_id;
    id = as_service_id entity_id.service_id;
  })

-- `RequestAuth.check_app_cert`
unfoldable pub check_app_cert : Option ServiceRef → Text → RequestAuth → Result RequestAuth
unfolding review_names_by
check_app_cert service_id network auth = do
  client_cn ← or_raise (http 401) (named auth.client_cn)
  issuing_ca_cn ← or_raise (http 401) (named auth.issuing_ca_cn)
  entity_id ←
      on_value_error (http 403)
        (review_names_by CaKind.apps_ca CaKind.apps_ca service_id network client_cn issuing_ca_cn)
  ok (record auth {
    member_id = entity_id.id;
    id = as_id entity_id.id;
    service_id = as_service entity_id.service_id;
  })

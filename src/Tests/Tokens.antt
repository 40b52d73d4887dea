-- ===== src/Tests/Tokens.antt =====
-- A pod's own member that reads its notes with a token, and the names that certificates of other
-- services' members and of apps carry.
use byoda_python.Base.{
  ℕ, ◌≡◌, refl, true, false, List, [], ◌∷◌, none, some, Result, ok, raise, if◌then◌else◌, ◌==◌,
  Bool-cases, inl, inr, invalid_signature, arith,
}
use byoda_python.Text.{Text, codes, ends_with, split, split_max}
use byoda_python.Text.Number.{pos, decimal, digit_code, digit_in, strip}
use byoda_python.Text.Uuid.{uuid_text, to_uuid}
use byoda_python.DataTypes.{
  AuthSource, Identifier, id_value, IdType, RightsEntityType, DataOperationType,
}
use byoda_python.Names.{member_name, members_ca_name}
use byoda_python.Access.{DataAccessRight}
use byoda_python.Access.Authorize.{Member, DataClass, Fields, authorize_item}
use byoda_python.Jwt.{ClaimedNumber, Claims, PyJwt, ScopeId, create, read_claims}
use byoda_python.Jwt.Scope.{NoSpace}
use byoda_python.Jwt.RoundTrip.{token_of, read_claims-create}
use byoda_python.RequestAuth.{RequestAuth, AuthId, ServiceRef, new_auth}
use byoda_python.RequestAuth.Tokens.{Pod}
use byoda_python.RequestAuth.Requests.{Headers, review_data_request}
use byoda_python.RequestAuth.Api.{authenticate_api}
use byoda_python.RequestAuth.ApiCallers.{IsApiCaller, authenticate_api-IsApiCaller}
use byoda_python.RequestAuth.DataRequests.{IsLetIn, review_data_request-IsLetIn}
use byoda_python.RequestAuth.Issuers.{PassesAs, check_member_cert-any_issuer}
use byoda_python.Tests.Access.{member}

abbrev pub network : Text
network = codes "byoda.net"

abbrev pub claims : Claims
claims = record {
  exp = some 88400;
  iss = some (codes "urn: member_id-00000000-0000-0000-0000-000000000007");
  aud = some (codes "urn: network-byoda.net" ∷ []);
  scope = some (codes "urn: 00000000-0000-0000-0000-000000000007.members-12.byoda.net");
  service_id = some (ClaimedNumber.number (pos 12));
}

-- The name of the network has no space.
plain : NoSpace network
plain = (refl, (refl, (refl, (refl, (refl, (refl, (refl, (refl, (refl, tt)))))))))

created : create 7 IdType.member network (some 12) IdType.member (ScopeId.uuid 7) 1 2000 ≡ ok claims
unfolding create uuid_text digit_code id_value decimal
created = refl

read_claims-create_example :
    read_claims claims network
    ≡ ok (token_of IdType.member 7 network (some 12) IdType.member (ScopeId.uuid 7) 88400)
read_claims-create_example =
    read_claims-create IdType.member 7 network (some 12) IdType.member (ScopeId.uuid 7) 1 2000
      claims (omega arith) plain (ground arith, omega arith) created

-- Every token carries these claims, and the key 70 has signed it.
abbrev pub signed_by : ℕ → Result Claims
signed_by key = if key == 70 then ok claims else raise invalid_signature

pub signed_by-claims : (key : ℕ) (c : Claims) → signed_by key ≡ ok c → ok claims ≡ ok c
signed_by-claims key c h = elim (Bool-cases (key == 70)) [
  | inl signed ↦ rw signed at h
  | inr other ↦ absurd (cc (h, other))
]

abbrev pub py_jwt : PyJwt
py_jwt = record {
  decode = λ token key audience. signed_by key;
  decode_unverified = λ token. ok claims;
  same_payload = λ token key audience c h. signed_by-claims key c h;
}

abbrev pub pod : Pod
pod = record {
  network = network;
  account_id = 1;
  account_key = 10;
  memberships = λ s. if s == 12 then some member else none;
}

abbrev own_read : DataAccessRight
own_read = record { data_operation = DataOperationType.read; distance = some 0; relations = [] }

abbrev data_classes : Member → List (Text × DataClass)
data_classes m =
    (codes "notes", DataClass.object ((RightsEntityType.member, own_read ∷ []) ∷ []) Fields.end)
    ∷ []

abbrev with_token : Headers
with_token = record {
  tls_status = none;
  client_dn = none;
  issuing_ca_dn = none;
  authorization = some (codes "Bearer abc");
}

abbrev without_credentials : Headers
without_credentials = record with_token { authorization = none }

own-let_in :
    review_data_request py_jwt pod data_classes with_token 12
      (codes "notes")
      DataOperationType.read
      0
    ≡ ok true
unfolding review_data_request strip to_uuid digit_in ends_with split_max split id_value
    authorize_item
own-let_in = refl

unknown-refused :
    review_data_request py_jwt pod data_classes without_credentials 12
      (codes "notes")
      DataOperationType.read
      0
    ≡ ok false
unfolding review_data_request authorize_item
unknown-refused = refl

review_data_request-IsLetIn_example :
    IsLetIn py_jwt pod data_classes with_token 12 (codes "notes") DataOperationType.read 0
review_data_request-IsLetIn_example =
    review_data_request-IsLetIn py_jwt pod data_classes with_token 12 (codes "notes")
      DataOperationType.read 0 own-let_in

-- The same token at the API of the membership.
abbrev accepted : RequestAuth
accepted = record new_auth {
  is_authenticated = true;
  auth_source = AuthSource.token;
  id_type = IdType.member;
  service_id = some (ServiceRef.number (pos 12));
  member_id = some (Identifier.uuid 7);
  id = some (AuthId.identifier (Identifier.uuid 7));
}

own-accepted : authenticate_api py_jwt pod with_token (some 12) ≡ ok accepted
unfolding authenticate_api strip to_uuid digit_in ends_with split_max split id_value
own-accepted = refl

authenticate_api-IsApiCaller_example : IsApiCaller py_jwt pod with_token (some 12)
authenticate_api-IsApiCaller_example =
    authenticate_api-IsApiCaller py_jwt pod with_token (some 12) accepted own-accepted

-- A member of service 12, with a certificate that the CA of the members of service 99 issued.
abbrev foreign : RequestAuth
foreign = record new_auth {
  client_cn = some (codes "00000000-0000-0000-0000-000000000007.members-12.byoda.net");
  issuing_ca_cn = some (codes "members-ca.members-ca-99.byoda.net");
}

foreign-client :
    member_name (some 7) 12 network
    ≡ ok (codes "00000000-0000-0000-0000-000000000007.members-12.byoda.net")
unfolding member_name uuid_text digit_code id_value decimal
foreign-client = refl

foreign-issuer : foreign.issuing_ca_cn ≡ some (members_ca_name 99 network)
unfolding members_ca_name decimal digit_code
foreign-issuer = refl

check_member_cert-any_issuer_example :
    PassesAs (some (ServiceRef.text (decimal 12))) network foreign 7 12
check_member_cert-any_issuer_example =
    check_member_cert-any_issuer network (λ e. cc) 7 12 99
      (codes "00000000-0000-0000-0000-000000000007.members-12.byoda.net") foreign (omega arith)
      (omega arith) (omega arith) foreign-client refl foreign-issuer

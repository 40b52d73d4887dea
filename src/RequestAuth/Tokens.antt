-- ===== src/RequestAuth/Tokens.antt =====
-- Requests with a token: `RequestAuth.authenticate_authorization_header` and the pod server's part of
-- it, `review_jwt` and `get_jwt_secret` of byoda/servers/pod_server.py.
use byoda_python.Base.{
  ℕ, Option, none, some, if◌then◌else◌, ◌==◌, Result, ok, raise, http, value_error, key_error,
  attribute_error, expired_signature, invalid_audience, invalid_signature, jwt_error, ◌>>=◌, ◌>>◌,
  require, or_raise, drop,
}
use byoda_python.Text.{Text, codes, starts_with, lower}
use byoda_python.Text.Number.{ℤ, pos, negsuc, strip}
use byoda_python.DataTypes.{IdType, Identifier, AuthSource}
use byoda_python.Jwt.{PyJwt, Jwt, ScopeId, decode_unverified, decode_verified, check_scope}
use byoda_python.Access.Authorize.{Member}
use byoda_python.RequestAuth.{RequestAuth, ServiceRef, AuthId}

-- A pod: its account with the key of its TLS secret, and its memberships by service.
pub record Pod : Type 0 where
  pub network : Text
  pub account_id : ℕ
  pub account_key : ℕ
  pub memberships : ℕ → Option Member

-- `account.get_membership(service_id)`: there are no services with negative numbers.
abbrev pub membership : Pod → ℤ → Option Member
membership pod (pos n) = pod.memberships n
membership pod (negsuc n) = none

abbrev pub membership_of : Pod → Option ℤ → Option Member
membership_of pod none = none
membership_of pod (some n) = membership pod n

-- `PodServer.review_jwt`: for a service that the pod is not a member of, the message that is to be logged
-- names `self.service_id`, which a pod server does not have.
unfoldable pub review_jwt : Pod → IdType → ℕ → Option ℤ → Result (Unit {0})
review_jwt pod IdType.account issuer_id service_id =
    require (issuer_id == pod.account_id) value_error
review_jwt pod IdType.member issuer_id none = raise value_error
review_jwt pod IdType.member issuer_id (some n) = elim (membership pod n) [
  | none ↦ raise attribute_error
  | some m ↦ ok tt
]
review_jwt pod _ issuer_id service_id = raise value_error

-- `PodServer.get_jwt_secret`: the key of the account or of the member's data secret. For another type,
-- which `review_jwt` has refused, the variable of the secret is unbound.
unfoldable pub get_jwt_secret : Pod → IdType → ℕ → Option ℤ → Result ℕ
get_jwt_secret pod IdType.account issuer_id service_id = ok pod.account_key
get_jwt_secret pod IdType.member issuer_id service_id = elim (membership_of pod service_id) [
  | none ↦ raise value_error
  | some m ↦ if m.member_id == issuer_id then ok m.data_key else raise value_error
]
get_jwt_secret pod _ issuer_id service_id = raise attribute_error

-- `JWT._get_issuer_secret`
unfoldable pub get_issuer_secret : Pod → Jwt → Result ℕ
unfolding review_jwt get_jwt_secret
get_issuer_secret pod jwt = do
  review_jwt pod jwt.issuer_type jwt.issuer_id jwt.service_id
  get_jwt_secret pod jwt.issuer_type jwt.issuer_id jwt.service_id

-- The first `except` clauses: what is wrong with a token before its signature is verified.
abbrev pub on_invalid : {A : Type 0} → Result A → Result A
on_invalid (raise expired_signature) = raise (http 401)
on_invalid (raise value_error) = raise (http 401)
on_invalid (raise key_error) = raise (http 401)
on_invalid r = r

-- The second: what the verification says.
abbrev pub on_unverified : {A : Type 0} → Result A → Result A
on_unverified (raise invalid_audience) = raise (http 401)
on_unverified (raise invalid_signature) = raise (http 403)
on_unverified (raise expired_signature) = raise (http 401)
on_unverified (raise jwt_error) = raise (http 401)
on_unverified r = r

-- The token in the header.
unfoldable pub header_token : Text → Text
unfolding starts_with
header_token authorization =
    let token = strip authorization in
    if starts_with (lower token) (codes "bearer") then strip (drop 6 token) else token

-- The identity that a verified token gives: a member's, if the token names a service.
unfoldable pub set_issuer_for : Option ℤ → IdType → ℕ → RequestAuth → RequestAuth
set_issuer_for (some n) issuer_type issuer_id auth = record auth {
  service_id = some (ServiceRef.number n);
  id_type = issuer_type;
  member_id = some (Identifier.uuid issuer_id);
  id = some (AuthId.identifier (Identifier.uuid issuer_id));
  auth_source = AuthSource.token;
}
set_issuer_for none issuer_type issuer_id auth = record auth {
  service_id = none;
  id_type = issuer_type;
  account_id = some (Identifier.uuid issuer_id);
  id = some (AuthId.identifier (Identifier.uuid issuer_id));
  auth_source = AuthSource.token;
}

unfoldable pub set_issuer : Jwt → RequestAuth → RequestAuth
unfolding set_issuer_for
set_issuer jwt auth = set_issuer_for jwt.service_id jwt.issuer_type jwt.issuer_id auth

-- The unverified token, with the key that must have signed it.
unfoldable pub find_signer : PyJwt → Pod → Text → Result (Jwt × ℕ)
unfolding decode_unverified get_issuer_secret
find_signer py_jwt pod token = do
  jwt ← decode_unverified py_jwt token pod.network
  key ← get_issuer_secret pod jwt
  ok (jwt, key)

-- `RequestAuth.authenticate_authorization_header`, on a pod server.
unfoldable pub authenticate_authorization_header :
    PyJwt → Pod → Text → RequestAuth → Result (RequestAuth × Jwt)
unfolding header_token find_signer decode_verified set_issuer
authenticate_authorization_header py_jwt pod authorization auth = do
  (jwt, key) ← on_invalid (find_signer py_jwt pod (header_token authorization))
  verified ← on_unverified (decode_verified py_jwt (header_token authorization) key pod.network)
  ok (set_issuer jwt auth, jwt)

-- `jwt.check_scope(IdType.MEMBER, member.member_id)` for the membership that the token names.
unfoldable pub check_member_scope : Pod → Jwt → Option ℤ → Result (Unit {0})
unfolding check_scope
check_member_scope pod jwt service_id = do
  member ← or_raise attribute_error (membership_of pod service_id)
  check_scope jwt IdType.member (ScopeId.uuid member.member_id)

-- ===== src/RequestAuth/Requests.antt =====
-- Authentication in the order of the code: `RequestAuth.authenticate`, its overrides for members and
-- services (byoda/requestauth/) and for the data requests of a pod
-- (podserver/dependencies/pod_api_request_auth.py), and the review of a data request.
use byoda_python.Base.{
  ℕ, Bool, true, false, ◌||◌, not, List, Option, none, some, Result, ok, raise, http, value_error,
  type_error, attribute_error, missing_auth_info, ◌>>=◌, ◌>>◌, require,
}
use byoda_python.Text.{Text}
use byoda_python.Text.Number.{pos}
use byoda_python.DataTypes.{IdType, Identifier, TlsStatus, AuthSource, DataOperationType}
use byoda_python.CommonName.{is_some}
use byoda_python.Jwt.{PyJwt, Jwt, decode_unverified, same_number}
use byoda_python.Access.Authorize.{Member, Auth, DataClass, authorize_data_request}
use byoda_python.RequestAuth.{
  RequestAuth, ServiceRef, new_auth, named, get_commonname, get_cert_idtype,
  authenticate_client_cert, check_member_cert, check_service_cert,
}
use byoda_python.RequestAuth.Tokens.{Pod, authenticate_authorization_header, check_member_scope}

-- The headers that the reverse proxy sets.
pub record Headers : Type 0 where
  pub tls_status : Option TlsStatus
  pub client_dn : Option Text
  pub issuing_ca_dn : Option Text
  pub authorization : Option Text

abbrev pub tls_failed : Option TlsStatus → Bool
tls_failed (some TlsStatus.failed) = true
tls_failed _ = false

abbrev pub tls_missing : Option TlsStatus → Bool
tls_missing (some TlsStatus.success) = false
tls_missing (some TlsStatus.failed) = false
tls_missing _ = true

-- `except HTTPException as exc: error = exc.status`: FastAPI's exception has `status_code` and no
-- `status`, so that the handler raises an AttributeError.
abbrev pub on_http : {A : Type 0} → Result A → Result A
on_http (raise (http n)) = raise attribute_error
on_http r = r

-- The credentials in their order: a certificate before a token.
unfoldable pub authenticate_with :
    PyJwt
    → Pod
    → Option Text
    → Option Text
    → Option Text
    → RequestAuth
    → Result (RequestAuth × Option Jwt)
unfolding authenticate_client_cert authenticate_authorization_header
authenticate_with py_jwt pod (some client_dn) issuing_ca_dn authorization auth = do
  certified ← on_http (authenticate_client_cert client_dn issuing_ca_dn auth)
  ok (record certified { auth_source = AuthSource.cert }, none)
authenticate_with py_jwt pod none issuing_ca_dn (some authorization) auth = do
  (found, jwt) ← authenticate_authorization_header py_jwt pod authorization auth
  ok (found, some jwt)
authenticate_with py_jwt pod none issuing_ca_dn none auth = raise (http 401)

-- `RequestAuth.authenticate`: with the token, if that is what authenticated the client.
unfoldable pub authenticate :
    PyJwt → Pod → Headers → RequestAuth → Result (RequestAuth × Option Jwt)
unfolding authenticate_with
authenticate py_jwt pod h auth = do
  require (not (tls_failed h.tls_status)) (http 403)
  require (not (tls_missing h.tls_status) || is_some (named h.authorization)) missing_auth_info
  authenticate_with py_jwt pod (named h.client_dn) h.issuing_ca_dn (named h.authorization) auth

-- `except ByodaMissingAuthInfo: raise HTTPException(401)`
abbrev pub on_missing : {A : Type 0} → Result A → Result A
on_missing (raise missing_auth_info) = raise (http 401)
on_missing r = r

-- The scope of the token that authenticated the client; `None.service_id` is an AttributeError.
abbrev pub check_token : Pod → Option Jwt → Result (Unit {0})
check_token pod none = raise attribute_error
check_token pod (some jwt) = check_member_scope pod jwt jwt.service_id

-- The part of `MemberRequestAuth.authenticate` behind the common part.
unfoldable pub check_member : Pod → Option Text → RequestAuth → Option Jwt → Result RequestAuth
unfolding check_member_cert check_member_scope
check_member pod (some client_dn) auth jwt = check_member_cert auth.service_id pod.network auth
check_member pod none auth jwt = do check_token pod jwt; ok auth

-- `MemberRequestAuth.authenticate`
unfoldable pub authenticate_member : PyJwt → Pod → Headers → RequestAuth → Result RequestAuth
unfolding authenticate check_member
authenticate_member py_jwt pod h auth = do
  (found, jwt) ← on_missing (authenticate py_jwt pod h auth)
  require (is_some found.client_cn || is_some h.authorization) (http 401)
  checked ← check_member pod (named h.client_dn) found jwt
  ok (record checked { is_authenticated = true })

-- `ServiceRequestAuth.authenticate`
unfoldable pub authenticate_service : PyJwt → Pod → Headers → RequestAuth → Result RequestAuth
unfolding authenticate check_service_cert
authenticate_service py_jwt pod h auth = do
  require (not (is_some (named h.authorization))) (http 401)
  (found, jwt) ← on_missing (authenticate py_jwt pod h auth)
  require (is_some found.client_cn || is_some found.issuing_ca_cn) (http 401)
  checked ← check_service_cert pod.network found
  ok (record checked { is_authenticated = true })

abbrev pub same_service_id : Option ServiceRef → ℕ → Bool
same_service_id (some (ServiceRef.number n)) service_id = same_number n (some (pos service_id))
same_service_id _ service_id = false

-- What the credentials say that the caller is, before they are checked.
unfoldable pub claimed_by_token : PyJwt → Pod → Text → ℕ → Result IdType
unfolding decode_unverified check_member_scope
claimed_by_token py_jwt pod authorization service_id = do
  jwt ← decode_unverified py_jwt authorization pod.network
  require (same_number (pos service_id) jwt.service_id) (http 401)
  check_member_scope pod jwt (some (pos service_id))
  ok jwt.issuer_type

unfoldable pub claimed_by_cert : Text → Result IdType
unfolding get_commonname get_cert_idtype
claimed_by_cert client_dn = do client_cn ← get_commonname client_dn; get_cert_idtype client_cn

unfoldable pub claimed_type : PyJwt → Pod → Headers → ℕ → Result IdType
unfolding claimed_by_token claimed_by_cert
claimed_type py_jwt pod h service_id =
    let by_token : Result IdType = elim (named h.authorization) [
      | none ↦ ok IdType.anonymous
      | some authorization ↦ claimed_by_token py_jwt pod authorization service_id
    ] in
    elim (named h.client_dn) [
      | none ↦ by_token
      | some client_dn ↦ elim (named h.issuing_ca_dn) [
        | none ↦ by_token
        | some issuing_ca_dn ↦ claimed_by_cert client_dn
      ]
    ]

-- The checks for that type; an account is turned away. The state of an anonymous caller is the initial
-- one, but for the common name of a certificate that says so of itself, which nothing reads from then
-- on.
unfoldable pub authenticate_as : PyJwt → Pod → Headers → IdType → Result RequestAuth
unfolding authenticate_member authenticate_service
authenticate_as py_jwt pod h IdType.account = raise (http 401)
authenticate_as py_jwt pod h IdType.member = authenticate_member py_jwt pod h new_auth
authenticate_as py_jwt pod h IdType.service = authenticate_service py_jwt pod h new_auth
authenticate_as py_jwt pod h IdType.anonymous = ok new_auth
authenticate_as py_jwt pod h _ = raise value_error

-- `PodApiRequestAuth.authenticate_data_request`
unfoldable pub authenticate_data_request : PyJwt → Pod → Headers → ℕ → Result RequestAuth
unfolding claimed_type authenticate_as
authenticate_data_request py_jwt pod h service_id = do
  id_type ← claimed_type py_jwt pod h service_id
  auth ← authenticate_as py_jwt pod h id_type
  require (not auth.is_authenticated || same_service_id auth.service_id service_id) (http 401)
  ok auth

-- What the authorization reads of the caller.
abbrev pub uuid_of : Option Identifier → Option ℕ
uuid_of (some (Identifier.uuid u)) = some u
uuid_of _ = none

abbrev pub number_of : Option ServiceRef → Option ℕ
number_of (some (ServiceRef.number (pos n))) = some n
number_of _ = none

abbrev pub caller : RequestAuth → Auth
caller auth = record {
  is_authenticated = auth.is_authenticated;
  id_type = auth.id_type;
  member_id = uuid_of auth.member_id;
  service_id = number_of auth.service_id;
}

-- `except Exception: raise HTTPException(400)`
abbrev pub on_any : {A : Type 0} → Result A → Result A
on_any (raise e) = raise (http 400)
on_any r = r

-- `_log_auth_message` raises for the types that it has no message for.
abbrev pub is_logged : IdType → Bool
is_logged IdType.member = true
is_logged IdType.anonymous = true
is_logged IdType.app = true
is_logged IdType.service = true
is_logged _ = false

-- The first `try` block of `review_data_request`.
unfoldable pub authenticated : PyJwt → Pod → Headers → ℕ → Result RequestAuth
unfolding authenticate_data_request
authenticated py_jwt pod h service_id = do
  auth ← authenticate_data_request py_jwt pod h service_id
  require (is_logged auth.id_type) type_error
  ok auth

-- `PodApiRequestAuth.review_data_request`, with the classes of each membership's schema.
unfoldable pub review_data_request :
    PyJwt
    → Pod
    → (Member → List (Text × DataClass))
    → Headers
    → ℕ
    → Text
    → DataOperationType
    → ℕ
    → Result Bool
unfolding authenticated authorize_data_request
review_data_request py_jwt pod data_classes h service_id class_name operation depth = do
  auth ← on_any (authenticated py_jwt pod h service_id)
  on_any (
      authorize_data_request data_classes class_name (record {
        auth = caller auth;
        memberships = pod.memberships;
        service_id = service_id;
        operation = operation;
        depth = depth;
      }))

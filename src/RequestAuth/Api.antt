-- ===== src/RequestAuth/Api.antt =====
-- The REST APIs of a pod for its account and its memberships: `PodApiRequestAuth.authenticate` of
-- podserver/dependencies/pod_api_request_auth.py.
use byoda_python.Base.{
  ℕ, Bool, true, false, Option, none, some, Result, ok, raise, http, attribute_error, ◌>>=◌, ◌>>◌,
  require, or_raise,
}
use byoda_python.Text.Number.{pos}
use byoda_python.DataTypes.{IdType, id_type_eq, AuthSource}
use byoda_python.Jwt.{PyJwt, Jwt, ScopeId, check_scope}
use byoda_python.Access.Authorize.{Member}
use byoda_python.RequestAuth.{
  RequestAuth, ServiceRef, new_auth, same_identifier, check_account_cert, check_member_cert,
}
use byoda_python.RequestAuth.Tokens.{Pod}
use byoda_python.RequestAuth.Requests.{Headers, authenticate, on_missing}

abbrev pub is_cert : AuthSource → Bool
is_cert AuthSource.cert = true
is_cert _ = false

-- `jwt.check_scope(id_type, id)`: `None.check_scope` is an AttributeError.
unfoldable pub check_own_scope : Option Jwt → IdType → ℕ → Result (Unit {0})
unfolding check_scope
check_own_scope none id_type id = raise attribute_error
check_own_scope (some jwt) id_type id = check_scope jwt id_type (ScopeId.uuid id)

-- The checks of an account: by its certificate, or by the scope of its token.
unfoldable pub check_own_account : Bool → Pod → RequestAuth → Option Jwt → Result RequestAuth
unfolding check_account_cert check_own_scope
check_own_account true pod auth jwt = check_account_cert pod.network (some pod.account_id) auth
check_own_account false pod auth jwt = do check_own_scope jwt IdType.account pod.account_id; ok auth

-- The checks of a member of a service that the pod is a member of.
unfoldable pub check_service_member :
    Bool → Pod → ℕ → Member → RequestAuth → Option Jwt → Result RequestAuth
unfolding check_member_cert check_own_scope
check_service_member true pod service_id member auth jwt =
    check_member_cert (some (ServiceRef.number (pos service_id))) pod.network auth
check_service_member false pod service_id member auth jwt = do
  check_own_scope jwt IdType.member member.member_id
  ok auth

-- Who may call: without a service id, the account; with one, members.
abbrev pub api_id_type : Option ℕ → IdType
api_id_type none = IdType.account
api_id_type (some service_id) = IdType.member

unfoldable pub check_api_caller : Pod → Option ℕ → RequestAuth → Option Jwt → Result RequestAuth
unfolding check_own_account check_service_member
check_api_caller pod none auth jwt = do
  checked ← check_own_account (is_cert auth.auth_source) pod auth jwt
  require (same_identifier checked.account_id pod.account_id) (http 401)
  ok checked
check_api_caller pod (some service_id) auth jwt = do
  member ← or_raise (http 401) (pod.memberships service_id)
  check_service_member (is_cert auth.auth_source) pod service_id member auth jwt

-- `PodApiRequestAuth.authenticate`
unfoldable pub authenticate_api : PyJwt → Pod → Headers → Option ℕ → Result RequestAuth
unfolding authenticate check_api_caller
authenticate_api py_jwt pod h service_id = do
  (found, jwt) ← on_missing (authenticate py_jwt pod h new_auth)
  require (id_type_eq found.id_type (api_id_type service_id)) (http 403)
  checked ← check_api_caller pod service_id found jwt
  ok (record checked { is_authenticated = true })

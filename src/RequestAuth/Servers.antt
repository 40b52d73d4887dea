-- ===== src/RequestAuth/Servers.antt =====
-- The authentication of requests to directory and service servers, by a certificate alone:
-- dirserver/dependencies/ and svcserver/dependencies/, with the accounts of
-- appserver/dependencies/accountrequest_auth.py.
use byoda_python.Base.{
  ℕ, Bool, true, false, Option, none, some, Result, ok, raise, http, attribute_error, type_error,
  missing_auth_info, value_error, permission_error, ◌>>=◌, ◌>>◌, require, if◌then◌else◌,
}
use byoda_python.Text.{Text}
use byoda_python.Text.Number.{pos}
use byoda_python.DataTypes.{IdType, id_type_eq}
use byoda_python.Jwt.{PyJwt, Jwt}
use byoda_python.RequestAuth.{
  RequestAuth, ServiceRef, new_auth, check_account_cert, check_member_cert, check_service_cert,
  check_app_cert,
}
use byoda_python.RequestAuth.Tokens.{Pod}
use byoda_python.RequestAuth.Requests.{Headers, authenticate}

-- The dependencies: whether a certificate may be missing, and the type of client they are for.
pub data Dependency : Type 0 where
  account member service app : Bool → Dependency

abbrev pub is_optional : Dependency → Bool
is_optional (account optional) = optional
is_optional (member optional) = optional
is_optional (service optional) = optional
is_optional (app optional) = optional

-- The type that the certificate must have: for an app, that of a member.
abbrev pub wanted_type : Dependency → IdType
wanted_type (account optional) = IdType.account
wanted_type (member optional) = IdType.member
wanted_type (service optional) = IdType.service
wanted_type (app optional) = IdType.member

-- The status for a certificate that is missing and required.
abbrev pub missing_status : Dependency → ℕ
missing_status (member optional) = 403
missing_status _ = 401

abbrev pub check_for : Dependency → Text → RequestAuth → Result RequestAuth
check_for (account optional) network auth = check_account_cert network none auth
check_for (member optional) network auth = check_member_cert auth.service_id network auth
check_for (service optional) network auth = check_service_cert network auth
check_for (app optional) network auth = check_app_cert auth.service_id network auth

-- The handlers of the check: `exc.message` of a ValueError is an AttributeError.
abbrev pub on_check : {A : Type 0} → Result A → Result A
on_check (raise value_error) = raise attribute_error
on_check (raise permission_error) = raise (http 403)
on_check r = r

-- What comes of the common part: without a certificate, the client is not authenticated.
unfoldable pub with_found :
    Dependency → Text → RequestAuth → Result (RequestAuth × Option Jwt) → Result RequestAuth
with_found d network auth (raise missing_auth_info) =
    if is_optional d then ok auth else raise (http (missing_status d))
with_found d network auth (raise e) = raise e
with_found d network auth (ok (found, jwt)) = do
  require (id_type_eq found.id_type (wanted_type d)) (http 403)
  checked ← on_check (check_for d network found)
  ok (record checked { is_authenticated = true })

-- `self.authorization = None`
abbrev pub without_token : Headers → Headers
without_token h = record {
  tls_status = h.tls_status;
  client_dn = h.client_dn;
  issuing_ca_dn = h.issuing_ca_dn;
  authorization = none;
}

-- The state before the authentication: a service server puts its own service there for a member that
-- must authenticate.
abbrev pub initial : Dependency → Option ℕ → RequestAuth
initial (member false) (some service_id) = record new_auth {
  service_id = some (ServiceRef.number (pos service_id));
}
initial _ own_service = new_auth

-- `authenticate` of the nine classes, for a server with that service, if it has one. The server
-- itself, a `Pod` here, is read only for its network, since there is no token. The optional
-- dependency for services leaves out an argument of the common part, which is a TypeError.
unfoldable pub authenticate_server :
    PyJwt → Pod → Option ℕ → Dependency → Headers → Result RequestAuth
unfolding authenticate with_found
authenticate_server py_jwt server own_service (service true) h = raise type_error
authenticate_server py_jwt server own_service d h =
    with_found d server.network (initial d own_service)
      (authenticate py_jwt server (without_token h) (initial d own_service))

-- ===== src/Tests/Servers.antt =====
-- An account at a directory server.
use byoda_python.Base.{◌≡◌, refl, true, false, none, some, Result, ok, raise}
use byoda_python.Text.{codes, ends_with, split, split_max, join, rstrip}
use byoda_python.Text.Number.{digit_in}
use byoda_python.Text.Uuid.{to_uuid}
use byoda_python.DataTypes.{TlsStatus, id_value, by_value_lengths}
use byoda_python.CommonName.{review}
use byoda_python.RequestAuth.{RequestAuth, new_auth, check_account_cert}
use byoda_python.RequestAuth.Requests.{Headers}
use byoda_python.RequestAuth.Servers.{Dependency, authenticate_server}
use byoda_python.RequestAuth.ServerCallers.{IsServerCaller, authenticate_server-IsServerCaller}
use byoda_python.Tests.Tokens.{network, py_jwt, pod}

abbrev pub account_headers : Headers
account_headers = record {
  tls_status = some TlsStatus.success;
  client_dn = some (codes "CN=123e4567-e89b-12d3-a456-426614174000.accounts.byoda.net");
  issuing_ca_dn = some (codes "CN=accounts-ca.accounts-ca.byoda.net");
  authorization = none;
}

abbrev pub auth_in : Result RequestAuth → RequestAuth
auth_in (raise e) = new_auth
auth_in (ok auth) = auth

-- What the server finds.
unfoldable found : RequestAuth
unfolding authenticate_server
found = auth_in (authenticate_server py_jwt pod none (Dependency.account false) account_headers)

found_lem :
    authenticate_server py_jwt pod none (Dependency.account false) account_headers ≡ ok found
unfolding found authenticate_server id_value review split_max ends_with split to_uuid digit_in
    by_value_lengths rstrip join check_account_cert
found_lem = refl

found-is_authenticated : found.is_authenticated ≡ true
unfolding found authenticate_server id_value review split_max ends_with split to_uuid digit_in
    by_value_lengths rstrip join check_account_cert
found-is_authenticated = refl

authenticate_server-IsServerCaller_example :
    IsServerCaller (Dependency.account false) network account_headers found
authenticate_server-IsServerCaller_example =
    authenticate_server-IsServerCaller py_jwt pod account_headers none (Dependency.account false)
      found found_lem

-- ===== src/RequestAuth/ServerCallers.antt =====
-- Whom directory and service servers let in.
use byoda_python.Base.{
  ℕ, ◌≡◌, refl, Bool, true, false, not, ◌||◌, Option, none, some, Result, ok, raise, http,
  missing_auth_info, value_error, permission_error, Returns, Returns-ok, Returns-raise,
  Returns-require, Returns-bind, Returns-call, Returns-or_raise, Returns-on_value_error,
}
use byoda_python.Text.{Text}
use byoda_python.DataTypes.{id_type_eq, EntityId}
use byoda_python.CaSecret.{CaKind, review_static}
use byoda_python.CommonName.{is_some}
use byoda_python.Jwt.{PyJwt, Jwt}
use byoda_python.RequestAuth.{
  RequestAuth, new_auth, named, check_account_cert, review_account_names, for_account,
  check_app_cert,
}
use byoda_python.RequestAuth.Tokens.{Pod}
use byoda_python.RequestAuth.Requests.{Headers, authenticate, uuid_of, tls_failed, tls_missing}
use byoda_python.RequestAuth.Certs.{
  IsMember, IsService, check_member_cert-IsMember, check_service_cert-IsService, id_type_eq→≡,
}
use byoda_python.RequestAuth.Callers.{IsCertified}
use byoda_python.RequestAuth.Evidence.{Identified, authenticate_with-Identified}
use byoda_python.RequestAuth.Servers

-- The names in the certificate are those of an account of the network, which the class of its accounts'
-- CA accepts, and of an issuer whose name the class of its root CA accepts.
pub record IsAccountCert (network : Text) (before after : RequestAuth) : Type 0 where
  pub client_cn : Text
  pub issuing_ca_cn : Text
  pub is_client : named before.client_cn ≡ some client_cn
  pub is_issuer : named before.issuing_ca_cn ≡ some issuing_ca_cn
  pub entity_id : EntityId
  pub accepted : review_static CaKind.network_accounts client_cn network none ≡ ok entity_id
  pub issuer : EntityId
  pub signed : review_static CaKind.network_root issuing_ca_cn network none ≡ ok issuer
  pub account_id : after.account_id ≡ entity_id.id

check_account_cert-IsAccountCert :
    (network : Text) (auth : RequestAuth)
    → Returns (IsAccountCert network auth) (check_account_cert network none auth)
unfolding check_account_cert review_account_names
check_account_cert-IsAccountCert network auth =
    Returns-or_raise (http 400) (named auth.client_cn) _ λ client_cn is_client.
      Returns-or_raise (http 400) (named auth.issuing_ca_cn) _ λ issuing_ca_cn is_issuer.
        Returns-call _ _
          (Returns-on_value_error
            {P = λ e.
              (review_static CaKind.network_accounts client_cn network none ≡ ok e)
              × ((i : EntityId) × (review_static CaKind.network_root issuing_ca_cn network none
                    ≡ ok i))}
            (http 403) _
            (Returns-bind (review_static CaKind.network_accounts client_cn network none) _
              λ e accepted.
                Returns-bind (review_static CaKind.network_root issuing_ca_cn network none) _
                  λ i signed. Returns-ok e (accepted, (i, signed))))
          λ e (accepted, (i, signed)). Returns-require (for_account none e.id) (http 403) _ λ _.
            Returns-ok _ (record {
              client_cn = client_cn;
              issuing_ca_cn = issuing_ca_cn;
              is_client = is_client;
              is_issuer = is_issuer;
              entity_id = e;
              accepted = accepted;
              issuer = i;
              signed = signed;
              account_id = refl;
            })

-- What the check for a dependency establishes of the certificate.
abbrev pub IsChecked : Servers.Dependency → Text → RequestAuth → RequestAuth → Type 0
IsChecked (Servers.Dependency.account optional) network before after =
    IsAccountCert network before after
IsChecked (Servers.Dependency.member optional) network before after =
    IsMember before.service_id network before after
IsChecked (Servers.Dependency.service optional) network before after =
    IsService network before after
IsChecked (Servers.Dependency.app optional) network before after =
    check_app_cert before.service_id network before ≡ ok after

check_for-IsChecked :
    (d : Servers.Dependency) (network : Text) (auth : RequestAuth)
    → Returns (IsChecked d network auth) (Servers.check_for d network auth)
check_for-IsChecked (Servers.Dependency.account optional) network auth =
    check_account_cert-IsAccountCert network auth
check_for-IsChecked (Servers.Dependency.member optional) network auth =
    check_member_cert-IsMember auth.service_id network auth
check_for-IsChecked (Servers.Dependency.service optional) network auth =
    check_service_cert-IsService network auth
check_for-IsChecked (Servers.Dependency.app optional) network auth = record { at = λ a e. e }

on_check-Returns :
    {A : Type 0} {P : A → Type 0} (r : Result A) → Returns P r → Returns P (Servers.on_check r)
on_check-Returns (ok a) h = h
on_check-Returns (raise value_error) h = Returns-raise _
on_check-Returns (raise permission_error) h = Returns-raise _
on_check-Returns (raise _) h = Returns-raise _

-- A client that is let in: without a certificate it is not authenticated, where that is allowed; and
-- with one, the certificate names a client of the type, and the check has found it good.
pub data IsServerCaller (d : Servers.Dependency) (network : Text) (h : Headers) (auth : RequestAuth)
    : Type 0 where
  unknown :
      Servers.is_optional d ≡ true → auth.is_authenticated ≡ false → IsServerCaller d network h auth
  certified :
      (client_dn : Text) (before after : RequestAuth)
      → named h.client_dn ≡ some client_dn
      → IsCertified client_dn h.issuing_ca_dn before
      → before.id_type ≡ Servers.wanted_type d
      → IsChecked d network before after
      → auth ≡ record after { is_authenticated = true }
      → IsServerCaller d network h auth

module _ (py_jwt : PyJwt) (server : Pod) (h : Headers) where
  cert_only :
      (client_dn : Option Text) (before : RequestAuth) (r : RequestAuth × Option Jwt)
      → Identified py_jwt server h.issuing_ca_dn client_dn none before r
      → (dn : Text) × (client_dn ≡ some dn) × IsCertified dn h.issuing_ca_dn r.0
  cert_only (some dn) before r (c, by_cert) = (dn, refl, c)
  cert_only none before r e = absurd e

  authenticate-Certified :
      (before : RequestAuth)
      → uuid_of before.member_id ≡ none
      → Returns
          (λ (r : RequestAuth × Option Jwt).
            (dn : Text) × (named h.client_dn ≡ some dn) × IsCertified dn h.issuing_ca_dn r.0)
          (authenticate py_jwt server (Servers.without_token h) before)
  unfolding authenticate
  authenticate-Certified before fresh = Returns-require (not (tls_failed h.tls_status)) _ _ λ _.
      Returns-require (not (tls_missing h.tls_status) || is_some (named none)) _ _ λ _. record {
        at = λ r done. cert_only (named h.client_dn) before r (
            (authenticate_with-Identified py_jwt server h.issuing_ca_dn (named h.client_dn) none
                before fresh).at
              r done);
      }

  with_found-IsServerCaller :
      (d : Servers.Dependency) (before : RequestAuth)
      → before.is_authenticated ≡ false
      → (r : Result (RequestAuth × Option Jwt))
      → Returns
          (λ (r : RequestAuth × Option Jwt).
            (dn : Text) × (named h.client_dn ≡ some dn) × IsCertified dn h.issuing_ca_dn r.0)
          r
      → Returns (IsServerCaller d server.network h) (Servers.with_found d server.network before r)
  unfolding Servers.with_found
  with_found-IsServerCaller d before fresh (ok (found, jwt)) c =
      let (dn, given, is_cert) = c.at (found, jwt) refl in
      Returns-require (id_type_eq found.id_type (Servers.wanted_type d)) _ _ λ typed.
        Returns-call _ _
          (on_check-Returns (Servers.check_for d server.network found)
            (check_for-IsChecked d server.network found))
          λ checked is_checked. Returns-ok _ (
            certified dn found checked given is_cert
              (id_type_eq→≡ found.id_type (Servers.wanted_type d) typed) is_checked refl)
  with_found-IsServerCaller d before fresh (raise missing_auth_info) c =
      by_option (Servers.is_optional d) refl
    where
      by_option :
          (b : Bool)
          → Servers.is_optional d ≡ b
          → Returns
              (IsServerCaller d server.network h)
              (Servers.with_found d server.network before (raise missing_auth_info))
      by_option true e = rw e (Returns-ok before (unknown e fresh))
      by_option false e = rw e (Returns-raise _)
  with_found-IsServerCaller d before fresh (raise _) c = Returns-raise _

  -- A client that a directory or service server lets in is either not authenticated, where the
  -- dependency allows that; or it has a certificate of the type that the dependency wants, and the check
  -- of its names has found it good: an account of the network, a member of the service that its own
  -- name gives, or a service.
  pub authenticate_server-IsServerCaller :
      (own_service : Option ℕ) (d : Servers.Dependency) (auth : RequestAuth)
      → Servers.authenticate_server py_jwt server own_service d h ≡ ok auth
      → IsServerCaller d server.network h auth
  unfolding Servers.authenticate_server
  authenticate_server-IsServerCaller own_service (Servers.Dependency.service true) auth done =
      absurd (cc)
  authenticate_server-IsServerCaller own_service (Servers.Dependency.service false) auth done =
      (with_found-IsServerCaller (Servers.Dependency.service false) new_auth refl _
          (authenticate-Certified new_auth refl)).at
        auth done
  authenticate_server-IsServerCaller own_service (Servers.Dependency.account optional) auth done =
      (with_found-IsServerCaller (Servers.Dependency.account optional) new_auth refl _
          (authenticate-Certified new_auth refl)).at
        auth done
  authenticate_server-IsServerCaller own_service (Servers.Dependency.app optional) auth done =
      (with_found-IsServerCaller (Servers.Dependency.app optional) new_auth refl _
          (authenticate-Certified new_auth refl)).at
        auth done
  authenticate_server-IsServerCaller own_service (Servers.Dependency.member true) auth done =
      (with_found-IsServerCaller (Servers.Dependency.member true) new_auth refl _
          (authenticate-Certified new_auth refl)).at
        auth done
  authenticate_server-IsServerCaller none (Servers.Dependency.member false) auth done =
      (with_found-IsServerCaller (Servers.Dependency.member false) new_auth refl _
          (authenticate-Certified new_auth refl)).at
        auth done
  authenticate_server-IsServerCaller (some n) (Servers.Dependency.member false) auth done =
      (with_found-IsServerCaller (Servers.Dependency.member false)
          (Servers.initial (Servers.Dependency.member false) (some n)) refl _
          (authenticate-Certified (Servers.initial (Servers.Dependency.member false) (some n))
            refl)).at
        auth done

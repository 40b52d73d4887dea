-- ===== src/RequestAuth/ApiCallers.antt =====
-- Who calls the APIs of a pod's account and memberships.
use byoda_python.Base.{
  ℕ, ◌≡◌, ◌∙◌, refl, sym, ap, subst, false, Option, none, some, ok, http, Returns, Returns-ok,
  Returns-require, Returns-or_raise, Returns-call,
}
use byoda_python.Text.{Text}
use byoda_python.Text.Number.{pos}
use byoda_python.DataTypes.{IdType, AuthSource, id_type_eq}
use byoda_python.Jwt.{PyJwt, Jwt, decode_verified}
use byoda_python.Access.Authorize.{Member}
use byoda_python.RequestAuth.{RequestAuth, ServiceRef, new_auth, named}
use byoda_python.RequestAuth.Tokens.{Pod, review_jwt, header_token, set_issuer}
use byoda_python.RequestAuth.Requests.{Headers}
use byoda_python.RequestAuth.Certs.{IsMember, id_type_eq→≡}
use byoda_python.RequestAuth.Callers.{IsCertified, IsToken}
use byoda_python.RequestAuth.Evidence.{get_issuer_secret-IsOwnMember, Identified}
use byoda_python.RequestAuth.Known.{authenticate-Identified, secret_reviewed, issuer_type_of}
use byoda_python.RequestAuth.Api.{is_cert, api_id_type, check_api_caller, authenticate_api}
use byoda_python.RequestAuth.ApiChecks.{
  IsAccount, ByAccountToken, ByMemberToken, account_secret, member_service, own_scope,
  check_own_account-IsAccount, check_own_account_scoped, check_service_member-IsMember,
  check_service_member_scoped, by_token,
}

-- The caller of an API of a pod that is accepted: of the account's API, the pod's own account; of a
-- membership's, a member of the service by its certificate, or the pod itself by its token.
pub data IsApiCaller (py_jwt : PyJwt) (pod : Pod) (h : Headers) : Option ℕ → Type 0 where
  account_cert :
      (client_dn : Text) (before : RequestAuth)
      → named h.client_dn ≡ some client_dn
      → IsCertified client_dn h.issuing_ca_dn before
      → IsAccount pod before
      → IsApiCaller py_jwt pod h none
  account_token :
      (authorization : Text)
      → named h.authorization ≡ some authorization
      → ByAccountToken py_jwt pod authorization
      → IsApiCaller py_jwt pod h none
  member_cert :
      (service_id : ℕ) (called : Member) (client_dn : Text) (before after : RequestAuth)
      → pod.memberships service_id ≡ some called
      → named h.client_dn ≡ some client_dn
      → IsCertified client_dn h.issuing_ca_dn before
      → IsMember (some (ServiceRef.number (pos service_id))) pod.network before after
      → IsApiCaller py_jwt pod h (some service_id)
  member_token :
      (service_id : ℕ) (called : Member) (authorization : Text)
      → pod.memberships service_id ≡ some called
      → named h.authorization ≡ some authorization
      → ByMemberToken py_jwt pod authorization called
      → IsApiCaller py_jwt pod h (some service_id)

module _ (py_jwt : PyJwt) (pod : Pod) (h : Headers) where
  cert-IsApiCaller :
      (service_id : Option ℕ) (client_dn : Text) (found : RequestAuth) (jwt : Option Jwt)
      → named h.client_dn ≡ some client_dn
      → IsCertified client_dn h.issuing_ca_dn found
      → found.auth_source ≡ AuthSource.cert
      → Returns
          (λ checked. IsApiCaller py_jwt pod h service_id)
          (check_api_caller pod service_id found jwt)
  unfolding check_api_caller
  cert-IsApiCaller none client_dn found jwt given c by_cert =
      Returns-call _ _ (check_own_account-IsAccount pod found jwt _ (ap is_cert by_cert))
        λ checked account.
          Returns-require _ _ _
            λ _. Returns-ok checked (account_cert client_dn found given c account)
  cert-IsApiCaller (some service_id) client_dn found jwt given c by_cert =
      Returns-or_raise (http 401) (pod.memberships service_id) _ λ called joined. record {
        at = λ after checked. member_cert service_id called client_dn found after joined given c (
            (check_service_member-IsMember pod found jwt _ service_id called
                (ap is_cert by_cert)).at
              after checked);
      }

  -- What a token says about its issuer.
  token_type :
      (authorization : Text) (found : RequestAuth) (read : Jwt)
      → IsToken py_jwt pod authorization new_auth (found, read)
      → (read.issuer_type ≡ found.id_type) × (is_cert found.auth_source ≡ false)
  unfolding set_issuer
  token_type authorization found read token = (
    sym (
        ap (λ (a : RequestAuth). a.id_type) token.identity
        ∙ issuer_type_of read.service_id read.issuer_type read.issuer_id),
    ap (λ (a : RequestAuth). is_cert a.auth_source) token.identity
        ∙ by_token read.service_id read.issuer_type read.issuer_id,
  )

  token-IsApiCaller :
      (service_id : Option ℕ) (authorization : Text) (found : RequestAuth) (jwt : Option Jwt)
      (read : Jwt)
      → named h.authorization ≡ some authorization
      → jwt ≡ some read
      → IsToken py_jwt pod authorization new_auth (found, read)
      → found.id_type ≡ api_id_type service_id
      → Returns
          (λ checked. IsApiCaller py_jwt pod h service_id)
          (check_api_caller pod service_id found jwt)
  unfolding check_api_caller
  token-IsApiCaller none authorization found jwt read given e token typed =
      let (is_type, no_cert) = token_type authorization found read token in
      let (own_id, own_key) = account_secret pod read token.key (is_type ∙ typed) token.signed in
      Returns-call _ _ (check_own_account_scoped pod found jwt _ no_cert) λ checked scoped.
        Returns-require _ _ _ λ _.
          let (scope_type, scope_id) = own_scope jwt read IdType.account pod.account_id e scoped in
          Returns-ok checked (
            account_token authorization given (record {
              jwt = read;
              verified =
                  subst
                    (λ k.
                      decode_verified py_jwt (header_token authorization) k pod.network ≡ ok read)
                    own_key token.verified;
              issuer_type = is_type ∙ typed;
              issuer_id = own_id;
              scope_type = scope_type;
              scope_id = scope_id;
            }))
  token-IsApiCaller (some service_id) authorization found jwt read given e token typed =
      let (is_type, no_cert) = token_type authorization found read token in
      let (n, of_service) = member_service pod read.issuer_id read.service_id (
        subst (λ t. review_jwt pod t read.issuer_id read.service_id ≡ ok tt) (is_type ∙ typed)
          (secret_reviewed pod read token.key token.signed)) in
      Returns-or_raise (http 401) (pod.memberships service_id) _ λ called joined. record {
        at = λ after checked.
            let (scope_type, scope_id) = own_scope jwt read IdType.member called.member_id e (
              (check_service_member_scoped pod found jwt _ service_id called no_cert).at after
                checked) in
            member_token service_id called authorization joined given (record {
              jwt = read;
              key = token.key;
              verified = token.verified;
              issuing_service = n;
              of_service = of_service;
              own =
                  get_issuer_secret-IsOwnMember pod read token.key n (is_type ∙ typed) of_service
                    token.signed;
              scope_type = scope_type;
              scope_id = scope_id;
            });
      }

  check_api_caller-IsApiCaller :
      (service_id : Option ℕ) (client_dn authorization : Option Text) (found : RequestAuth)
      (jwt : Option Jwt)
      → named h.client_dn ≡ client_dn
      → named h.authorization ≡ authorization
      → Identified py_jwt pod h.issuing_ca_dn client_dn authorization new_auth (found, jwt)
      → found.id_type ≡ api_id_type service_id
      → Returns
          (λ checked. IsApiCaller py_jwt pod h service_id)
          (check_api_caller pod service_id found jwt)
  check_api_caller-IsApiCaller service_id (some dn) authorization found jwt given _ (c, by_cert)
        typed =
      cert-IsApiCaller service_id dn found jwt given c by_cert
  check_api_caller-IsApiCaller service_id none (some a) found jwt _ given (read, e, token) typed =
      token-IsApiCaller service_id a found jwt read given e token typed
  check_api_caller-IsApiCaller service_id none none found jwt _ _ evidence typed = absurd evidence

-- A call of a pod's API that is accepted comes, without a service id, from the pod's own account, with
-- a certificate whose names the accounts' CA and the root CA of the network accept or with a token
-- signed with the account's key for the account; with a service id, the pod is a member of the service
-- and the call comes from a member of it, with a certificate whose names the CAs of that service accept,
-- or from one of the pod's own members, with a token signed with its key for the member that is called.
pub authenticate_api-IsApiCaller :
    (py_jwt : PyJwt) (pod : Pod) (h : Headers) (service_id : Option ℕ) (auth : RequestAuth)
    → authenticate_api py_jwt pod h service_id ≡ ok auth
    → IsApiCaller py_jwt pod h service_id
unfolding authenticate_api
authenticate_api-IsApiCaller py_jwt pod h service_id auth done =
    (Returns-call {P = λ a. IsApiCaller py_jwt pod h service_id} _ _
        (authenticate-Identified py_jwt pod h)
        λ (r : RequestAuth × Option Jwt) identified.
          Returns-require (id_type_eq r.0.id_type (api_id_type service_id)) _ _ λ typed.
            Returns-call _ _
              (check_api_caller-IsApiCaller py_jwt pod h service_id (named h.client_dn)
                (named h.authorization) r.0 r.1 refl refl identified
                (id_type_eq→≡ r.0.id_type (api_id_type service_id) typed))
              λ checked caller. Returns-ok _ caller).at
      auth done

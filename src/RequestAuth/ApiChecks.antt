-- ===== src/RequestAuth/ApiChecks.antt =====
-- What a certificate or a token of the pod's own account or member is, and the checks of both.
use byoda_python.Base.{
  ℕ, Bool, ◌≡◌, refl, sym, subst, true, false, ◌==◌, Option, none, some, ok, http, value_error,
  require, arith, >>=-eq-ok, ok-injective, require-eq-ok, Returns, Returns-ok, Returns-require,
  Returns-bind, Returns-then, Returns-or_raise, Returns-on_value_error, Returns-call,
}
use byoda_python.Text.{Text}
use byoda_python.Text.Number.{ℤ, pos, negsuc}
use byoda_python.DataTypes.{IdType, Identifier, EntityId}
use byoda_python.CaSecret.{CaKind, review_static}
use byoda_python.Jwt.{PyJwt, Jwt, ScopeId, decode_verified}
use byoda_python.Access.Authorize.{Member}
use byoda_python.RequestAuth.{
  RequestAuth, ServiceRef, new_auth, named, review_account_names, for_account, check_account_cert,
}
use byoda_python.RequestAuth.Tokens.{
  Pod, review_jwt, get_jwt_secret, get_issuer_secret, header_token, set_issuer_for,
}
use byoda_python.RequestAuth.Certs.{IsMember, check_member_cert-IsMember}
use byoda_python.RequestAuth.Evidence.{IsOwnMember}
use byoda_python.RequestAuth.Known.{scope_of}
use byoda_python.RequestAuth.Api.{is_cert, check_own_scope, check_own_account, check_service_member}

-- A certificate of the pod's own account: the classes of the network's accounts CA and of its root CA
-- accept its names.
pub record IsAccount (pod : Pod) (before : RequestAuth) : Type 0 where
  pub client_cn : Text
  pub issuing_ca_cn : Text
  pub is_client : named before.client_cn ≡ some client_cn
  pub is_issuer : named before.issuing_ca_cn ≡ some issuing_ca_cn
  pub entity_id : EntityId
  pub accepted : review_static CaKind.network_accounts client_cn pod.network none ≡ ok entity_id
  pub is_own : entity_id.id ≡ some (Identifier.uuid pod.account_id)
  pub issuer : EntityId
  pub signed : review_static CaKind.network_root issuing_ca_cn pod.network none ≡ ok issuer

-- The names that the account's certificate has, once they are reviewed.
abbrev IsReviewedAccount : (network client_cn issuing_ca_cn : Text) → EntityId → Type 0
IsReviewedAccount network client_cn issuing_ca_cn e =
    (review_static CaKind.network_accounts client_cn network none ≡ ok e)
    × ((issuer : EntityId) × (review_static CaKind.network_root issuing_ca_cn network none
          ≡ ok issuer))

for_account→≡ :
    (account_id : ℕ) (id : Option Identifier)
    → for_account (some account_id) id ≡ true
    → id ≡ some (Identifier.uuid account_id)
for_account→≡ account_id (some (Identifier.uuid u)) h = ground arith
for_account→≡ account_id (some (Identifier.name s)) h = cc
for_account→≡ account_id none h = cc

review_account_names-IsReviewed :
    (network client_cn issuing_ca_cn : Text)
    → Returns
        (IsReviewedAccount network client_cn issuing_ca_cn)
        (review_account_names network client_cn issuing_ca_cn)
unfolding review_account_names
review_account_names-IsReviewed network client_cn issuing_ca_cn =
    Returns-bind (review_static CaKind.network_accounts client_cn network none) _ λ e accepted.
      Returns-bind (review_static CaKind.network_root issuing_ca_cn network none) _
        λ issuer signed. Returns-ok e (accepted, (issuer, signed))

check_account_cert-IsAccount :
    (pod : Pod) (auth : RequestAuth)
    → Returns
        (λ after. IsAccount pod auth)
        (check_account_cert pod.network (some pod.account_id) auth)
unfolding check_account_cert
check_account_cert-IsAccount pod auth =
    Returns-or_raise (http 400) (named auth.client_cn) _ λ client_cn is_client.
      Returns-or_raise (http 400) (named auth.issuing_ca_cn) _ λ issuing_ca_cn is_issuer.
        Returns-call _ _
          (Returns-on_value_error (http 403) _
            (review_account_names-IsReviewed pod.network client_cn issuing_ca_cn))
          λ e (accepted, (issuer, signed)).
            Returns-require (for_account (some pod.account_id) e.id) _ _ λ own.
              Returns-ok _ (record {
                client_cn = client_cn;
                issuing_ca_cn = issuing_ca_cn;
                is_client = is_client;
                is_issuer = is_issuer;
                entity_id = e;
                accepted = accepted;
                is_own = for_account→≡ pod.account_id e.id own;
                issuer = issuer;
                signed = signed;
              })

-- A token of the pod's own account: it is signed with the account's key, and it is for the account.
pub record ByAccountToken (py_jwt : PyJwt) (pod : Pod) (authorization : Text) : Type 0 where
  pub jwt : Jwt
  pub verified :
      decode_verified py_jwt (header_token authorization) pod.account_key pod.network ≡ ok jwt
  pub issuer_type : jwt.issuer_type ≡ IdType.account
  pub issuer_id : jwt.issuer_id ≡ pod.account_id
  pub scope_type : jwt.scope_type ≡ IdType.account
  pub scope_id : jwt.scope_id ≡ ScopeId.uuid pod.account_id

-- A token of the pod's own member of some service, signed with the key of that member's data secret,
-- for the member that is called.
pub record ByMemberToken (py_jwt : PyJwt) (pod : Pod) (authorization : Text) (called : Member)
    : Type 0 where
  pub jwt : Jwt
  pub key : ℕ
  pub verified : decode_verified py_jwt (header_token authorization) key pod.network ≡ ok jwt
  pub issuing_service : ℕ
  pub of_service : jwt.service_id ≡ some (pos issuing_service)
  pub own : IsOwnMember pod issuing_service jwt.issuer_id key
  pub scope_type : jwt.scope_type ≡ IdType.member
  pub scope_id : jwt.scope_id ≡ ScopeId.uuid called.member_id

-- The signer of an account's token is the pod's account.
pub account_secret :
    (pod : Pod) (jwt : Jwt) (key : ℕ)
    → jwt.issuer_type ≡ IdType.account
    → get_issuer_secret pod jwt ≡ ok key
    → (jwt.issuer_id ≡ pod.account_id) × (key ≡ pod.account_key)
unfolding get_issuer_secret review_jwt get_jwt_secret
account_secret pod jwt key t h =
    let (_, reviewed, found) =
      >>=-eq-ok (require (jwt.issuer_id == pod.account_id) value_error) (λ done. ok pod.account_key)
        (rw t at h) in
    let own = require-eq-ok (jwt.issuer_id == pod.account_id) value_error reviewed in
    (ground arith, sym (ok-injective found))

-- A member's token that the pod reviewed names a service.
pub member_service :
    (pod : Pod) (id : ℕ) (s : Option ℤ)
    → review_jwt pod IdType.member id s ≡ ok tt
    → (n : ℕ) × (s ≡ some (pos n))
unfolding review_jwt
member_service pod id none h = cc
member_service pod id (some (pos n)) h = (n, refl)
member_service pod id (some (negsuc n)) h = cc

-- What the scope of a token has to be.
pub own_scope :
    (jwt : Option Jwt) (found : Jwt) (t : IdType) (id : ℕ)
    → jwt ≡ some found
    → check_own_scope jwt t id ≡ ok tt
    → (found.scope_type ≡ t) × (found.scope_id ≡ ScopeId.uuid id)
unfolding check_own_scope
own_scope none found t id e h = absurd (cc)
own_scope (some jwt) found t id e h =
    let same : jwt ≡ found = cc in
    subst (λ (j : Jwt). (j.scope_type ≡ t) × (j.scope_id ≡ ScopeId.uuid id)) same
      (scope_of jwt t id h)

pub by_token :
    (s : Option ℤ) (t : IdType) (id : ℕ)
    → is_cert (set_issuer_for s t id new_auth).auth_source ≡ false
unfolding set_issuer_for
by_token none t id = refl
by_token (some n) t id = refl

-- The checks by a certificate and by a token.
module _ (pod : Pod) (auth : RequestAuth) (jwt : Option Jwt) where
  pub check_own_account-IsAccount :
      (b : Bool)
      → b ≡ true
      → Returns (λ after. IsAccount pod auth) (check_own_account b pod auth jwt)
  unfolding check_own_account
  check_own_account-IsAccount true e = check_account_cert-IsAccount pod auth
  check_own_account-IsAccount false e = absurd (cc)

  pub check_own_account_scoped :
      (b : Bool)
      → b ≡ false
      → Returns
          (λ after. check_own_scope jwt IdType.account pod.account_id ≡ ok tt)
          (check_own_account b pod auth jwt)
  unfolding check_own_account
  check_own_account_scoped true e = absurd (cc)
  check_own_account_scoped false e =
      Returns-then (check_own_scope jwt IdType.account pod.account_id) _
        λ scoped. Returns-ok auth scoped

  pub check_service_member-IsMember :
      (b : Bool) (service_id : ℕ) (called : Member)
      → b ≡ true
      → Returns
          (IsMember (some (ServiceRef.number (pos service_id))) pod.network auth)
          (check_service_member b pod service_id called auth jwt)
  unfolding check_service_member
  check_service_member-IsMember true service_id called e =
      check_member_cert-IsMember (some (ServiceRef.number (pos service_id))) pod.network auth
  check_service_member-IsMember false service_id called e = absurd (cc)

  pub check_service_member_scoped :
      (b : Bool) (service_id : ℕ) (called : Member)
      → b ≡ false
      → Returns
          (λ after. check_own_scope jwt IdType.member called.member_id ≡ ok tt)
          (check_service_member b pod service_id called auth jwt)
  unfolding check_service_member
  check_service_member_scoped true service_id called e = absurd (cc)
  check_service_member_scoped false service_id called e =
      Returns-then (check_own_scope jwt IdType.member called.member_id) _
        λ scoped. Returns-ok auth scoped

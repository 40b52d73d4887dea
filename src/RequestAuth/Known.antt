-- ===== src/RequestAuth/Known.antt =====
-- Who an authenticated caller is: a member or a service by its certificate, or the pod's own member by
-- its token.
use byoda_python.Base.{
  ℕ, ◌≡◌, ◌∙◌, refl, sym, ap, subst, true, not, ◌||◌, Option, none, some, ok, value_error, require,
  arith, >>=-eq-ok, Returns, require-eq-ok, Returns-ok, Returns-require, Returns-call,
}
use byoda_python.Text.{Text}
use byoda_python.Text.Number.{ℤ, pos, negsuc}
use byoda_python.DataTypes.{IdType, id_type_eq}
use byoda_python.CommonName.{is_some}
use byoda_python.Jwt.{PyJwt, Jwt, ScopeId, decode_verified, check_scope, same_scope_id}
use byoda_python.RequestAuth.{RequestAuth, ServiceRef, new_auth, named, as_service}
use byoda_python.RequestAuth.Tokens.{
  Pod, review_jwt, get_issuer_secret, header_token, set_issuer_for, set_issuer, check_member_scope,
}
use byoda_python.RequestAuth.Requests.{
  Headers, authenticate, authenticate_member, authenticate_service, same_service_id, uuid_of,
  is_logged, tls_failed, tls_missing, on_missing,
}
use byoda_python.RequestAuth.Handlers.{on_missing-eq-ok}
use byoda_python.RequestAuth.Certs.{IsMember, IsService, check_service_cert-IsService, id_type_eq→≡}
use byoda_python.RequestAuth.Callers.{IsCertified}
use byoda_python.RequestAuth.Evidence.{
  IsOwnMember, get_issuer_secret-IsOwnMember, Identified, authenticate_with-Identified, IsMemberBy,
  check_member-IsMemberBy,
}

-- The certificate is that of member `u` of the service: its names are those that the service's CAs sign.
pub record ByMemberCert (pod : Pod) (h : Headers) (service_id : ℕ) (auth : RequestAuth)
    : Type 0 where
  pub client_dn : Text
  pub is_given : named h.client_dn ≡ some client_dn
  pub before : RequestAuth
  pub certified : IsCertified client_dn h.issuing_ca_dn before
  pub member : IsMember before.service_id pod.network before auth
  pub of_service : member.cert.n ≡ service_id

-- The token is that of the pod's own member of the service: it is signed with the key of the member's
-- data secret, and it is for that member.
pub record ByOwnToken (py_jwt : PyJwt) (pod : Pod) (h : Headers) (service_id : ℕ)
    (auth : RequestAuth) : Type 0 where
  pub authorization : Text
  pub is_given : named h.authorization ≡ some authorization
  pub jwt : Jwt
  pub key : ℕ
  pub verified : decode_verified py_jwt (header_token authorization) key pod.network ≡ ok jwt
  pub own : IsOwnMember pod service_id jwt.issuer_id key
  pub scope_type : jwt.scope_type ≡ IdType.member
  pub scope_id : jwt.scope_id ≡ ScopeId.uuid own.member.member_id
  pub is_own : uuid_of auth.member_id ≡ some own.member.member_id

-- The certificate is that of the service.
pub record ByServiceCert (pod : Pod) (h : Headers) (service_id : ℕ) (auth : RequestAuth)
    : Type 0 where
  pub client_dn : Text
  pub is_given : named h.client_dn ≡ some client_dn
  pub before : RequestAuth
  pub certified : IsCertified client_dn h.issuing_ca_dn before
  pub service : IsService pod.network before auth
  pub of_service : service.n ≡ service_id
  pub no_member : uuid_of auth.member_id ≡ none

-- Who an authenticated caller is. A caller without credentials has no identity at all.
pub data IsKnown (py_jwt : PyJwt) (pod : Pod) (h : Headers) (service_id : ℕ) (auth : RequestAuth)
    : Type 0 where
  anonymous : auth ≡ new_auth → IsKnown py_jwt pod h service_id auth
  by_member_cert : ByMemberCert pod h service_id auth → IsKnown py_jwt pod h service_id auth
  by_own_token : ByOwnToken py_jwt pod h service_id auth → IsKnown py_jwt pod h service_id auth
  by_service_cert : ByServiceCert pod h service_id auth → IsKnown py_jwt pod h service_id auth

pub authenticate-Identified :
    (py_jwt : PyJwt) (pod : Pod) (h : Headers)
    → Returns
        (Identified py_jwt pod h.issuing_ca_dn (named h.client_dn) (named h.authorization) new_auth)
        (on_missing (authenticate py_jwt pod h new_auth))
unfolding authenticate
authenticate-Identified py_jwt pod h = record {
  at = λ r done.
      (Returns-require (not (tls_failed h.tls_status)) _ _ λ _.
          Returns-require (not (tls_missing h.tls_status) || is_some (named h.authorization)) _ _
            λ _.
              authenticate_with-Identified py_jwt pod h.issuing_ca_dn (named h.client_dn)
                (named h.authorization) new_auth refl).at
        r (on_missing-eq-ok _ done);
}

-- A member that is authenticated, with the checks of its credentials.
abbrev pub Checked : PyJwt → Pod → Headers → RequestAuth → Type 0
Checked py_jwt pod h after =
    (checked : RequestAuth) × IsMemberBy py_jwt pod h.issuing_ca_dn (named h.client_dn)
      (named h.authorization) checked
    × (after ≡ record checked { is_authenticated = true })

pub authenticate_member-Checked :
    (py_jwt : PyJwt) (pod : Pod) (h : Headers)
    → Returns (Checked py_jwt pod h) (authenticate_member py_jwt pod h new_auth)
unfolding authenticate_member
authenticate_member-Checked py_jwt pod h =
    Returns-call _ _ (authenticate-Identified py_jwt pod h) λ (r : RequestAuth × Option Jwt) known.
      Returns-require (is_some r.0.client_cn || is_some h.authorization) _ _ λ _.
        Returns-call _ _
          (check_member-IsMemberBy py_jwt pod h.issuing_ca_dn (named h.client_dn)
            (named h.authorization) r.0 r.1 known)
          λ checked evidence. Returns-ok _ (checked, evidence, refl)

-- A service is known by its certificate alone.
service-Certified :
    (py_jwt : PyJwt) (pod : Pod) (issuing_ca_dn client_dn authorization : Option Text)
    (r : RequestAuth × Option Jwt)
    → not (is_some authorization) ≡ true
    → Identified py_jwt pod issuing_ca_dn client_dn authorization new_auth r
    → (dn : Text) × (client_dn ≡ some dn) × IsCertified dn issuing_ca_dn r.0
service-Certified py_jwt pod issuing_ca_dn (some dn) authorization r e (c, by_cert) = (dn, refl, c)
service-Certified py_jwt pod issuing_ca_dn none none r e c = absurd c
service-Certified py_jwt pod issuing_ca_dn none (some a) r e c = absurd (cc)

abbrev pub CheckedService : Pod → Headers → RequestAuth → Type 0
CheckedService pod h after =
    (client_dn : Text) × (named h.client_dn ≡ some client_dn)
    × ((before : RequestAuth) × IsCertified client_dn h.issuing_ca_dn before
        × ((checked : RequestAuth) × IsService pod.network before checked
            × (after ≡ record checked { is_authenticated = true })))

pub authenticate_service-Checked :
    (py_jwt : PyJwt) (pod : Pod) (h : Headers)
    → Returns (CheckedService pod h) (authenticate_service py_jwt pod h new_auth)
unfolding authenticate_service
authenticate_service-Checked py_jwt pod h =
    Returns-require (not (is_some (named h.authorization))) _ _ λ no_token.
      Returns-call _ _ (authenticate-Identified py_jwt pod h)
        λ (r : RequestAuth × Option Jwt) known.
          Returns-require (is_some r.0.client_cn || is_some r.0.issuing_ca_cn) _ _ λ _.
            Returns-call _ _ (check_service_cert-IsService pod.network r.0) λ checked service.
              let (dn, given, certified) =
                service-Certified py_jwt pod h.issuing_ca_dn (named h.client_dn)
                  (named h.authorization) r no_token known in
              Returns-ok _ (dn, given, (r.0, certified, (checked, service, refl)))

pub same_service-number :
    (o : Option ServiceRef) (n service_id : ℕ)
    → o ≡ as_service (some n)
    → same_service_id o service_id ≡ true
    → n ≡ service_id
same_service-number o n service_id e h = ground arith

-- A certificate's member belongs to the service that is asked, once the service ids agree.
pub member_cert_known :
    (pod : Pod) (h : Headers) (service_id : ℕ) (client_dn : Text) (before checked : RequestAuth)
    → named h.client_dn ≡ some client_dn
    → IsCertified client_dn h.issuing_ca_dn before
    → IsMember before.service_id pod.network before checked
    → same_service_id checked.service_id service_id ≡ true
    → ByMemberCert pod h service_id (record checked { is_authenticated = true })
member_cert_known pod h service_id client_dn before checked given c m same = record {
  client_dn = client_dn;
  is_given = given;
  before = before;
  certified = c;
  member = record {
    client_cn = m.client_cn;
    issuing_ca_cn = m.issuing_ca_cn;
    is_client = m.is_client;
    is_issuer = m.is_issuer;
    entity_id = m.entity_id;
    cert = m.cert;
    member_id = m.member_id;
    service_id = m.service_id;
    id_type = m.id_type;
  };
  of_service = same_service-number checked.service_id m.cert.n service_id m.service_id same;
}

-- A token that the pod accepts for a data request is a member's.
reviewed_member :
    (pod : Pod) (t : IdType) (id : ℕ) (s : Option ℤ)
    → review_jwt pod t id s ≡ ok tt
    → is_logged t ≡ true
    → t ≡ IdType.member
unfolding review_jwt
reviewed_member pod IdType.account id s h k = cc
reviewed_member pod IdType.member id s h k = refl
reviewed_member pod _ id s h k = cc

pub secret_reviewed :
    (pod : Pod) (jwt : Jwt) (key : ℕ)
    → get_issuer_secret pod jwt ≡ ok key
    → review_jwt pod jwt.issuer_type jwt.issuer_id jwt.service_id ≡ ok tt
unfolding get_issuer_secret
secret_reviewed pod jwt key h =
    let (_, reviewed, _) =
      >>=-eq-ok (review_jwt pod jwt.issuer_type jwt.issuer_id jwt.service_id) _ h in
    reviewed

-- What the identity of a token says once the service ids agree.
issuer_facts :
    (s : Option ℤ) (t : IdType) (id service_id : ℕ)
    → same_service_id (set_issuer_for s t id new_auth).service_id service_id ≡ true
    → (s ≡ some (pos service_id)) × (uuid_of (set_issuer_for s t id new_auth).member_id ≡ some id)
unfolding set_issuer_for
issuer_facts none t id service_id h = cc
issuer_facts (some (pos n)) t id service_id h = (ground arith, refl)
issuer_facts (some (negsuc n)) t id service_id h = cc

pub issuer_type_of :
    (s : Option ℤ) (t : IdType) (id : ℕ) → (set_issuer_for s t id new_auth).id_type ≡ t
unfolding set_issuer_for
issuer_type_of none t id = refl
issuer_type_of (some n) t id = refl

same_scope_id→≡ :
    (s : ScopeId) (u : ℕ) → same_scope_id s (ScopeId.uuid u) ≡ true → s ≡ ScopeId.uuid u
same_scope_id→≡ (ScopeId.uuid v) u h = ground arith
same_scope_id→≡ (ScopeId.number n) u h = cc

pub scope_of :
    (jwt : Jwt) (t : IdType) (u : ℕ)
    → check_scope jwt t (ScopeId.uuid u) ≡ ok tt
    → (jwt.scope_type ≡ t) × (jwt.scope_id ≡ ScopeId.uuid u)
unfolding check_scope
scope_of jwt t u h =
    let (_, typed, identified) =
      >>=-eq-ok (require (id_type_eq jwt.scope_type t) value_error) _ h in
    (
      id_type_eq→≡ jwt.scope_type t (require-eq-ok _ value_error typed),
      same_scope_id→≡ jwt.scope_id u (require-eq-ok _ value_error identified),
    )

pub token_known :
    (py_jwt : PyJwt) (pod : Pod) (h : Headers) (service_id : ℕ) (authorization : Text) (jwt : Jwt)
    (key : ℕ) (checked : RequestAuth)
    → named h.authorization ≡ some authorization
    → checked ≡ set_issuer jwt new_auth
    → get_issuer_secret pod jwt ≡ ok key
    → decode_verified py_jwt (header_token authorization) key pod.network ≡ ok jwt
    → check_member_scope pod jwt jwt.service_id ≡ ok tt
    → same_service_id checked.service_id service_id ≡ true
    → is_logged checked.id_type ≡ true
    → ByOwnToken py_jwt pod h service_id (record checked { is_authenticated = true })
unfolding set_issuer check_member_scope
token_known py_jwt pod h service_id authorization jwt key checked given e signed verified scoped
      same logged =
    let (named_service, is_id) =
      issuer_facts jwt.service_id jwt.issuer_type jwt.issuer_id service_id
        (subst (λ (a : RequestAuth). same_service_id a.service_id service_id ≡ true) e same) in
    let is_member : jwt.issuer_type ≡ IdType.member =
      reviewed_member pod jwt.issuer_type jwt.issuer_id jwt.service_id
        (secret_reviewed pod jwt key signed)
        (subst (λ t. is_logged t ≡ true)
          (ap (λ (a : RequestAuth). a.id_type) e
            ∙ issuer_type_of jwt.service_id jwt.issuer_type jwt.issuer_id)
          logged) in
    let own = get_issuer_secret-IsOwnMember pod jwt key service_id is_member named_service signed in
    let scope =
      scope_of jwt IdType.member own.member.member_id (rw (named_service, own.joined) at scoped) in
    record {
      authorization = authorization;
      is_given = given;
      jwt = jwt;
      key = key;
      verified = verified;
      own = own;
      scope_type = scope.0;
      scope_id = scope.1;
      is_own =
          ap (λ (a : RequestAuth). uuid_of a.member_id) e
          ∙ is_id
          ∙ ap (λ n. some n) (sym own.is_id);
    }

-- ===== src/RequestAuth/Evidence.antt =====
-- What the authentication of a request establishes for each kind of credentials, certificate or token.
use byoda_python.Base.{
  ℕ, ◌≡◌, refl, subst, ◌==◌, Option, none, some, ok, raise, http, value_error, arith, >>=-eq-ok,
  Returns, Returns-ok, Returns-raise, Returns-bind, Returns-then, Returns-call, if◌then◌else◌,
}
use byoda_python.Text.{Text}
use byoda_python.Text.Number.{pos}
use byoda_python.DataTypes.{IdType, AuthSource}
use byoda_python.Jwt.{PyJwt, Jwt, decode_verified}
use byoda_python.Access.Authorize.{Member}
use byoda_python.RequestAuth.{RequestAuth, new_auth}
use byoda_python.RequestAuth.Tokens.{
  Pod, review_jwt, get_jwt_secret, get_issuer_secret, header_token, set_issuer, check_member_scope,
}
use byoda_python.RequestAuth.Requests.{authenticate_with, check_member, uuid_of}
use byoda_python.RequestAuth.Handlers.{on_http-eq-ok}
use byoda_python.RequestAuth.Certs.{IsMember, check_member_cert-IsMember}
use byoda_python.RequestAuth.Callers.{
  IsCertified, authenticate_client_cert-IsCertified, IsToken, authenticate_header-IsToken,
}

-- The member with whose data secret a token is signed.
pub record IsOwnMember (pod : Pod) (service_id id key : ℕ) : Type 0 where
  pub member : Member
  pub joined : pod.memberships service_id ≡ some member
  pub is_id : member.member_id ≡ id
  pub is_key : member.data_key ≡ key

own_key :
    (o : Option Member) (id key : ℕ)
    → (elim o [
      | none ↦ raise value_error
      | some m ↦ if m.member_id == id then ok m.data_key else raise value_error
    ])
      ≡ ok key
    → (m : Member) × (o ≡ some m) × (m.member_id ≡ id) × (m.data_key ≡ key)
own_key none id key h = cc
own_key (some m) id key h = (m, refl, ground arith, ground arith)

-- The key for a token of a member is that of the pod's own member of the service.
pub get_issuer_secret-IsOwnMember :
    (pod : Pod) (jwt : Jwt) (key service_id : ℕ)
    → jwt.issuer_type ≡ IdType.member
    → jwt.service_id ≡ some (pos service_id)
    → get_issuer_secret pod jwt ≡ ok key
    → IsOwnMember pod service_id jwt.issuer_id key
unfolding get_issuer_secret get_jwt_secret
get_issuer_secret-IsOwnMember pod jwt key service_id t s h =
    let (_, _, found) =
      >>=-eq-ok (review_jwt pod jwt.issuer_type jwt.issuer_id jwt.service_id) _ h in
    let (m, joined, is_id, is_key) =
      own_key (pod.memberships service_id) jwt.issuer_id key (rw (t, s) at found) in
    record { member = m; joined = joined; is_id = is_id; is_key = is_key }

module _ (py_jwt : PyJwt) (pod : Pod) (issuing_ca_dn : Option Text) where
  -- What `authenticate` establishes with each kind of credentials.
  abbrev pub Identified :
      Option Text → Option Text → RequestAuth → RequestAuth × Option Jwt → Type 0
  Identified (some client_dn) authorization auth r =
      IsCertified client_dn issuing_ca_dn r.0 × (r.0.auth_source ≡ AuthSource.cert)
  Identified none (some authorization) auth r =
      (jwt : Jwt) × (r.1 ≡ some jwt) × IsToken py_jwt pod authorization auth (r.0, jwt)
  Identified none none auth r = ⊥

  pub authenticate_with-Identified :
      (client_dn authorization : Option Text) (auth : RequestAuth)
      → uuid_of auth.member_id ≡ none
      → Returns
          (Identified client_dn authorization auth)
          (authenticate_with py_jwt pod client_dn issuing_ca_dn authorization auth)
  unfolding authenticate_with
  authenticate_with-Identified (some client_dn) authorization auth fresh =
      Returns-bind _ _ λ certified done.
        let c =
          (authenticate_client_cert-IsCertified client_dn issuing_ca_dn auth fresh).at certified
            (on_http-eq-ok _ done) in
        Returns-ok _ (
          (record {
            client_cn = c.client_cn;
            issuing_ca_cn = c.issuing_ca_cn;
            issuer_dn = c.issuer_dn;
            is_client = c.is_client;
            is_given = c.is_given;
            is_issuer = c.is_issuer;
            client = c.client;
            issuer = c.issuer;
            no_uuid = c.no_uuid;
            typed = c.typed;
          }),
          refl,
        )
  authenticate_with-Identified none (some authorization) auth fresh =
      Returns-call _ _ (authenticate_header-IsToken py_jwt pod authorization auth)
        λ (r : RequestAuth × Jwt) token. Returns-ok _ (r.1, refl, token)
  authenticate_with-Identified none none auth fresh = Returns-raise (http 401)

  -- What the checks of a member establish.
  abbrev pub IsMemberBy : Option Text → Option Text → RequestAuth → Type 0
  IsMemberBy (some client_dn) authorization after =
      (before : RequestAuth) × IsCertified client_dn issuing_ca_dn before
      × IsMember before.service_id pod.network before after
  IsMemberBy none (some authorization) after =
      (jwt : Jwt) × (after ≡ set_issuer jwt new_auth)
      × ((key : ℕ) × (get_issuer_secret pod jwt ≡ ok key)
          × (decode_verified py_jwt (header_token authorization) key pod.network ≡ ok jwt))
      × (check_member_scope pod jwt jwt.service_id ≡ ok tt)
  IsMemberBy none none after = ⊥

  pub check_member-IsMemberBy :
      (client_dn authorization : Option Text) (found : RequestAuth) (jwt : Option Jwt)
      → Identified client_dn authorization new_auth (found, jwt)
      → Returns (IsMemberBy client_dn authorization) (check_member pod client_dn found jwt)
  unfolding check_member
  check_member-IsMemberBy (some client_dn) authorization found jwt (c, by_cert) = record {
    at = λ after checked. (
      found,
      c,
      (check_member_cert-IsMember found.service_id pod.network found).at after checked,
    );
  }
  check_member-IsMemberBy none (some authorization) found none (jwt, e, token) = absurd (cc)
  check_member-IsMemberBy none (some authorization) found (some jwt') (jwt, e, token) =
      Returns-then (check_member_scope pod jwt' jwt'.service_id) _ λ scoped. Returns-ok found (
        jwt,
        token.identity,
        (token.key, token.signed, token.verified),
        (let same : jwt' ≡ jwt = cc in
            subst (λ (j : Jwt). check_member_scope pod j j.service_id ≡ ok tt) same scoped),
      )
  check_member-IsMemberBy none none found jwt c = absurd c

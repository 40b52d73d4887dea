-- ===== src/RequestAuth/Callers.antt =====
-- Who the caller of an authenticated request is: what certificates and tokens prove.
use byoda_python.Base.{
  ℕ, ◌≡◌, ◌∙◌, refl, sym, ap, not, Option, none, some, ok, http, attribute_error, ok-injective,
  Returns, Returns-ok, Returns-raise, Returns-require, Returns-bind, Returns-or_raise,
}
use byoda_python.Text.{Text, split}
use byoda_python.DataTypes.{IdType}
use byoda_python.Jwt.{PyJwt, Jwt, audience_of, bare_token, decode_unverified, decode_verified}
use byoda_python.RequestAuth.{
  RequestAuth, get_commonname, get_cert_idtype, first_two, set_identity, is_misformed,
  authenticate_client_cert,
}
use byoda_python.RequestAuth.Tokens.{
  Pod, get_issuer_secret, find_signer, header_token, set_issuer, authenticate_authorization_header,
  on_invalid, on_unverified,
}
use byoda_python.RequestAuth.Requests.{uuid_of}
use byoda_python.RequestAuth.Handlers.{on_invalid-eq-ok, on_unverified-eq-ok}

-- The names that a certificate gives to the state.
pub record IsCertified (client_dn : Text) (issuing_ca_dn : Option Text) (auth : RequestAuth)
    : Type 0 where
  pub client_cn : Text
  pub issuing_ca_cn : Text
  pub issuer_dn : Text
  pub is_client : get_commonname client_dn ≡ ok client_cn
  pub is_given : issuing_ca_dn ≡ some issuer_dn
  pub is_issuer : get_commonname issuer_dn ≡ ok issuing_ca_cn
  pub client : auth.client_cn ≡ some client_cn
  pub issuer : auth.issuing_ca_cn ≡ some issuing_ca_cn
  pub no_uuid : uuid_of auth.member_id ≡ none
  pub typed : get_cert_idtype client_cn ≡ ok auth.id_type

-- What `set_identity` leaves as it is.
record IsIdentitySet (t : IdType) (before after : RequestAuth) : Type 0 where
  client : after.client_cn ≡ before.client_cn
  issuer : after.issuing_ca_cn ≡ before.issuing_ca_cn
  no_uuid : uuid_of before.member_id ≡ none → uuid_of after.member_id ≡ none
  typed : after.id_type ≡ t

set_identity-IsIdentitySet :
    (t : IdType) (id : Text) (auth : RequestAuth)
    → Returns (IsIdentitySet t auth) (set_identity t id auth)
unfolding set_identity
set_identity-IsIdentitySet IdType.account id auth =
    Returns-ok _ (record { client = refl; issuer = refl; no_uuid = λ h. h; typed = refl })
set_identity-IsIdentitySet IdType.member id auth =
    Returns-ok _ (record { client = refl; issuer = refl; no_uuid = λ h. refl; typed = refl })
set_identity-IsIdentitySet IdType.service id auth =
    Returns-ok _ (record { client = refl; issuer = refl; no_uuid = λ h. h; typed = refl })
set_identity-IsIdentitySet _ id auth = Returns-raise (http 400)

pub authenticate_client_cert-IsCertified :
    (client_dn : Text) (issuing_ca_dn : Option Text) (auth : RequestAuth)
    → uuid_of auth.member_id ≡ none
    → Returns
        (IsCertified client_dn issuing_ca_dn)
        (authenticate_client_cert client_dn issuing_ca_dn auth)
unfolding authenticate_client_cert
authenticate_client_cert-IsCertified client_dn issuing_ca_dn auth fresh =
    Returns-bind (get_commonname client_dn) _ λ client_cn is_client.
      Returns-or_raise attribute_error issuing_ca_dn _ λ issuer_dn is_given.
        Returns-bind (get_commonname issuer_dn) _ λ issuing_ca_cn is_issuer.
          Returns-require (not (is_misformed client_cn issuing_ca_cn)) _ _ λ _.
            Returns-bind (first_two (split b'.' client_cn)) _ λ (levels : Text × Text) _.
              Returns-bind (get_cert_idtype client_cn) _ λ id_type typed. record {
                at = λ after done.
                    let set = (set_identity-IsIdentitySet id_type levels.0 _).at after done in
                    record {
                      client_cn = client_cn;
                      issuing_ca_cn = issuing_ca_cn;
                      issuer_dn = issuer_dn;
                      is_client = is_client;
                      is_given = is_given;
                      is_issuer = is_issuer;
                      client = set.client;
                      issuer = set.issuer;
                      no_uuid = set.no_uuid fresh;
                      typed = typed ∙ sym (ap (λ t. ok t) set.typed);
                    };
              }

-- A verified token reads as the unverified one.
pub decode_verified-unverified :
    (py_jwt : PyJwt) (token : Text) (key : ℕ) (network : Text)
    → Returns
        (λ jwt. decode_unverified py_jwt token network ≡ ok jwt)
        (decode_verified py_jwt token key network)
unfolding decode_verified decode_unverified
decode_verified-unverified py_jwt token key network =
    Returns-bind (py_jwt.decode (bare_token token) key (audience_of network)) _ λ claims decoded.
      record {
        at = λ jwt read.
            rw (py_jwt.same_payload (bare_token token) key (audience_of network) claims decoded)
              read;
      }

-- A token that a pod accepts: it is verified with the key of the issuer that it names.
pub record IsToken (py_jwt : PyJwt) (pod : Pod) (authorization : Text) (auth : RequestAuth)
    (r : RequestAuth × Jwt) : Type 0 where
  pub key : ℕ
  pub signed : get_issuer_secret pod r.1 ≡ ok key
  pub verified : decode_verified py_jwt (header_token authorization) key pod.network ≡ ok r.1
  pub identity : r.0 ≡ set_issuer r.1 auth

find_signer-of :
    (py_jwt : PyJwt) (pod : Pod) (token : Text)
    → Returns
        (λ (r : Jwt × ℕ).
          (decode_unverified py_jwt token pod.network ≡ ok r.0)
          × (get_issuer_secret pod r.0 ≡ ok r.1))
        (find_signer py_jwt pod token)
unfolding find_signer
find_signer-of py_jwt pod token =
    Returns-bind (decode_unverified py_jwt token pod.network) _ λ jwt decoded.
      Returns-bind (get_issuer_secret pod jwt) _ λ key found. Returns-ok (jwt, key) (decoded, found)

pub authenticate_header-IsToken :
    (py_jwt : PyJwt) (pod : Pod) (authorization : Text) (auth : RequestAuth)
    → Returns
        (IsToken py_jwt pod authorization auth)
        (authenticate_authorization_header py_jwt pod authorization auth)
unfolding authenticate_authorization_header
authenticate_header-IsToken py_jwt pod authorization auth =
    Returns-bind (on_invalid (find_signer py_jwt pod (header_token authorization))) _
      λ (found : Jwt × ℕ) is_found.
        Returns-bind
          (on_unverified (decode_verified py_jwt (header_token authorization) found.1 pod.network))
          _
          λ jwt is_verified.
            let signer =
              (find_signer-of py_jwt pod (header_token authorization)).at found
                (on_invalid-eq-ok _ is_found) in
            let verified = on_unverified-eq-ok _ is_verified in
            let same : jwt ≡ found.0 = ok-injective (
              sym (
                (decode_verified-unverified py_jwt (header_token authorization) found.1
                    pod.network).at
                  jwt verified)
              ∙ signer.0) in
            Returns-ok _ (record {
              key = found.1;
              signed = signer.1;
              verified = verified ∙ ap (λ j. ok j) same;
              identity = refl;
            })

-- ===== src/Jwt/RoundTrip.antt =====
-- What `JWT.create` writes into a token, `JWT.decode` reads back.
use byoda_python.Base.{
  ℕ, ◌+◌, ◌*◌, ◌^◌, ◌<◌, ◌≡◌, refl, true, [], ◌∷◌, ◌++◌, ◌&&◌, not, all, Option, none, some, ◌==◌,
  ok, >>=-eq-ok, ok-injective,
}
use byoda_python.Text.{Text, codes, starts_with}
use byoda_python.Text.Laws.{ends_with-append}
use byoda_python.Text.Number.{strip, is_space}
use byoda_python.Text.Uuid.{uuid_text, to_uuid-uuid_text}
use byoda_python.DataTypes.{IdType}
use byoda_python.Jwt.{
  Claims, Jwt, ScopeId, audience_of, read_issuer, check_audience, read_service_id, read_claims,
  issuer_text, create, as_number,
}
use byoda_python.Jwt.Scope.{
  NoSpace, IsScope, number_of, strip-space, NoSpace-append, IsPlain-of_all, IsPlain-uuid_text,
  parse_scope-generate_scope,
}

strip-issuer :
    (prefix : Text) (u : ℕ)
    → all (λ c. not (c == b'.') && not (is_space c)) prefix ≡ true
    → strip (b' ' ∷ (prefix ++ uuid_text u)) ≡ prefix ++ uuid_text u
strip-issuer prefix u h = strip-space (prefix ++ uuid_text u) (
    NoSpace-append prefix (uuid_text u) (IsPlain-of_all prefix h).no_space
      (IsPlain-uuid_text u).no_space)

read_service_id-as_number :
    (service_id : Option ℕ) → read_service_id (as_number service_id) ≡ ok (number_of service_id)
unfolding read_service_id
read_service_id-as_number none = refl
read_service_id-as_number (some n) = refl

-- The issuer that is written for an account or a member is read as that one.
read_issuer-issuer_text :
    (t : IdType) (u : ℕ) (s : Text)
    → u < 2 ^ 128
    → issuer_text t u ≡ ok s
    → read_issuer (strip (b' ' ∷ s)) ≡ ok (t, u)
unfolding issuer_text read_issuer starts_with
read_issuer-issuer_text IdType.account u s b h =
    rw (← ok-injective h, strip-issuer (codes "account_id-") u refl, to_uuid-uuid_text u b) refl
read_issuer-issuer_text IdType.member u s b h =
    rw (← ok-injective h, strip-issuer (codes "member_id-") u refl, to_uuid-uuid_text u b) refl
read_issuer-issuer_text _ u s b h = cc

-- The token that carries an identity and a scope.
abbrev pub token_of : IdType → ℕ → Text → Option ℕ → IdType → ScopeId → ℕ → Jwt
token_of t u network service_id scope_type scope_id expiration = record {
  expiration = expiration;
  issuer_type = t;
  issuer_id = u;
  audience = audience_of network ∷ [];
  service_id = number_of service_id;
  scope_type = scope_type;
  scope_id = scope_id;
}

-- The payload that is written for an account or a member, with a UUID of 128 bits, for a network whose
-- name has no space, and for a scope of a pod, an app or a service, is read back as a token with that
-- issuer, service, scope and expiration.
pub read_claims-create :
    (t : IdType) (u : ℕ) (network : Text) (service_id : Option ℕ) (scope_type : IdType)
    (scope_id : ScopeId) (days now : ℕ) (c : Claims)
    → u < 2 ^ 128
    → NoSpace network
    → IsScope scope_type service_id scope_id
    → create u t network service_id scope_type scope_id days now ≡ ok c
    → read_claims c network
      ≡ ok (token_of t u network service_id scope_type scope_id (now + days * (24 * 3600)))
unfolding create read_claims check_audience starts_with
read_claims-create t u network service_id scope_type scope_id days now c b plain scope h =
    let (issuer, written, e) = >>=-eq-ok (issuer_text t u) _ h in
    rw
      (
        ← ok-injective e,
        read_issuer-issuer_text t u issuer b written,
        ends_with-append (codes "urn: network-") network,
        read_service_id-as_number service_id,
        parse_scope-generate_scope network plain scope_type service_id scope_id scope,
      )
      refl

-- ===== src/CaSecret/Store.antt =====
-- The signature of a request that comes over an API: `CertStore.sign` of
-- byoda/datastore/certstore.py, and the common name that the APIs read of a request,
-- `Secret.extract_commonname` of byoda/secrets/secret.py.
use byoda_python.Base.{
  ℕ, ◌+◌, ◌*◌, ◌≡◌, refl, sym, ◌∙◌, Bool, true, false, ◌||◌, not, List, [], ◌∷◌, Option, none, some,
  if◌then◌else◌, Result, value_error, not_implemented, extension_not_found, unbound_local_error,
  ◌>>=◌, ◌>>◌, require, or_raise, subst, ok-injective, arith, Returns, Returns-ok, Returns-require,
  Returns-bind, or_raise-eq-ok,
}
use byoda_python.Text.{Text}
use byoda_python.DataTypes.{IdType, EntityId, id_type_eq}
use byoda_python.CaSecret.{CaKind, Ca}
use byoda_python.CaSecret.Policy.{IsAccepted}
use byoda_python.CaSecret.Requests.{
  Csr, review_subjectalternative_name, review_csr, Expire, Cert, day, expiration, sign_csr,
}
use byoda_python.CaSecret.Signing.{IsSound, review_csr-IsSound}

-- A request with the attributes of its subject: whether each is a common name, and its value.
pub record SigningRequest : Type 0 where
  pub attributes : List (Bool × Text)
  pub csr : Csr

-- The loop over the attributes: a later common name replaces an earlier one.
unfoldable pub last_commonname : Option Text → List (Bool × Text) → Option Text
last_commonname found [] = found
last_commonname found ((is_name, value) ∷ rest) =
    last_commonname (if is_name then some value else found) rest

-- Without a common name, the variable that is returned was never assigned.
unfoldable pub extract_commonname : SigningRequest → Result Text
unfolding last_commonname
extract_commonname request = or_raise unbound_local_error (last_commonname none request.attributes)

-- `signs_ca_certs` of each class.
unfoldable pub signs_ca_certs : CaKind → Bool
signs_ca_certs CaKind.network_root = true
signs_ca_certs CaKind.network_accounts = false
signs_ca_certs CaKind.network_services = true
signs_ca_certs CaKind.service_ca = true
signs_ca_certs CaKind.members_ca = false
signs_ca_certs CaKind.apps_ca = false

-- `CertStore.sign`
unfoldable pub sign : Ca → Csr → ℕ → Result (Cert × List Text)
unfolding signs_ca_certs review_csr sign_csr
sign ca csr now = do
  is_ca ← or_raise extension_not_found csr.basic_constraints
  require (signs_ca_certs ca.kind || not is_ca) value_error
  entity_id ← review_csr ca csr none
  require (not (id_type_eq entity_id.id_type IdType.service)) not_implemented
  sign_csr ca csr (some (Expire.days (365 * 3))) now

-- A certificate of the store: for a request that the CA reviews and finds good, with its key and with
-- the DNS name that the CA accepts; of a CA only where the class signs such.
pub record IsSigned (ca : Ca) (csr : Csr) (now : ℕ) (cert : Cert) : Type 0 where
  pub owner : EntityId
  pub sound : IsSound ca csr none owner
  pub accepted : IsAccepted ca cert.dns_name owner
  pub key : cert.public_key ≡ csr.public_key
  pub issuer : cert.issuer ≡ ca.common_name
  pub lifetime : cert.not_after ≡ now + 365 * 3 * day
  pub restricted : signs_ca_certs ca.kind ≡ false → cert.is_ca ≡ false

pub sign-IsSigned :
    (ca : Ca) (csr : Csr) (now : ℕ) → Returns (λ r. IsSigned ca csr now r.0) (sign ca csr now)
unfolding sign sign_csr expiration
sign-IsSigned ca csr now =
    Returns-bind (or_raise extension_not_found csr.basic_constraints) _ λ is_ca read.
      Returns-require (signs_ca_certs ca.kind || not is_ca) _ _ λ may_be.
        Returns-bind (review_csr ca csr none) _ λ owner reviewed.
          Returns-require (not (id_type_eq owner.id_type IdType.service)) _ _ λ _.
            Returns-require ca.ca _ _ λ _. Returns-require ca.private_key _ _ λ _.
              Returns-bind (review_subjectalternative_name ca.kind csr) _ λ dns_name named.
                Returns-ok _ (
                  let sound = review_csr-IsSound ca csr none owner reviewed in
                  let (name, _, is_name, accepted) = sound.named in
                  record {
                    owner = owner;
                    sound = sound;
                    accepted =
                        subst (λ (n : Text). IsAccepted ca n owner)
                          (ok-injective (sym is_name ∙ named)) accepted;
                    key = refl;
                    issuer = refl;
                    lifetime = omega arith;
                    restricted = λ none_signed.
                        rw (or_raise-eq-ok extension_not_found _ read)
                          (by_flags (signs_ca_certs ca.kind) is_ca none_signed may_be);
                  })
  where
    by_flags : (s c : Bool) → s ≡ false → (s || not c) ≡ true → c ≡ false
    by_flags false false e h = refl
    by_flags false true e h = absurd (cc)
    by_flags true c e h = absurd (cc)

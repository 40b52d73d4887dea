-- ===== src/CaSecret/Signing.antt =====
-- What the review of a certificate signing request establishes, and what a signed certificate says.
use byoda_python.Base.{
  ◌>>=◌, ℕ, ◌+◌, ◌*◌, ◌≡◌, ◌∙◌, refl, sym, ap, true, List, Option, none, some, ok, value_error,
  or_raise, Returns, Returns-ok, Returns-require, Returns-bind, or_raise-eq-ok, >>=-eq-ok,
  ok-injective,
}
use byoda_python.Text.{Text, codes, text_eq, join}
use byoda_python.Text.Laws.{text_eq→≡}
use byoda_python.DataTypes.{EntityId}
use byoda_python.CaSecret.{review_commonname, CaKind, Ca, accepted_csrs, days_for}
use byoda_python.CaSecret.Policy.{IsAccepted, review_commonname-IsAccepted}
use byoda_python.CaSecret.Requests.{
  CsrSource, Csr, review_distinguishedname, review_subjectalternative_name, review_csr_base, admit,
  review_csr, Cert, day, reviewed_expiration, expiration, sign_csr,
}

-- What the caller of `review_csr` may rely on.
pub record IsSound (c : Ca) (csr : Csr) (source : Option CsrSource) (e : EntityId) : Type 0 where
  pub signed : csr.signed ≡ true
  pub algorithm : csr.algorithm ≡ codes "sha256WithRSAEncryption"
  pub hash : csr.hash ≡ codes "sha256"
  pub named :
      (commonname : Text) × (review_distinguishedname (join b',' csr.subject) ≡ ok commonname)
      × (review_subjectalternative_name c.kind csr ≡ ok commonname)
      × IsAccepted c commonname e
  pub admitted : c.kind ≡ CaKind.service_ca → source ≡ some CsrSource.local

admit-local :
    (c : Ca) (k : CaKind) (source : Option CsrSource)
    → admit c k source ≡ ok tt
    → k ≡ CaKind.service_ca
    → source ≡ some CsrSource.local
unfolding admit
admit-local c CaKind.service_ca none h e = cc
admit-local c CaKind.service_ca (some CsrSource.web_api) h e = cc
admit-local c CaKind.service_ca (some CsrSource.local) h e = refl
admit-local c _ source h e = cc

-- What the common part of the review says of the request and its name.
record IsWellFormed (c : Ca) (csr : Csr) (commonname : Text) : Type 0 where
  signed : csr.signed ≡ true
  algorithm : csr.algorithm ≡ codes "sha256WithRSAEncryption"
  hash : csr.hash ≡ codes "sha256"
  subject : review_distinguishedname (join b',' csr.subject) ≡ ok commonname
  dns_name : review_subjectalternative_name c.kind csr ≡ ok commonname

review_csr_base-IsWellFormed :
    (c : Ca) (csr : Csr) → Returns (IsWellFormed c csr) (review_csr_base c csr)
unfolding review_csr_base
review_csr_base-IsWellFormed c csr = Returns-require c.private_key_file _ _ λ _.
    Returns-require c.ca _ _ λ _. Returns-require csr.signed _ _ λ signed.
      Returns-require (text_eq csr.algorithm (codes "sha256WithRSAEncryption")) _ _ λ algorithm.
        Returns-require (text_eq csr.hash (codes "sha256")) _ _ λ hash.
          Returns-bind (review_distinguishedname (join b',' csr.subject)) _ λ commonname subject.
            Returns-bind (review_subjectalternative_name c.kind csr) _ λ san names.
              Returns-require (text_eq commonname san) _ _ λ same. Returns-ok commonname (record {
                signed = signed;
                algorithm = text_eq→≡ csr.algorithm (codes "sha256WithRSAEncryption") algorithm;
                hash = text_eq→≡ csr.hash (codes "sha256") hash;
                subject = subject;
                dns_name = names ∙ sym (ap (λ s. ok s) (text_eq→≡ commonname san same));
              })

-- A certificate authority accepts a request only if it is signed by the key that it is for, with RSA
-- over SHA-256; the common name of its subject is its DNS name; the authority accepts that name; and,
-- if it is a service's CA, the request comes from the service itself.
pub review_csr-IsSound :
    (c : Ca) (csr : Csr) (source : Option CsrSource) (e : EntityId)
    → review_csr c csr source ≡ ok e
    → IsSound c csr source e
unfolding review_csr
review_csr-IsSound c csr source e h =
    let (_, admitted, h1) =
      >>=-eq-ok (admit c c.kind source) (λ _. review_csr_base c csr >>= review_commonname c) h in
    let (commonname, named, h2) = >>=-eq-ok (review_csr_base c csr) _ h1 in
    let w = (review_csr_base-IsWellFormed c csr).at commonname named in
    record {
      signed = w.signed;
      algorithm = w.algorithm;
      hash = w.hash;
      named = (commonname, w.subject, w.dns_name, review_commonname-IsAccepted c commonname e h2);
      admitted = admit-local c c.kind source admitted;
    }

-- What a certificate that is signed without an `expire` argument says.
pub record IsIssued (c : Ca) (csr : Csr) (now : ℕ) (cert : Cert) : Type 0 where
  pub owner : EntityId
  pub sound : IsSound c csr (some CsrSource.local) owner
  pub lifetime :
      (n : ℕ) × (days_for owner.id_type (accepted_csrs c.kind) ≡ some n)
      × (cert.not_after ≡ now + n * day)
  pub key : cert.public_key ≡ csr.public_key
  pub issuer : cert.issuer ≡ c.common_name

-- A certificate that a CA signs without an `expire` argument is for a request that the CA's review
-- accepts as a local one; it has the key of the request and the name of the CA, and expires after the
-- days that the class gives to the type in the name.
pub sign_csr-IsIssued :
    (c : Ca) (csr : Csr) (now : ℕ) (r : Cert × List Text)
    → sign_csr c csr none now ≡ ok r
    → IsIssued c csr now r.0
unfolding sign_csr expiration reviewed_expiration
sign_csr-IsIssued c csr now r h = (steps c csr now).at r h
  where
    steps :
        (c : Ca) (csr : Csr) (now : ℕ)
        → Returns (λ r. IsIssued c csr now r.0) (sign_csr c csr none now)
    steps c csr now = Returns-require c.ca _ _ λ _. Returns-require c.private_key _ _ λ _.
        Returns-bind (reviewed_expiration c csr now) _ λ not_after expires.
          Returns-bind (review_subjectalternative_name c.kind csr) _ λ dns_name named.
            Returns-ok _ (
              let (owner, reviewed, h1) =
                >>=-eq-ok (review_csr c csr (some CsrSource.local)) _ expires in
              let (n, found, h2) =
                >>=-eq-ok (or_raise value_error (days_for owner.id_type (accepted_csrs c.kind))) _
                  h1 in
              record {
                owner = owner;
                sound = review_csr-IsSound c csr (some CsrSource.local) owner reviewed;
                lifetime = (n, or_raise-eq-ok value_error _ found, sym (ok-injective h2));
                key = refl;
                issuer = refl;
              })

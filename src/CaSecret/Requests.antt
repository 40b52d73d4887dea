-- ===== src/CaSecret/Requests.antt =====
-- Certificate signing requests: their review and their signature, `review_csr` and `sign_csr` of
-- byoda/secrets/ca_secret.py and the subclasses. Times are seconds.
use byoda_python.Base.{
  ℕ, ◌+◌, ◌*◌, Bool, true, false, ◌||◌, not, List, [], ◌∷◌, ◌++◌, Option, none, some, any, length,
  ltb, ◌==◌, drop, if◌then◌else◌, Result, ok, raise, value_error, key_error, extension_not_found,
  ◌>>=◌, ◌>>◌, require, or_raise,
}
use byoda_python.Text.{Text, codes, text_eq, is_empty, starts_with, split, join}
use byoda_python.DataTypes.{EntityId}
use byoda_python.CaSecret.{CaKind, Ca, accepted_csrs, days_for, review_commonname}

pub data CsrSource : Type 0 where
  web_api local : CsrSource

-- What the code reads of a request: `signed` is `is_signature_valid`, `subject` the text of each
-- part of the subject, `dns_names` the names of the SubjectAlternativeName extension and
-- `basic_constraints` the `ca` of the BasicConstraints extension, where these are there.
pub record Csr : Type 0 where
  pub signed : Bool
  pub algorithm : Text
  pub hash : Text
  pub subject : List Text
  pub dns_names : Option (List Text)
  pub basic_constraints : Option Bool
  pub public_key : ℕ

abbrev pub member_of : Text → List Text → Bool
member_of s = any (λ t. text_eq s t)

abbrev pub ignored_names : List Text
ignored_names = codes "C" ∷ codes "ST" ∷ codes "L" ∷ codes "O" ∷ []

-- What one part of a distinguished name says: its value ends the loop, or the loop goes on.
unfoldable pub review_bit : List Text → Result (Option Text)
unfolding text_eq
review_bit (key ∷ value ∷ []) =
    if is_empty key || is_empty value
    then raise value_error
    else if member_of key ignored_names
    then ok none
    else if text_eq key (codes "CN")
    then ok (some value)
    else raise value_error
review_bit _ = raise value_error

-- The loop of `review_distinguishedname`.
unfoldable pub review_bits : List Text → Result Text
unfolding review_bit
review_bits [] = raise value_error
review_bits (dn ∷ bits) = elim (review_bit (split b'=' dn)) [
  | raise e ↦ raise e
  | ok none ↦ review_bits bits
  | ok (some value) ↦ ok value
]

unfoldable pub review_distinguishedname : Text → Result Text
unfolding review_bits
review_distinguishedname name = review_bits (split b',' name)

-- `CaSecret.review_subjectalternative_name`
unfoldable pub review_names : Option (List Text) → ℕ → Result Text
review_names none max_dns_names = raise extension_not_found
review_names (some []) max_dns_names = raise value_error
review_names (some (n ∷ ns)) max_dns_names =
    if ltb max_dns_names (length (n ∷ ns)) then raise value_error else ok n

-- The first part of the subject that starts with `CN=`, without that prefix.
unfoldable pub subject_name : List Text → Option Text
subject_name [] = none
subject_name (dn ∷ rest) =
    if starts_with dn (codes "CN=") then some (drop 3 dn) else subject_name rest

abbrev pub non_empty : Option Text → Option Text
non_empty none = none
non_empty (some []) = none
non_empty (some (c ∷ s)) = some (c ∷ s)

abbrev pub names_of : Option (List Text) → List Text
names_of none = []
names_of (some ns) = ns

-- `AppsCaSecret.review_subjectalternative_name`
unfoldable pub review_app_names : Csr → Result Text
unfolding review_names subject_name text_eq
review_app_names csr = do
  first ← review_names csr.dns_names 2
  common_name ← or_raise value_error (non_empty (subject_name csr.subject))
  require (member_of common_name (names_of csr.dns_names)) value_error
  require (not (ltb (length (names_of csr.dns_names)) 2)) value_error
  ok common_name

unfoldable pub review_subjectalternative_name : CaKind → Csr → Result Text
unfolding review_names review_app_names
review_subjectalternative_name CaKind.apps_ca csr = review_app_names csr
review_subjectalternative_name _ csr = review_names csr.dns_names 1

-- `CaSecret.review_csr`
unfoldable pub review_csr_base : Ca → Csr → Result Text
unfolding review_distinguishedname review_subjectalternative_name join text_eq
review_csr_base c csr = do
  require c.private_key_file value_error
  require c.ca value_error
  require csr.signed value_error
  require (text_eq csr.algorithm (codes "sha256WithRSAEncryption")) value_error
  require (text_eq csr.hash (codes "sha256")) value_error
  common_name ← review_distinguishedname (join b',' csr.subject)
  san ← review_subjectalternative_name c.kind csr
  require (text_eq common_name san) value_error
  ok common_name

abbrev pub is_web_api : Option CsrSource → Bool
is_web_api (some CsrSource.web_api) = true
is_web_api _ = false

abbrev pub is_local : Option CsrSource → Bool
is_local (some CsrSource.local) = true
is_local _ = false

-- The tests that a subclass makes before the review: most want their private key, the root takes no
-- request over the API, and a service's CA takes local ones only.
unfoldable pub admit : Ca → CaKind → Option CsrSource → Result (Unit {0})
admit c CaKind.network_root source = do
  require c.private_key_file value_error
  require (not (is_web_api source)) value_error
admit c CaKind.network_services source = ok tt
admit c CaKind.service_ca source = require (is_local source) value_error
admit c _ source = require c.private_key_file value_error

-- `review_csr` of the subclasses.
unfoldable pub review_csr : Ca → Csr → Option CsrSource → Result EntityId
unfolding admit review_csr_base review_commonname
review_csr c csr source = do
  admit c c.kind source
  commonname ← review_csr_base c csr
  review_commonname c commonname

-- The `expire` argument: days, a moment, or a duration.
pub data Expire : Type 0 where
  days at delta : ℕ → Expire

pub record Cert : Type 0 where
  pub subject : List Text
  pub issuer : Text
  pub public_key : ℕ
  pub not_before : ℕ
  pub not_after : ℕ
  pub dns_name : Text
  pub is_ca : Bool

abbrev pub day : ℕ
day = 24 * 3600

-- The expiration when the caller gives none: by a review, and the days for its type.
unfoldable pub reviewed_expiration : Ca → Csr → ℕ → Result ℕ
unfolding review_csr days_for accepted_csrs
reviewed_expiration c csr now = do
  entity_id ← review_csr c csr (some CsrSource.local)
  n ← or_raise value_error (days_for entity_id.id_type (accepted_csrs c.kind))
  ok (now + n * day)

-- 0 days and an empty duration count as no argument.
unfoldable pub expiration : Ca → Csr → Option Expire → ℕ → Result ℕ
unfolding reviewed_expiration
expiration c csr none now = reviewed_expiration c csr now
expiration c csr (some (at t)) now = ok t
expiration c csr (some (days n)) now =
    if n == 0 then reviewed_expiration c csr now else ok (now + n * day)
expiration c csr (some (delta n)) now =
    if n == 0 then reviewed_expiration c csr now else ok (now + n)

abbrev pub constraint : Option Bool → Bool
constraint none = false
constraint (some b) = b

-- `sign_csr`: the certificate, and its chain without the root.
unfoldable pub sign_csr : Ca → Csr → Option Expire → ℕ → Result (Cert × List Text)
unfolding expiration review_subjectalternative_name
sign_csr c csr expire now = do
  require c.ca value_error
  require c.private_key key_error
  not_after ← expiration c csr expire now
  dns_name ← review_subjectalternative_name c.kind csr
  ok (
    record {
      subject = csr.subject;
      issuer = c.common_name;
      public_key = csr.public_key;
      not_before = now;
      not_after = not_after;
      dns_name = dns_name;
      is_ca = constraint csr.basic_constraints;
    },
    (if c.is_root_cert then [] else c.common_name ∷ []) ++ c.cert_chain,
  )

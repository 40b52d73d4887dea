-- ===== src/Contract.antt =====
-- The data contract of a service and its signatures: `MessageSignature` of
-- byoda/util/message_signature.py, and `create_signature` and `verify_signature` of
-- byoda/datamodel/schema.py.
pub mod Messages
pub mod Signing
pub mod RoundTrip
pub mod Registry
pub mod Accepts
pub mod Outcomes
pub mod Registered
pub mod Later
pub mod Held
pub mod Forged
use byoda_python.Base.{
  ℕ, ◌≡◌, ◌≢◌, Bool, true, false, not, [], Option, none, some, Result, ok, raise, value_error,
  key_error, attribute_error, not_implemented, invalid_signature, ◌>>=◌, ◌>>◌, require, or_raise,
  if◌then◌else◌,
}
use byoda_python.Text.{Text, codes, text_eq}

pub data SignatureType : Type 0 where
  network service : SignatureType

-- The class of a secret, as `isinstance` tells it.
pub data SecretClass : Type 0 where
  service_data network_data other_secret : SecretClass

-- What is read of a data secret; `key` stands for its key pair.
pub record Secret : Type 0 where
  pub key : ℕ
  pub common_name : Text
  pub secret_class : SecretClass
  pub has_cert : Bool
  pub has_private_key : Bool

-- The dictionary of a signature, with the keys that are there.
pub record Fields : Type 0 where
  pub signature : Option Text
  pub hash_algorithm : Option Text
  pub timestamp : Option Text
  pub certificate : Option Text

-- The value at a key of `signatures`: None or an empty dictionary, or a dictionary that is not empty.
pub data Stored : Type 0 where
  empty : Stored
  fields : Fields → Stored

pub record Signatures : Type 0 where
  pub service : Option Stored
  pub network : Option Stored

-- The JSON schema. `is_complete` tells whether all of the name, owner, website, support email address,
-- description, CORS origins and `$id` are given; `body` is whatever it has beside the fields here.
pub record Json : Type 0 where
  pub service_id : ℕ
  pub version : ℕ
  pub is_complete : Bool
  pub body : Text
  pub signatures : Option Signatures

-- The packages for cryptography, base64 and JSON, and the timestamps of `datetime`. A signature depends
-- on a random salt; bytes are texts.
pub record Crypto : Type 0 where
  pub sign : ℕ → ℕ → Text → Text
  pub is_signature : ℕ → Text → Text → Bool
  pub b64encode : Text → Text
  pub b64decode : Text → Result Text
  pub isoformat : ℕ → Text
  pub fromisoformat : Text → Bool
  pub dumps : Json → Text
  pub is_signature-sign : (key salt : ℕ) (t : Text) → is_signature key t (sign key salt t) ≡ true
  pub sign-ne-nil : (key salt : ℕ) (t : Text) → sign key salt t ≢ []
  pub b64decode-encode : (t : Text) → b64decode (b64encode t) ≡ ok t
  pub fromisoformat-isoformat : (n : ℕ) → fromisoformat (isoformat n) ≡ true

-- What is read of a `MessageSignature`.
pub record MessageSignature : Type 0 where
  pub signature : Text
  pub data_secret : Option Secret
  pub certificate_cn : Text

-- `Schema`: its JSON schema, the signatures that are verified, and the secrets.
pub record Schema : Type 0 where
  pub json : Json
  pub service_verified : Bool
  pub network_verified : Bool
  pub service_data_secret : Option Secret
  pub network_data_secret : Option Secret

-- `Schema.__init__`
abbrev pub new_schema : Json → Result Schema
new_schema json = do
  require json.is_complete value_error
  ok (record {
    json = json;
    service_verified = false;
    network_verified = false;
    service_data_secret = none;
    network_data_secret = none;
  })

abbrev pub is_nil : Text → Bool
is_nil [] = true
is_nil _ = false

abbrev pub same_class : SecretClass → SecretClass → Bool
same_class SecretClass.service_data SecretClass.service_data = true
same_class SecretClass.network_data SecretClass.network_data = true
same_class _ _ = false

abbrev pub class_for : SignatureType → SecretClass
class_for SignatureType.network = SecretClass.network_data
class_for SignatureType.service = SecretClass.service_data

-- The signatures after a `pop`. That of the service is popped after that of the network.
abbrev pub popped : SignatureType → Signatures → Signatures
popped SignatureType.network s = record s { network = none }
popped SignatureType.service s = record { service = none; network = none }

abbrev pub with_signatures : Json → Signatures → Json
with_signatures json s = record json { signatures = some s }

abbrev pub is_truthy : Option Stored → Bool
is_truthy (some (Stored.fields f)) = true
is_truthy _ = false

abbrev pub signatures_of : Json → Signatures
signatures_of json = elim json.signatures [
  | none ↦ record { service = none; network = none }
  | some s ↦ s
]

abbrev pub is_free : SignatureType → Signatures → Bool
is_free SignatureType.service s = not (is_truthy s.service)
is_free SignatureType.network s = true

abbrev pub add_signature : SignatureType → Fields → Signatures → Signatures
add_signature SignatureType.service f s = record s { service = some (Stored.fields f) }
add_signature SignatureType.network f s = record s { network = some (Stored.fields f) }

abbrev pub or_own : Option Secret → Option Secret → Option Secret
or_own (some secret) own = if secret.has_cert then some secret else own
or_own none own = own

abbrev pub note_verified : SignatureType → Schema → Schema
note_verified SignatureType.service schema = record schema { service_verified = true }
note_verified SignatureType.network schema = record schema { network_verified = true }

-- The JSON schema is restored and the type noted, unless there was an exception.
abbrev pub restored : SignatureType → Schema → Json × Result (Unit {0}) → Schema × Result (Unit {0})
restored type schema (json, raise e) = (record schema { json = json }, raise e)
restored type schema (json, ok done) = (note_verified type schema, ok tt)

-- What is left of the JSON schema and the outcome, where a key must be there.
abbrev pub at_key :
    {A : Type 0} → Json → Option A → (A → Json × Result (Unit {0})) → Json × Result (Unit {0})
at_key json none check = (json, raise value_error)
at_key json (some a) check = check a

abbrev pub after_read :
    Json → Result MessageSignature → Json × Result (Unit {0}) → Json × Result (Unit {0})
after_read left (raise e) rest = (left, raise e)
after_read left (ok m) rest = rest

module _ (crypto : Crypto) where
  -- `MessageSignature.from_dict`
  unfoldable pub from_dict : Stored → Option Secret → Result MessageSignature
  from_dict Stored.empty data_secret = raise value_error
  from_dict (Stored.fields s) data_secret = do
    hash_algorithm ← or_raise key_error s.hash_algorithm
    require (text_eq hash_algorithm (codes "SHA256")) not_implemented
    base64_signature ← or_raise key_error s.signature
    signature ← crypto.b64decode base64_signature
    timestamp ← or_raise key_error s.timestamp
    require (crypto.fromisoformat timestamp) value_error
    certificate ← or_raise key_error s.certificate
    ok (record { signature = signature; data_secret = data_secret; certificate_cn = certificate })

  -- The secret and the common name after the first `if` of `verify_message`.
  abbrev pub checked_with : MessageSignature → Option Secret → MessageSignature
  checked_with s none = s
  checked_with s (some secret) = record s {
    data_secret = some secret;
    certificate_cn = secret.common_name;
  }

  -- `MessageSignature.verify_message`, with `DataSecret.verify_message_signature`
  unfoldable pub verify_message : MessageSignature → Text → Option Secret → Result (Unit {0})
  verify_message given message data_secret = do
    let s = checked_with given data_secret
    secret ← or_raise value_error s.data_secret
    require (text_eq s.certificate_cn secret.common_name) value_error
    require (not (is_nil s.signature)) value_error
    require secret.has_cert value_error
    require (crypto.is_signature secret.key message s.signature) invalid_signature

  -- `DataSecret.sign_message` for a message that is a text
  abbrev pub sign_message : Secret → ℕ → Text → Result Text
  sign_message secret salt message = do
    require secret.has_cert value_error
    require secret.has_private_key attribute_error
    ok (crypto.sign secret.key salt message)

  -- `as_dict` of a signature that was made at that time
  abbrev pub as_dict : Secret → ℕ → Text → Fields
  as_dict secret now signature = record {
    signature = some (crypto.b64encode signature);
    hash_algorithm = some (codes "SHA256");
    timestamp = some (crypto.isoformat now);
    certificate = some secret.common_name;
  }

  -- `Schema.create_signature` on the JSON schema, with the salt and the time of the signature
  unfoldable pub create_signature : Json → Secret → SignatureType → ℕ → ℕ → Result Json
  create_signature json secret type salt now = do
    let s = signatures_of json
    require (not (is_truthy s.network)) value_error
    require (is_free type s) value_error
    require (same_class secret.secret_class (class_for type)) value_error
    signature ← sign_message secret salt (crypto.dumps (with_signatures json s))
    ok (with_signatures json (add_signature type (as_dict secret now signature) s))

  -- What is left of the JSON schema, and what comes of the signature that was read from it.
  abbrev pub checked_as : Json → Result MessageSignature → Option Secret → Json × Result (Unit {0})
  checked_as json s secret = (json, s >>= λ m. verify_message m (crypto.dumps json) secret)

  abbrev pub check_network : Schema → Option Secret → Signatures → Json × Result (Unit {0})
  check_network schema secret s = at_key schema.json s.network λ stored.
      checked_as (with_signatures schema.json (popped SignatureType.network s))
        (from_dict stored schema.network_data_secret) secret

  abbrev pub check_own : Schema → Option Secret → Signatures → Stored → Json × Result (Unit {0})
  check_own schema secret s stored =
      let own = or_own secret schema.service_data_secret in
      checked_as (with_signatures schema.json (popped SignatureType.service s))
        (from_dict stored own) own

  -- The network's signature, if there is one, is read as well.
  abbrev pub check_service :
      Schema → Option Secret → Signatures → Stored → Option Stored → Json × Result (Unit {0})
  check_service schema secret s stored none = check_own schema secret s stored
  check_service schema secret s stored (some other) =
      after_read (with_signatures schema.json (popped SignatureType.network s))
        (from_dict other schema.network_data_secret) (check_own schema secret s stored)

  abbrev pub check_type :
      SignatureType → Schema → Option Secret → Signatures → Stored → Json × Result (Unit {0})
  check_type SignatureType.network schema secret s stored = check_network schema secret s
  check_type SignatureType.service schema secret s stored =
      check_service schema secret s stored s.network

  abbrev pub check_signatures : SignatureType → Schema → Option Secret → Json × Result (Unit {0})
  check_signatures type schema secret =
      at_key schema.json schema.json.signatures
        λ s. at_key schema.json s.service λ stored. check_type type schema secret s stored

  -- `Schema.verify_signature`
  unfoldable pub verify_signature :
      Schema → Option Secret → SignatureType → Schema × Result (Unit {0})
  verify_signature schema secret type = restored type schema (check_signatures type schema secret)

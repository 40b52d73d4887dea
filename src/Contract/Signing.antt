-- ===== src/Contract/Signing.antt =====
-- What the signatures of a data contract show that are verified.
use byoda_python.Base.{ℕ, ◌≡◌, refl, sym, ap, ◌∙◌, true, Option, none, some, Result, ok, raise}
use byoda_python.Text.{Text}
use byoda_python.Contract.{
  SignatureType, Secret, Fields, Stored, Signatures, Json, Crypto, MessageSignature, Schema, popped,
  with_signatures, from_dict, or_own, at_key, after_read, check_network, check_own, check_service,
  check_type, check_signatures, note_verified, restored, verify_signature,
}
use byoda_python.Contract.Messages.{IsRead, or_its, checked_lem}

abbrev pub stored_at : SignatureType → Signatures → Option Stored
stored_at SignatureType.network s = s.network
stored_at SignatureType.service s = s.service

-- The JSON schema has a signature of that type by that key, of what is left when it is popped.
pub record IsSigned (crypto : Crypto) (type : SignatureType) (key : ℕ) (json : Json) : Type 0 where
  pub signatures : Signatures
  pub are_signatures : json.signatures ≡ some signatures
  pub dictionary : Fields
  pub is_stored : stored_at type signatures ≡ some (Stored.fields dictionary)
  pub base64_signature : Text
  pub is_base64 : dictionary.signature ≡ some base64_signature
  pub signature : Text
  pub is_decoded : crypto.b64decode base64_signature ≡ ok signature
  pub is_signature :
      crypto.is_signature key
        (crypto.dumps (with_signatures json (popped type signatures)))
        signature
      ≡ true

-- The secret that a signature is verified with.
abbrev pub used_for : SignatureType → Schema → Option Secret → Option Secret
used_for SignatureType.service schema secret = or_own secret schema.service_data_secret
used_for SignatureType.network schema none = schema.network_data_secret
used_for SignatureType.network schema (some secret) = some secret

at_key-ok :
    {A : Type 0} (json : Json) (o : Option A) (check : A → Json × Result (Unit {0}))
    → (at_key json o check).1 ≡ ok tt
    → (a : A) × (o ≡ some a) × ((check a).1 ≡ ok tt)
at_key-ok json none check h = absurd (cc)
at_key-ok json (some a) check h = (a, refl, h)

after_read-ok :
    (left : Json) (r : Result MessageSignature) (rest : Json × Result (Unit {0}))
    → (after_read left r rest).1 ≡ ok tt
    → rest.1 ≡ ok tt
after_read-ok left (raise e) rest h = absurd (cc)
after_read-ok left (ok m) rest h = h

module _ (crypto : Crypto) where
  read-IsSigned :
      (type : SignatureType) (json : Json) (s : Signatures) (stored : Stored) (key : ℕ)
      → json.signatures ≡ some s
      → stored_at type s ≡ some stored
      → IsRead crypto stored key (crypto.dumps (with_signatures json (popped type s)))
      → IsSigned crypto type key json
  read-IsSigned type json s stored key here at_type read = record {
    signatures = s;
    are_signatures = here;
    dictionary = read.dictionary;
    is_stored = at_type ∙ ap some read.is_stored;
    base64_signature = read.base64_signature;
    is_base64 = read.is_base64;
    signature = read.signature;
    is_decoded = read.is_decoded;
    is_signature = read.is_signature;
  }

  -- The signature of that type was verified, by the secret for it.
  abbrev pub IsVerified : SignatureType → Schema → Option Secret → Type 0
  IsVerified type schema given =
      (secret : Secret) × (used_for type schema given ≡ some secret)
      × IsSigned crypto type secret.key schema.json

  or_its_same : (o : Option Secret) {s : Secret} → or_its crypto o o ≡ some s → o ≡ some s
  or_its_same none h = h
  or_its_same (some secret) h = h

  used_network :
      (schema : Schema) (given : Option Secret)
      → or_its crypto given schema.network_data_secret ≡ used_for SignatureType.network schema given
  used_network schema none = refl
  used_network schema (some secret) = refl

  check_network-IsVerified :
      (schema : Schema) (given : Option Secret) (s : Signatures)
      → schema.json.signatures ≡ some s
      → (check_network crypto schema given s).1 ≡ ok tt
      → IsVerified SignatureType.network schema given
  check_network-IsVerified schema given s here h =
      let (stored, at_network, checked) = at_key-ok schema.json s.network _ h in
      let (secret, used, read) =
        checked_lem crypto stored schema.network_data_secret given
          (with_signatures schema.json (popped SignatureType.network s)) checked in
      (
        secret,
        sym (used_network schema given) ∙ used,
        read-IsSigned SignatureType.network schema.json s stored secret.key here at_network read,
      )

  check_own-IsVerified :
      (schema : Schema) (given : Option Secret) (s : Signatures) (stored : Stored)
      → schema.json.signatures ≡ some s
      → s.service ≡ some stored
      → (check_own crypto schema given s stored).1 ≡ ok tt
      → IsVerified SignatureType.service schema given
  check_own-IsVerified schema given s stored here at_service h =
      let own = or_own given schema.service_data_secret in
      let (secret, used, read) =
        checked_lem crypto stored own own
          (with_signatures schema.json (popped SignatureType.service s)) h in
      (
        secret,
        or_its_same own used,
        read-IsSigned SignatureType.service schema.json s stored secret.key here at_service read,
      )

  check_type-IsVerified :
      (type : SignatureType) (schema : Schema) (given : Option Secret) (s : Signatures)
      (stored : Stored)
      → schema.json.signatures ≡ some s
      → s.service ≡ some stored
      → (check_type crypto type schema given s stored).1 ≡ ok tt
      → IsVerified type schema given
  check_type-IsVerified SignatureType.network schema given s stored here at_service h =
      check_network-IsVerified schema given s here h
  check_type-IsVerified SignatureType.service schema given s stored here at_service h =
      check_own-IsVerified schema given s stored here at_service (own_checked s.network h)
    where
      own_checked :
          (o : Option Stored)
          → (check_service crypto schema given s stored o).1 ≡ ok tt
          → (check_own crypto schema given s stored).1 ≡ ok tt
      own_checked none h = h
      own_checked (some other) h =
          after_read-ok _ (from_dict crypto other schema.network_data_secret) _ h

  check_signatures-IsVerified :
      (type : SignatureType) (schema : Schema) (given : Option Secret)
      → (check_signatures crypto type schema given).1 ≡ ok tt
      → IsVerified type schema given
  check_signatures-IsVerified type schema given h =
      let (s, here, at_s) = at_key-ok schema.json schema.json.signatures _ h in
      let (stored, at_service, checked) = at_key-ok schema.json s.service _ at_s in
      check_type-IsVerified type schema given s stored here at_service checked

  restored-ok :
      (type : SignatureType) (schema after : Schema) (r : Json × Result (Unit {0}))
      → restored type schema r ≡ (after, ok tt)
      → (r.1 ≡ ok tt) × (after ≡ note_verified type schema)
  restored-ok type schema after (json, ok done) h = (refl, sym (ap (λ p. p.0) h))
  restored-ok type schema after (json, raise e) h = absurd (cc)

  -- If a signature is verified, then the JSON schema has a signature of that type which is good, by the
  -- secret that is used for it, for the JSON schema without it (and without the network's); and nothing
  -- has changed but the note that the signature is verified.
  pub verify_signature-IsVerified :
      (type : SignatureType) (schema after : Schema) (given : Option Secret)
      → verify_signature crypto schema given type ≡ (after, ok tt)
      → IsVerified type schema given × (after ≡ note_verified type schema)
  unfolding verify_signature
  verify_signature-IsVerified type schema after given h =
      let (good, same) =
        restored-ok type schema after (check_signatures crypto type schema given) h in
      (check_signatures-IsVerified type schema given good, same)

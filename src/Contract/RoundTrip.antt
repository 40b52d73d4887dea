-- ===== src/Contract/RoundTrip.antt =====
-- A data contract that a service and then the network have signed is verified for both.
use byoda_python.Base.{ℕ, ◌≡◌, ◌≢◌, refl, true, false, [], ◌∷◌, Option, none, some, ok, ◌>>=◌}
use byoda_python.Text.{Text, codes}
use byoda_python.Text.Laws.{text_eq_refl}
use byoda_python.Contract.{
  SignatureType, class_for, Secret, Stored, Signatures, Json, Crypto, Schema, is_nil,
  with_signatures, from_dict, verify_message, as_dict, signatures_of, create_signature,
  add_signature, is_truthy, is_free, note_verified, verify_signature, or_own,
}

-- The secret can make a signature of that type.
pub record IsReady (type : SignatureType) (secret : Secret) : Type 0 where
  pub is_class : secret.secret_class ≡ class_for type
  pub has_cert : secret.has_cert ≡ true
  pub has_private_key : secret.has_private_key ≡ true

abbrev pub no_signatures : Signatures
no_signatures = record { service = none; network = none }

or_own_ready :
    (secret : Secret) (own : Option Secret)
    → secret.has_cert ≡ true
    → or_own (some secret) own ≡ some secret
or_own_ready secret own h = rw h refl

is_nil-nonempty : (t : Text) → t ≢ [] → is_nil t ≡ false
is_nil-nonempty [] h = absurd (h refl)
is_nil-nonempty (c ∷ t) h = refl

module _ (crypto : Crypto) where
  -- The signature, and the dictionary that is made of it.
  bytes_of : Json → Secret → ℕ → Signatures → Text
  bytes_of json secret salt s = crypto.sign secret.key salt (crypto.dumps (with_signatures json s))

  abbrev made : Json → Secret → SignatureType → ℕ → ℕ → Signatures → Signatures
  made json secret type salt now s =
      add_signature type (as_dict crypto secret now (bytes_of json secret salt s)) s

  create_signature_ready :
      (json : Json) (secret : Secret) (type : SignatureType) (salt now : ℕ)
      → (s : Signatures) → signatures_of json ≡ s
      → IsReady type secret
      → is_truthy s.network ≡ false
      → is_free type s ≡ true
      → create_signature crypto json secret type salt now
        ≡ ok (with_signatures json (made json secret type salt now s))
  unfolding create_signature bytes_of
  create_signature_ready json secret SignatureType.network salt now s is_s ready free own =
      rw (is_s, free, ready.is_class, ready.has_cert, ready.has_private_key) refl
  create_signature_ready json secret SignatureType.service salt now s is_s ready free own =
      rw (is_s, free, own, ready.is_class, ready.has_cert, ready.has_private_key) refl

  from_dict-as_dict :
      (secret : Secret) (now : ℕ) (bytes : Text) (own : Option Secret)
      → from_dict crypto (Stored.fields (as_dict crypto secret now bytes)) own
        ≡ ok (record { signature = bytes; data_secret = own; certificate_cn = secret.common_name })
  unfolding from_dict
  from_dict-as_dict secret now bytes own =
      rw
        (
          text_eq_refl (codes "SHA256"),
          crypto.b64decode-encode bytes,
          crypto.fromisoformat-isoformat now,
        )
        refl

  verify_message-sign :
      (secret : Secret) (salt : ℕ) (message : Text) (own : Option Secret)
      → secret.has_cert ≡ true
      → verify_message crypto
          (record {
            signature = crypto.sign secret.key salt message;
            data_secret = own;
            certificate_cn = secret.common_name;
          })
          message
          (some secret)
        ≡ ok tt
  unfolding verify_message
  verify_message-sign secret salt message own has_cert =
      rw
        (
          text_eq_refl secret.common_name,
          is_nil-nonempty _ (crypto.sign-ne-nil secret.key salt message),
          has_cert,
          crypto.is_signature-sign secret.key salt message,
        )
        refl

  abbrev once : Json → Secret → ℕ → ℕ → Signatures
  once json service salt now = made json service SignatureType.service salt now no_signatures

  -- The contract with both signatures.
  abbrev twice : Json → Secret → Secret → ℕ → ℕ → ℕ → ℕ → Json
  twice json service network salt now later_salt later =
      let s = once json service salt now in
      with_signatures (with_signatures json s)
        (made (with_signatures json s) network SignatureType.network later_salt later s)

  verify_service :
      (json : Json) (schema : Schema) (service network : Secret) (salt now later_salt later : ℕ)
      → IsReady SignatureType.service service
      → let both = record schema { json = twice json service network salt now later_salt later } in
        verify_signature crypto both (some service) SignatureType.service
        ≡ (note_verified SignatureType.service both, ok tt)
  unfolding verify_signature bytes_of
  verify_service json schema service network salt now later_salt later ready =
      rw
        (
          from_dict-as_dict network later
              (bytes_of (with_signatures json (once json service salt now)) network later_salt
                (once json service salt now))
              schema.network_data_secret,
          or_own_ready service schema.service_data_secret ready.has_cert,
          from_dict-as_dict service now (bytes_of json service salt no_signatures) (some service),
          verify_message-sign service salt (crypto.dumps (with_signatures json no_signatures))
              (some service) ready.has_cert,
        )
        refl

  verify_network :
      (json : Json) (schema : Schema) (service network : Secret) (salt now later_salt later : ℕ)
      → IsReady SignatureType.network network
      → let both = record schema { json = twice json service network salt now later_salt later } in
        verify_signature crypto both (some network) SignatureType.network
        ≡ (note_verified SignatureType.network both, ok tt)
  unfolding verify_signature bytes_of
  verify_network json schema service network salt now later_salt later ready =
      rw
        (
          from_dict-as_dict network later
              (bytes_of (with_signatures json (once json service salt now)) network later_salt
                (once json service salt now))
              schema.network_data_secret,
          verify_message-sign network later_salt
              (crypto.dumps (
                with_signatures (with_signatures json (once json service salt now))
                  (once json service salt now)))
              schema.network_data_secret ready.has_cert,
        )
        refl

  -- A contract without signatures can be signed by its service and then by the network; and then each of
  -- the two signatures is verified, with its secret, without a change to the contract.
  pub create_signature-verify_signature :
      (json : Json) (schema : Schema) (service network : Secret) (salt now later_salt later : ℕ)
      → signatures_of json ≡ no_signatures
      → IsReady SignatureType.service service
      → IsReady SignatureType.network network
      → (both : Json) × ((create_signature crypto json service SignatureType.service salt now
            >>= λ once. create_signature crypto once network SignatureType.network later_salt later)
          ≡ ok both)
        × (verify_signature crypto
              (record schema { json = both })
              (some service)
              SignatureType.service
            ≡ (note_verified SignatureType.service (record schema { json = both }), ok tt))
        × (verify_signature crypto
              (record schema { json = both })
              (some network)
              SignatureType.network
            ≡ (note_verified SignatureType.network (record schema { json = both }), ok tt))
  create_signature-verify_signature json schema service network salt now later_salt later fresh
        by_service by_network =
      (
        twice json service network salt now later_salt later,
        rw
            (create_signature_ready json service SignatureType.service salt now no_signatures fresh
              by_service refl refl)
            (create_signature_ready (with_signatures json (once json service salt now)) network
              SignatureType.network later_salt later (once json service salt now) refl by_network
              refl refl),
        verify_service json schema service network salt now later_salt later by_service,
        verify_network json schema service network salt now later_salt later by_network,
      )

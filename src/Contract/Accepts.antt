-- ===== src/Contract/Accepts.antt =====
-- What the outcome is when a directory server accepts a data contract.
use byoda_python.Base.{
  ℕ, ◌≤◌, ◌≡◌, refl, ap, subst, ◌∙◌, Bool, true, false, not, ◌∷◌, Option, none, some, Result,
  Exception, ok, raise, ◌==◌, if◌then◌else◌, arith, Returns, Returns-require, Returns-raise,
  Returns-call, Returns-ok, require, ◌>>◌, value_error, attribute_error, suc,
}
use byoda_python.Text.{Text}
use byoda_python.Contract.{
  SignatureType, SecretClass, same_class, sign_message, Secret, Stored, Signatures, Json, Crypto,
  Schema, with_signatures, as_dict, is_truthy, create_signature,
}
use byoda_python.Contract.Signing.{IsSigned}
use byoda_python.Contract.Registry.{
  Service, Directory, ReviewStatus, ReviewError, Response, reject, Patch, put, is_old,
}

-- The version of a service's schema, counted from one; zero if it has none.
abbrev pub version_of : Option Schema → ℕ
version_of none = 0
version_of (some schema) = suc schema.json.version

abbrev pub version_in : Option Service → ℕ
version_in none = 0
version_in (some service) = version_of service.schema

-- What holds of the directory if the outcome is that the schema is accepted.
pub record Accepts (P : Directory → Type 0) (r : Directory × Result Response) : Type 0 where
  pub at :
      (after : Directory) (response : Response)
      → r ≡ (after, ok response)
      → response.status ≡ ReviewStatus.accepted
      → P after

module _ {P : Directory → Type 0} where
  pub Accepts-raise : (d : Directory) (e : Exception) → Accepts P (d, raise e)
  Accepts-raise d e = record { at = λ after response h good. absurd (cc) }

  pub Accepts-reject :
      (d : Directory) (e : ReviewError) (r : Response) → Accepts P (d, ok (reject e r))
  Accepts-reject d e r = record { at = λ after response h good. absurd (cc) }

  pub Accepts-ok : (d : Directory) (r : Response) → P d → Accepts P (d, ok r)
  Accepts-ok d r h = record { at = λ after response e good. subst P (ap (λ q. q.0) e) h }

  pub Accepts-if :
      (b : Bool) (x y : Directory × Result Response)
      → (b ≡ true → Accepts P x)
      → (b ≡ false → Accepts P y)
      → Accepts P (if b then x else y)
  Accepts-if true x y on_true on_false = on_true refl
  Accepts-if false x y on_true on_false = on_false refl

pub Accepts-map :
    {P Q : Directory → Type 0} {x : Directory × Result Response}
    → ((after : Directory) → P after → Q after)
    → Accepts P x
    → Accepts Q x
Accepts-map f h = record { at = λ after response e good. f after (h.at after response e good) }

pub version_of-is_old :
    (o : Option Schema) (json : Json) → is_old o json ≡ false → version_of o ≤ json.version
version_of-is_old none json h = omega arith
version_of-is_old (some schema) json h = ground arith

module _ (crypto : Crypto) where
  sign_message_lem :
      (secret : Secret) (salt : ℕ) (message : Text)
      → Returns
          (λ t. crypto.is_signature secret.key message t ≡ true)
          (sign_message crypto secret salt message)
  sign_message_lem secret salt message = by_flags secret.has_cert secret.has_private_key
    where
      by_flags :
          (a b : Bool)
          → Returns
              (λ t. crypto.is_signature secret.key message t ≡ true)
              (require a value_error
                >> (require b attribute_error >> ok (crypto.sign secret.key salt message)))
      by_flags true true =
          Returns-ok (crypto.sign secret.key salt message)
            (crypto.is_signature-sign secret.key salt message)
      by_flags true false = Returns-raise attribute_error
      by_flags false b = Returns-raise value_error

  -- A signature by the network is one of the contract as it was.
  pub create_signature-network :
      (json : Json) (s : Signatures) (secret : Secret) (salt now : ℕ)
      → Returns
          (λ (signed : Json).
            (bytes : Text) × (crypto.is_signature secret.key
                (crypto.dumps (with_signatures json s))
                bytes
              ≡ true)
            × (signed
                ≡ with_signatures json (record s {
                  network = some (Stored.fields (as_dict crypto secret now bytes));
                })))
          (create_signature crypto (with_signatures json s) secret SignatureType.network salt now)
  unfolding create_signature
  create_signature-network json s secret salt now =
      Returns-require (not (is_truthy s.network)) value_error _ λ free.
        Returns-require (same_class secret.secret_class SecretClass.network_data) value_error _
          λ is_class.
            Returns-call (sign_message crypto secret salt (crypto.dumps (with_signatures json s))) _
              (sign_message_lem secret salt (crypto.dumps (with_signatures json s)))
              λ bytes good. Returns-ok _ (bytes, good, refl)

  module _ (p : Patch) where
    -- The contract is signed by the network and written, and is the schema of the service, which has that
    -- data secret; nothing else changes.
    pub record IsPublished (secret : Secret) (d after : Directory) : Type 0 where
      pub bytes : Text
      pub by_network :
          crypto.is_signature d.data_secret.key
            (crypto.dumps (with_signatures p.json p.signatures))
            bytes
          ≡ true
      pub schema : Schema
      pub is_signed :
          schema.json
          ≡ with_signatures p.json (record p.signatures {
            network = some (Stored.fields (as_dict crypto d.data_secret p.now bytes));
          })
      pub is_saved : after.saved ≡ (p.service_id, schema.json) ∷ d.saved
      pub services :
          (m : ℕ)
          → after.services m ≡ (
              if p.service_id == m
              then some (record { schema = some schema; data_secret = some secret })
              else d.services m)

    pub IsPublished-put :
        (secret : Secret) (service : Service) (d after : Directory)
        → IsPublished secret (put p.service_id service d) after
        → IsPublished secret d after
    IsPublished-put secret service d after h = record {
      bytes = h.bytes;
      by_network = h.by_network;
      schema = h.schema;
      is_signed = h.is_signed;
      is_saved = h.is_saved;
      services = λ m. h.services m ∙ once (p.service_id == m) _ (some service) (d.services m);
    }
      where
        once :
            (b : Bool) (x y z : Option Service)
            → (if b then x else (if b then y else z)) ≡ (if b then x else z)
        once true x y z = refl
        once false x y z = refl

    -- The network signs what the service has signed.
    abbrev pub IsNetworkSigned : Directory → Json → Type 0
    IsNetworkSigned d signed =
        (bytes : Text) × (crypto.is_signature d.data_secret.key
            (crypto.dumps (with_signatures p.json p.signatures)) bytes
          ≡ true)
        × (signed
            ≡ with_signatures p.json (record p.signatures {
              network = some (Stored.fields (as_dict crypto d.data_secret p.now bytes));
            }))

    -- What is accepted, and that the service's data secret has signed what was submitted.
    pub record IsTaken (d after : Directory) : Type 0 where
      pub secret : Secret
      pub by_service :
          IsSigned crypto SignatureType.service secret.key (with_signatures p.json p.signatures)
      pub published : IsPublished secret d after

    pub IsTaken-put :
        (service : Service) (d after : Directory)
        → IsTaken (put p.service_id service d) after
        → IsTaken d after
    IsTaken-put service d after h = record {
      secret = h.secret;
      by_service = h.by_service;
      published = IsPublished-put h.secret service d after h.published;
    }

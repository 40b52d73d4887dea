-- ===== src/Contract/Later.antt =====
-- What a request makes of the schemas in memory, from the data secret of a service on.
use byoda_python.Base.{
  ℕ, ◌≤◌, ◌≡◌, refl, sym, ap, subst, ◌∙◌, Option, none, some, Result, ok, raise, invalid_signature,
  ◌==◌, Bool-cases, inl, inr, arith, Returns,
}
use byoda_python.Contract.{
  SignatureType, Secret, Stored, Json, Crypto, Schema, with_signatures, create_signature,
}
use byoda_python.Contract.Signing.{IsSigned}
use byoda_python.Contract.Accepts.{
  version_of, version_in, create_signature-network, IsNetworkSigned,
}
use byoda_python.Contract.Outcomes.{verified_lem}
use byoda_python.Contract.Registry.{
  Service, Directory, Storage, Response, Patch, put, held_or_loaded, unloaded, save, publish,
  on_verified, on_secret,
}

-- A service in memory has no schema, or one with its id that its data secret has signed.
pub data IsHeld (crypto : Crypto) (n : ℕ) : Option Service → Type 0 where
  absent : IsHeld crypto n none
  unsigned : (service : Service) → service.schema ≡ none → IsHeld crypto n (some service)
  signed :
      (service : Service) (schema : Schema) (secret : Secret)
      → service.schema ≡ some schema
      → service.data_secret ≡ some secret
      → schema.json.service_id ≡ n
      → IsSigned crypto SignatureType.service secret.key schema.json
      → IsHeld crypto n (some service)

-- The service id and the signature of what is submitted.
record IsSubmitted (crypto : Crypto) (p : Patch) (secret : Secret) : Type 0 where
  is_for : p.json.service_id ≡ p.service_id
  is_signed : IsSigned crypto SignatureType.service secret.key (with_signatures p.json p.signatures)

-- From one state of a directory to another, the versions in memory do not decrease; and all that is in
-- memory is held as it should be.
pub record IsLater (crypto : Crypto) (d e : Directory) : Type 0 where
  pub grows : (m : ℕ) → version_in (d.services m) ≤ version_in (e.services m)
  pub holds : (m : ℕ) → IsHeld crypto m (e.services m)

-- The service's signature stays when the network signs.
IsSigned-network :
    (crypto : Crypto) (p : Patch) (d : Directory) (key : ℕ) (json : Json)
    → IsSigned crypto SignatureType.service key (with_signatures p.json p.signatures)
    → IsNetworkSigned crypto p d json
    → IsSigned crypto SignatureType.service key json
IsSigned-network crypto p d key json h (bytes, by_network, is_json) =
    subst (IsSigned crypto SignatureType.service key) (sym is_json) (record {
      signatures = record p.signatures { network = some (Stored.fields _) };
      are_signatures = refl;
      dictionary = h.dictionary;
      is_stored = ap (λ s. s.service) (some-injective h.are_signatures) ∙ h.is_stored;
      base64_signature = h.base64_signature;
      is_base64 = h.is_base64;
      signature = h.signature;
      is_decoded = h.is_decoded;
      is_signature = h.is_signature;
    })
  where
    some-injective : {A : Type 0} {a b : A} → some a ≡ some b → a ≡ b
    some-injective e = cc

module _ (crypto : Crypto) (storage : Storage) (p : Patch) (d : Directory) where
  pub put-IsLater :
      (e : Directory) (service : Service)
      → IsLater crypto d e
      → version_in (d.services p.service_id) ≤ version_of service.schema
      → IsHeld crypto p.service_id (some service)
      → IsLater crypto d (put p.service_id service e)
  put-IsLater e service h grows holds = record {
    grows = λ m. elim (Bool-cases (p.service_id == m)) [
      | inl same ↦
          let is_m : p.service_id ≡ m = ground arith in
          rw same (subst (λ n. version_in (d.services n) ≤ version_of service.schema) is_m grows)
      | inr other ↦ rw other (h.grows m)
    ];
    holds = λ m. elim (Bool-cases (p.service_id == m)) [
      | inl same ↦
          let is_m : p.service_id ≡ m = ground arith in
          rw same (subst (λ n. IsHeld crypto n (some service)) is_m holds)
      | inr other ↦ rw other (h.holds m)
    ];
  }

  no_schema :
      (service : Service)
      → IsHeld crypto p.service_id (some service)
      → service.data_secret ≡ none
      → service.schema ≡ none
  no_schema service (IsHeld.unsigned _ h) e = h
  no_schema service (IsHeld.signed _ schema secret h has_secret is_for is_signed) e = absurd (cc)

  save-IsLater :
      (e : Directory) (json : Json)
      → IsLater crypto d e
      → IsLater crypto d (save crypto storage p e json)
  save-IsLater e json h = record { grows = h.grows; holds = h.holds }

  module _ (r : Response) (older : version_in (d.services p.service_id) ≤ p.json.version) where
    schema-IsLater :
        (e : Directory) (service : Service) (schema : Schema) (secret : Secret)
        → IsLater crypto d e
        → service.data_secret ≡ some secret
        → schema.json.service_id ≡ p.service_id
        → schema.json.version ≡ p.json.version
        → IsSigned crypto SignatureType.service secret.key schema.json
        → IsLater crypto d (put p.service_id (record service { schema = some schema }) e)
    schema-IsLater e service schema secret h has_secret is_for is_version is_signed =
        put-IsLater e (record service { schema = some schema }) h (omega arith)
          (IsHeld.signed _ schema secret refl has_secret is_for is_signed)

    publish-IsLater :
        (e : Directory) (service : Service) (schema : Schema) (secret : Secret)
        (signed : Result Json)
        → IsLater crypto d e
        → service.data_secret ≡ some secret
        → IsSubmitted crypto p secret
        → schema.json ≡ with_signatures p.json p.signatures
        → Returns (IsNetworkSigned crypto p e) signed
        → IsLater crypto d (publish crypto storage p e service schema r signed).0
    publish-IsLater e service schema secret (raise x) h has_secret submitted is_json network =
        schema-IsLater e service schema secret h has_secret
          (ap (λ j. j.service_id) is_json ∙ submitted.is_for) (ap (λ j. j.version) is_json)
          (subst (IsSigned crypto SignatureType.service secret.key) (sym is_json)
            submitted.is_signed)
    publish-IsLater e service schema secret (ok json) h has_secret submitted is_json network =
        let (bytes, by_network, is_signed) = network.at json refl in
        save-IsLater _ json (
          schema-IsLater e service (record schema { json = json }) secret h has_secret
            (ap (λ j. j.service_id) is_signed ∙ submitted.is_for) (ap (λ j. j.version) is_signed)
            (IsSigned-network crypto p e secret.key json submitted.is_signed
              (bytes, by_network, is_signed)))

    on_verified-IsLater :
        (e : Directory) (service : Service) (secret : Secret) (out : Schema × Result (Unit {0}))
        → IsLater crypto d e
        → service.data_secret ≡ some secret
        → (out.1 ≡ ok tt
            → IsSubmitted crypto p secret × (out.0.json ≡ with_signatures p.json p.signatures))
        → IsLater crypto d (on_verified crypto storage p e service r out).0
    on_verified-IsLater e service secret (schema, ok done) h has_secret checked =
        let (submitted, is_json) = checked refl in
        publish-IsLater e service schema secret _ h has_secret submitted is_json (
          subst
            (λ j.
              Returns (IsNetworkSigned crypto p e)
                (create_signature crypto j e.data_secret SignatureType.network p.salt p.now))
            (sym is_json)
            (create_signature-network crypto p.json p.signatures e.data_secret p.salt p.now))
    on_verified-IsLater e service secret (schema, raise invalid_signature) h has_secret checked = h
    on_verified-IsLater e service secret (schema, raise _) h has_secret checked = h

    pub on_secret-IsLater :
        (e : Directory) (schema : Schema) (service : Service) (o : Option Secret)
        (from_file : Result Secret)
        → IsLater crypto d e
        → p.json.service_id ≡ p.service_id
        → schema.json ≡ with_signatures p.json p.signatures
        → schema.service_data_secret ≡ none
        → version_in (d.services p.service_id) ≤ version_of service.schema
        → IsHeld crypto p.service_id (some service)
        → service.data_secret ≡ o
        → IsLater crypto d
            (on_secret crypto storage p e schema r (held_or_loaded service o from_file)).0
    on_secret-IsLater e schema service (some secret) from_file h is_for is_json fresh grows held
          has_secret =
        on_verified-IsLater (put p.service_id service e) service secret _
          (put-IsLater e service h grows held) has_secret
          λ checked.
            let (is_signed, same) =
              verified_lem crypto p storage r schema secret is_json fresh checked in
            (record { is_for = is_for; is_signed = is_signed }, same)
    on_secret-IsLater e schema service none (raise x) h is_for is_json fresh grows held no_secret =
        put-IsLater e (record service { data_secret = some unloaded }) h grows
          (IsHeld.unsigned _ (no_schema service held no_secret))
    on_secret-IsLater e schema service none (ok secret) h is_for is_json fresh grows held
          no_secret =
        let with_secret : Service = record service { data_secret = some secret } in
        on_verified-IsLater (put p.service_id with_secret e) with_secret secret _
          (put-IsLater e with_secret h grows (IsHeld.unsigned _ (no_schema service held no_secret)))
          refl
          λ checked.
            let (is_signed, same) =
              verified_lem crypto p storage r schema secret is_json fresh checked in
            (record { is_for = is_for; is_signed = is_signed }, same)

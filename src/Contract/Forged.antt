-- ===== src/Contract/Forged.antt =====
-- A schema that comes with a network signature of its own.
use byoda_python.Base.{
  ◌≡◌, refl, ap, arith, ◌>>=◌, sym, subst, require, ◌>>◌, if◌then◌else◌, Bool, not, ◌∙◌, true,
  false, none, some, Result, ok, raise, value_error, ◌==◌, ==_refl,
}
use byoda_python.Jwt.{PyJwt}
use byoda_python.RequestAuth.{RequestAuth}
use byoda_python.RequestAuth.Tokens.{Pod}
use byoda_python.RequestAuth.Requests.{same_service_id}
use byoda_python.RequestAuth.Servers.{Dependency, authenticate_server}
use byoda_python.Contract.{
  SignatureType, Secret, Fields, Stored, Crypto, Schema, with_signatures, create_signature,
  verify_signature,
}
use byoda_python.Contract.Signing.{verify_signature-IsVerified}
use byoda_python.Contract.Registry.{
  Service, Directory, Storage, Response, Patch, put, held_or_loaded, is_old, on_secret, on_verified,
  on_found, on_schema, on_reviewed, review_service_signature, review_network_signature,
  found_or_new, has_text, no_errors, reject, ReviewError, review_signatures, find_service, patch_as,
  patch_service,
}

-- The schema as it is before its signatures are verified.
abbrev pub unverified : Patch → Schema
unverified p = record {
  json = with_signatures p.json p.signatures;
  service_verified = false;
  network_verified = false;
  service_data_secret = none;
  network_data_secret = none;
}

if_true : {A : Type 0} (b : Bool) (x y : A) → b ≡ true → (if b then x else y) ≡ x
if_true true x y h = refl
if_true false x y h = absurd (cc)

if_not : {A : Type 0} (b : Bool) (x y : A) → b ≡ true → (if not b then x else y) ≡ y
if_not true x y h = refl
if_not false x y h = absurd (cc)

module _ (crypto : Crypto) (storage : Storage) (p : Patch) (d : Directory) where
  -- No signature is made for a schema that has one by the network.
  create_signature-refuses :
      (forged : Fields)
      → p.signatures.network ≡ some (Stored.fields forged)
      → create_signature crypto
          (with_signatures p.json p.signatures)
          d.data_secret
          SignatureType.network
          p.salt
          p.now
        ≡ raise value_error
  unfolding create_signature
  create_signature-refuses forged is_forged = rw is_forged refl

  on_verified_forged :
      (e : Directory) (service : Service) (r : Response) (out : Schema × Result (Unit {0}))
      (forged : Fields)
      → p.signatures.network ≡ some (Stored.fields forged)
      → out.1 ≡ ok tt
      → out.0.json ≡ with_signatures p.json p.signatures
      → e.data_secret ≡ d.data_secret
      → on_verified crypto storage p e service r out
        ≡ (put p.service_id (record service { schema = some out.0 }) e, raise value_error)
  on_verified_forged e service r out forged is_forged verified same is_key =
      rw (verified, same, is_key, create_signature-refuses forged is_forged) refl

  on_found_forged :
      (service : Service) (secret : Secret) (checked : Schema) (r : Response) (forged : Fields)
      → service.data_secret ≡ some secret
      → is_old service.schema p.json ≡ false
      → p.json.is_complete ≡ true
      → p.signatures.network ≡ some (Stored.fields forged)
      → verify_signature crypto (unverified p) (some secret) SignatureType.service
        ≡ (checked, ok tt)
      → checked.json ≡ with_signatures p.json p.signatures
      → on_found crypto storage p r (d, some service) ≡ (
        put p.service_id (record service { schema = some checked }) (put p.service_id service d),
        raise value_error,
      )
  on_found_forged service secret checked r forged has_secret newer complete is_forged verified
        same =
      rw newer (
        ap
          (λ b. on_schema crypto storage p d service r (require b value_error >> ok (unverified p)))
          complete
        ∙ (ap (on_secret crypto storage p d (unverified p) r) (
              ap (λ o. held_or_loaded service o (storage.load_data_secret p.service_id)) has_secret)
            ∙ (ap (on_verified crypto storage p (put p.service_id service d) service r) verified
                ∙ on_verified_forged (put p.service_id service d) service r (checked, ok tt) forged
                    is_forged refl same refl)))

  -- What an authenticated service's request comes to, if its signatures pass their review.
  patch_as_reviewed :
      (auth : RequestAuth) (r : Response)
      → same_service_id auth.service_id p.service_id ≡ true
      → p.json.service_id ≡ p.service_id
      → review_signatures crypto storage p ≡ ok r
      → patch_as crypto storage p d (ok auth)
        ≡ on_found crypto storage p r (find_service storage d p.service_id)
  patch_as_reviewed auth r own is_for reviewed =
      if_not (same_service_id auth.service_id p.service_id) _ _ own
      ∙ (if_not (p.service_id == p.json.service_id) _ _ (ground arith)
          ∙ (ap (on_reviewed crypto storage p d auth) reviewed
              ∙ if_true (same_service_id auth.service_id p.json.service_id) _ _
                  (subst (λ n. same_service_id auth.service_id n ≡ true) (sym is_for) own)))

  -- If a service's client sends a newer schema that the service's data secret has signed, and that
  -- has a network signature already, whoever has made that, then the request ends with a ValueError;
  -- but the schema in memory is then the one that was sent, with that network signature.
  pub patch_service-keeps_forged :
      (py_jwt : PyJwt) (server : Pod) (auth : RequestAuth) (service : Service) (secret : Secret)
      (checked : Schema) (signed forged : Fields)
      → authenticate_server py_jwt server none (Dependency.service false) p.headers ≡ ok auth
      → same_service_id auth.service_id p.service_id ≡ true
      → p.json.service_id ≡ p.service_id
      → d.services p.service_id ≡ some service
      → service.data_secret ≡ some secret
      → is_old service.schema p.json ≡ false
      → p.json.is_complete ≡ true
      → p.signatures.service ≡ some (Stored.fields signed)
      → p.signatures.network ≡ some (Stored.fields forged)
      → verify_signature crypto (unverified p) (some secret) SignatureType.service
        ≡ (checked, ok tt)
      → ((patch_service crypto storage p py_jwt server d).1 ≡ raise value_error)
        × ((patch_service crypto storage p py_jwt server d).0.services p.service_id
            ≡ some (record service { schema = some checked }))
        × (checked.json ≡ with_signatures p.json p.signatures)
  unfolding patch_service
  patch_service-keeps_forged py_jwt server auth service secret checked signed forged is_auth own
        is_for in_memory has_secret newer complete is_signed is_forged verified =
      let (is_verified, noted) =
        verify_signature-IsVerified crypto SignatureType.service (unverified p) checked
          (some secret) verified in
      let same : checked.json ≡ with_signatures p.json p.signatures =
        ap (λ (s : Schema). s.json) noted in
      let r = review_network_signature p.signatures (
        if has_text signed.signature
        then no_errors
        else reject ReviewError.missing_service_signature no_errors) in
      let outcome =
        ap (patch_as crypto storage p d) is_auth
        ∙ (patch_as_reviewed auth r own is_for (
              ap
                (λ o. review_service_signature o p.signatures.network >>= λ review.
                  ok (review_network_signature p.signatures review))
                is_signed)
            ∙ (ap (λ o. on_found crypto storage p r (found_or_new storage d p.service_id o))
                  in_memory
                ∙ on_found_forged service secret checked r forged has_secret newer complete
                    is_forged verified same)) in
      (
        ap (λ q. q.1) outcome,
        ap (λ q. q.0.services p.service_id) outcome
            ∙ if_true (p.service_id == p.service_id) _ _ (==_refl p.service_id),
        same,
      )

-- ===== src/Contract/Outcomes.antt =====
-- The steps of `patch_service` that accept a schema.
use byoda_python.Base.{
  ℕ, ◌≤◌, ◌≡◌, refl, sym, ap, subst, invalid_signature, ◌∙◌, Bool, true, false, not, Option, none,
  some, Result, ok, raise, http, ◌==◌, if◌then◌else◌, arith, ok-injective, Returns, require, ◌>>◌,
  value_error,
}
use byoda_python.RequestAuth.{RequestAuth}
use byoda_python.RequestAuth.Requests.{same_service_id}
use byoda_python.Contract.{
  SignatureType, Secret, Json, Crypto, Schema, new_schema, with_signatures, create_signature,
  verify_signature, or_own,
}
use byoda_python.Contract.Signing.{IsSigned, verify_signature-IsVerified}
use byoda_python.Contract.Accepts.{
  version_in, Accepts, Accepts-raise, Accepts-reject, Accepts-ok, Accepts-if, Accepts-map,
  version_of-is_old, create_signature-network, IsPublished, IsPublished-put, IsNetworkSigned,
  IsTaken, IsTaken-put,
}
use byoda_python.Contract.Registry.{
  Service, Directory, Storage, Response, Patch, put, find_service, is_old, with_data_secret,
  held_or_loaded, found_or_new, new_service, publish, on_verified, on_secret, on_schema, on_found,
  on_reviewed, review_signatures, patch_as,
}

module _ (crypto : Crypto) where
  module _ (p : Patch) (storage : Storage) (r : Response) where
    publish-Accepts :
        (d : Directory) (service : Service) (schema : Schema) (secret : Secret)
        (signed : Result Json)
        → service.data_secret ≡ some secret
        → Returns (IsNetworkSigned crypto p d) signed
        → Accepts
            (IsPublished crypto p secret d)
            (publish crypto storage p d service schema r signed)
    publish-Accepts d service schema secret (raise e) has_secret h = Accepts-raise _ e
    publish-Accepts d service schema secret (ok json) has_secret h =
        let (bytes, by_network, is_signed) = h.at json refl in
        Accepts-ok _ r (record {
          bytes = bytes;
          by_network = by_network;
          schema = record schema { json = json };
          is_signed = is_signed;
          is_saved = refl;
          services = λ m. rw has_secret refl;
        })

    on_verified-Accepts :
        (d : Directory) (service : Service) (secret : Secret) (out : Schema × Result (Unit {0}))
        → service.data_secret ≡ some secret
        → (out.1 ≡ ok tt → out.0.json ≡ with_signatures p.json p.signatures)
        → Accepts (IsPublished crypto p secret d) (on_verified crypto storage p d service r out)
    on_verified-Accepts d service secret (schema, ok done) has_secret same =
        publish-Accepts d service schema secret _ has_secret (
          subst
            (λ j.
              Returns (IsNetworkSigned crypto p d)
                (create_signature crypto j d.data_secret SignatureType.network p.salt p.now))
            (sym (same refl))
            (create_signature-network crypto p.json p.signatures d.data_secret p.salt p.now))
    on_verified-Accepts d service secret (schema, raise invalid_signature) has_secret same =
        Accepts-reject d _ r
    on_verified-Accepts d service secret (schema, raise _) has_secret same = Accepts-raise _ _

    secret_used : (secret used : Secret) → or_own (some secret) none ≡ some used → used ≡ secret
    secret_used secret used h = by_cert secret.has_cert h
      where
        by_cert : (b : Bool) → (if b then some secret else none) ≡ some used → used ≡ secret
        by_cert true h = cc
        by_cert false h = absurd (cc)

    on_verified-ok :
        (d : Directory) (service : Service) (out : Schema × Result (Unit {0}))
        → Accepts (λ after. out.1 ≡ ok tt) (on_verified crypto storage p d service r out)
    on_verified-ok d service (schema, ok done) = record { at = λ after response h good. refl }
    on_verified-ok d service (schema, raise invalid_signature) = Accepts-reject d _ r
    on_verified-ok d service (schema, raise _) = Accepts-raise _ _

    -- What a signature that is verified shows of the schema that it is verified for.
    pub verified_lem :
        (schema : Schema) (secret : Secret)
        → schema.json ≡ with_signatures p.json p.signatures
        → schema.service_data_secret ≡ none
        → let out = verify_signature crypto schema (some secret) SignatureType.service in
          out.1 ≡ ok tt
          → IsSigned crypto SignatureType.service secret.key (with_signatures p.json p.signatures)
            × (out.0.json ≡ with_signatures p.json p.signatures)
    verified_lem schema secret is_json fresh e =
        let out = verify_signature crypto schema (some secret) SignatureType.service in
        let ((used, is_used, signed), same) =
          verify_signature-IsVerified crypto SignatureType.service schema out.0 (some secret)
            (λ i. (out.0, e i)) in
        let key =
          secret_used secret used (subst (λ o. or_own (some secret) o ≡ some used) fresh is_used) in
        (
          subst
              (λ (s : Secret).
                IsSigned crypto SignatureType.service s.key (with_signatures p.json p.signatures))
              key (subst (λ j. IsSigned crypto SignatureType.service used.key j) is_json signed),
          ap (λ (s : Schema). s.json) same ∙ is_json,
        )

    on_secret-Accepts :
        (d : Directory) (schema : Schema) (found : Service × Result Secret)
        → schema.json ≡ with_signatures p.json p.signatures
        → schema.service_data_secret ≡ none
        → ((secret : Secret) → found.1 ≡ ok secret → found.0.data_secret ≡ some secret)
        → Accepts (IsTaken crypto p d) (on_secret crypto storage p d schema r found)
    on_secret-Accepts d schema (service, raise e) is_json fresh has_secret = Accepts-raise _ e
    on_secret-Accepts d schema (service, ok secret) is_json fresh has_secret = record {
      at = λ after response h good.
          let out = verify_signature crypto schema (some secret) SignatureType.service in
          let checked =
            (on_verified-ok (put p.service_id service d) service out).at after response h good in
          let (signed, same) = verified_lem schema secret is_json fresh checked in
          record {
            secret = secret;
            by_service = signed;
            published = IsPublished-put crypto p secret service d after (
                (on_verified-Accepts (put p.service_id service d) service secret out
                    (has_secret secret refl) (λ e. same)).at
                  after response h good);
          };
    }

    with_data_secret-has :
        (n : ℕ) (service : Service) (secret : Secret)
        → (with_data_secret storage n service).1 ≡ ok secret
        → (with_data_secret storage n service).0.data_secret ≡ some secret
    with_data_secret-has n service secret h =
        by_held service.data_secret (storage.load_data_secret n) refl h
      where
        by_held :
            (o : Option Secret) (from_file : Result Secret)
            → service.data_secret ≡ o
            → (held_or_loaded service o from_file).1 ≡ ok secret
            → (held_or_loaded service o from_file).0.data_secret ≡ some secret
        by_held (some held) from_file e h = e ∙ ap some (ok-injective h)
        by_held none (ok held) e h = ap some (ok-injective h)
        by_held none (raise x) e h = absurd (cc)

    on_schema-Accepts :
        (d : Directory) (service : Service)
        → Accepts (IsTaken crypto p d) (
            on_schema crypto storage p d service r
              (new_schema (with_signatures p.json p.signatures)))
    on_schema-Accepts d service = by_complete p.json.is_complete
      where
        by_complete :
            (b : Bool)
            → Accepts (IsTaken crypto p d) (
                on_schema crypto storage p d service r (
                  require b value_error
                  >> ok (record {
                    json = with_signatures p.json p.signatures;
                    service_verified = false;
                    network_verified = false;
                    service_data_secret = none;
                    network_data_secret = none;
                  })))
        by_complete false = Accepts-raise d value_error
        by_complete true =
            on_secret-Accepts d _ (with_data_secret storage p.service_id service) refl refl
              (with_data_secret-has p.service_id service)

    found-Accepts :
        (d : Directory)
        → Accepts
            (λ after.
              (version_in (d.services p.service_id) ≤ p.json.version) × IsTaken crypto p d after)
            (on_found crypto storage p r (find_service storage d p.service_id))
    found-Accepts d = by_service (d.services p.service_id) (storage.is_registered p.service_id)
      where
        by_service :
            (o : Option Service) (registered : Bool)
            → Accepts
                (λ after. (version_in o ≤ p.json.version) × IsTaken crypto p d after)
                (on_found crypto storage p r (
                  found_or_new
                    (record storage { is_registered = λ n. registered })
                    d
                    p.service_id
                    o))
        by_service (some service) registered =
            Accepts-if (is_old service.schema p.json) _ _ (λ old. Accepts-reject d _ r)
              λ new.
                Accepts-map (λ after t. (version_of-is_old service.schema p.json new, t))
                  (on_schema-Accepts d service)
        by_service none true =
            Accepts-map (λ after t. (omega arith, IsTaken-put crypto p new_service d after t))
              (on_schema-Accepts (put p.service_id new_service d) new_service)
        by_service none false = Accepts-reject d _ r

  module _ (p : Patch) (storage : Storage) where
    -- What holds of a schema that is accepted from a client that is authenticated.
    pub record IsPatched (auth : RequestAuth) (d after : Directory) : Type 0 where
      pub is_own : same_service_id auth.service_id p.service_id ≡ true
      pub is_for : p.service_id ≡ p.json.service_id
      pub is_newer : version_in (d.services p.service_id) ≤ p.json.version
      pub taken : IsTaken crypto p d after

    on_reviewed-Accepts :
        (d : Directory) (auth : RequestAuth) (review : Result Response)
        → Accepts
            (λ after.
              (version_in (d.services p.service_id) ≤ p.json.version) × IsTaken crypto p d after)
            (on_reviewed crypto storage p d auth review)
    on_reviewed-Accepts d auth (raise e) = Accepts-raise d e
    on_reviewed-Accepts d auth (ok r) =
        Accepts-if (same_service_id auth.service_id p.json.service_id) _ _
          (λ own. found-Accepts p storage r d) λ other. Accepts-reject d _ r

    pub patch_as-Accepts :
        (d : Directory) (auth : RequestAuth)
        → Accepts (IsPatched auth d) (patch_as crypto storage p d (ok auth))
    patch_as-Accepts d auth =
        by_tests (same_service_id auth.service_id p.service_id) (p.service_id == p.json.service_id)
          refl refl
      where
        by_tests :
            (own for : Bool)
            → same_service_id auth.service_id p.service_id ≡ own
            → (p.service_id == p.json.service_id) ≡ for
            → Accepts (IsPatched auth d) (
                if not own
                then (d, raise (http 401))
                else (if not for
                    then (d, raise (http 403))
                    else on_reviewed crypto storage p d auth (review_signatures crypto storage p)))
        by_tests false for is_own is_for = Accepts-raise d _
        by_tests true false is_own is_for = Accepts-raise d _
        by_tests true true is_own is_for =
            Accepts-map
              (λ after (newer, taken). record {
                is_own = is_own;
                is_for = ground arith;
                is_newer = newer;
                taken = taken;
              })
              (on_reviewed-Accepts d auth (review_signatures crypto storage p))

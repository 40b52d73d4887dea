-- ===== src/Tests/Contracts.antt =====
-- A service that submits the schemas of its contract.
use byoda_python.Base.{
  ℕ, ◌≡◌, ◌≢◌, ◌>>=◌, value_error, refl, true, false, List, [], ◌∷◌, ◌++◌, Option, none, some, ok,
  raise,
}
use byoda_python.Text.{Text, codes, text_eq, ends_with, split, split_max, join, rstrip}
use byoda_python.Text.Laws.{text_eq_refl}
use byoda_python.Text.Number.{digit_in}
use byoda_python.Text.Uuid.{to_uuid}
use byoda_python.DataTypes.{TlsStatus, id_value, by_value_lengths}
use byoda_python.CommonName.{review}
use byoda_python.RequestAuth.{RequestAuth, check_service_cert}
use byoda_python.RequestAuth.Requests.{Headers, same_service_id}
use byoda_python.RequestAuth.Servers.{Dependency, authenticate_server}
use byoda_python.Contract.{
  SignatureType, SecretClass, Secret, Stored, Signatures, Json, Crypto, Schema, with_signatures,
  note_verified, from_dict, verify_message, create_signature, verify_signature,
}
use byoda_python.Contract.Signing.{IsVerified, verify_signature-IsVerified}
use byoda_python.Contract.RoundTrip.{no_signatures, create_signature-verify_signature}
use byoda_python.Contract.Registry.{Service, Directory, Storage, no_errors, Patch, patch_service}
use byoda_python.Contract.Registered.{IsAccepted, patch_service-IsAccepted}
use byoda_python.Contract.Later.{IsHeld, IsLater}
use byoda_python.Contract.Held.{patches, patches-IsLater}
use byoda_python.Contract.Forged.{unverified, patch_service-keeps_forged}
use byoda_python.Tests.Tokens.{py_jwt, pod}
use byoda_python.Tests.Servers.{auth_in}

-- A signature is the key before the message; what is in a contract is written one after the other.
abbrev stored_code : Option Stored → Text
stored_code none = 0 ∷ []
stored_code (some Stored.empty) = 1 ∷ []
stored_code (some (Stored.fields f)) = 2 ∷ (elim f.signature [ none ↦ [] | some t ↦ t ])

abbrev signatures_code : Option Signatures → Text
signatures_code none = []
signatures_code (some s) = stored_code s.service ++ stored_code s.network

cons-ne-nil : (key : ℕ) (t : Text) → (key ∷ t) ≢ []
cons-ne-nil key t e = cc

abbrev crypto : Crypto
crypto = record {
  sign = λ key salt t. key ∷ t;
  is_signature = λ key t signature. text_eq signature (key ∷ t);
  b64encode = λ t. t;
  b64decode = ok;
  isoformat = λ n. n ∷ [];
  fromisoformat = λ t. true;
  dumps = λ json. json.service_id ∷ json.version ∷ signatures_code json.signatures ++ json.body;
  is_signature-sign = λ key salt t. text_eq_refl (key ∷ t);
  sign-ne-nil = λ key salt t. cons-ne-nil key t;
  b64decode-encode = λ t. refl;
  fromisoformat-isoformat = λ n. refl;
}

abbrev service_headers : Headers
service_headers = record {
  tls_status = some TlsStatus.success;
  client_dn = some (codes "CN=service.service-12.byoda.net");
  issuing_ca_dn = some (codes "CN=service-ca.service-ca-12.byoda.net");
  authorization = none;
}

unfoldable found : RequestAuth
unfolding authenticate_server
found = auth_in (authenticate_server py_jwt pod none (Dependency.service false) service_headers)

found_lem :
    authenticate_server py_jwt pod none (Dependency.service false) service_headers ≡ ok found
unfolding found authenticate_server id_value review split_max ends_with split to_uuid digit_in
    by_value_lengths rstrip join check_service_cert
found_lem = refl

found_is_own : same_service_id found.service_id 12 ≡ true
unfolding found authenticate_server id_value review split_max ends_with split to_uuid digit_in
    by_value_lengths rstrip join check_service_cert
found_is_own = refl

abbrev secret : ℕ → SecretClass → Secret
secret key secret_class = record {
  key = key;
  common_name = codes "data";
  secret_class = secret_class;
  has_cert = true;
  has_private_key = true;
}

abbrev service_secret : Secret
service_secret = secret 7 SecretClass.service_data

abbrev network_secret : Secret
network_secret = secret 9 SecretClass.network_data

abbrev contract : Json
contract = record {
  service_id = 12;
  version = 3;
  is_complete = true;
  body = codes "posts";
  signatures = none;
}

abbrev dictionary : Text → Stored
dictionary signature = Stored.fields (record {
  signature = some signature;
  hash_algorithm = some (codes "SHA256");
  timestamp = some [];
  certificate = some (codes "data");
})

-- The service's signature, and one that is not the network's.
abbrev by_service : Stored
by_service = dictionary (7 ∷ crypto.dumps (with_signatures contract no_signatures))

abbrev not_by_network : Stored
not_by_network = dictionary (5 ∷ [])

abbrev submitted : Option Stored → Patch
submitted by_network = record {
  headers = service_headers;
  service_id = 12;
  json = contract;
  signatures = record { service = some by_service; network = by_network };
  salt = 0;
  now = 100;
}

abbrev storage : Storage
storage = record { is_registered = λ n. true; load_data_secret = λ n. ok service_secret }

abbrev directory : Directory
directory = record { services = λ m. none; data_secret = network_secret; saved = [] }

verify_signature-IsVerified_example :
    IsVerified crypto SignatureType.service (unverified (submitted none)) (some service_secret)
    × (note_verified SignatureType.service (unverified (submitted none))
        ≡ note_verified SignatureType.service (unverified (submitted none)))
unfolding verify_signature from_dict verify_message text_eq
verify_signature-IsVerified_example =
    verify_signature-IsVerified crypto SignatureType.service (unverified (submitted none))
      (note_verified SignatureType.service (unverified (submitted none))) (some service_secret) refl

create_signature-verify_signature_example :
    (both : Json) × ((create_signature crypto contract service_secret SignatureType.service 0 1
        >>= λ once. create_signature crypto once network_secret SignatureType.network 2 3)
      ≡ ok both)
    × (verify_signature crypto
          (record (unverified (submitted none)) { json = both })
          (some service_secret)
          SignatureType.service
        ≡ (
          note_verified SignatureType.service
              (record (unverified (submitted none)) { json = both }),
          ok tt,
        ))
    × (verify_signature crypto
          (record (unverified (submitted none)) { json = both })
          (some network_secret)
          SignatureType.network
        ≡ (
          note_verified SignatureType.network
              (record (unverified (submitted none)) { json = both }),
          ok tt,
        ))
create_signature-verify_signature_example =
    create_signature-verify_signature crypto contract (unverified (submitted none)) service_secret
      network_secret 0 1 2 3 refl
      (record { is_class = refl; has_cert = refl; has_private_key = refl })
      (record { is_class = refl; has_cert = refl; has_private_key = refl })

-- The directory after the schema is submitted.
abbrev after : Directory
after = (patch_service crypto storage (submitted none) py_jwt pod directory).0

accepted :
    patch_service crypto storage (submitted none) py_jwt pod directory ≡ (after, ok no_errors)
unfolding patch_service create_signature verify_signature from_dict verify_message text_eq
    authenticate_server id_value review split_max ends_with split to_uuid digit_in by_value_lengths
    rstrip join check_service_cert
accepted = refl

patch_service-IsAccepted_example : IsAccepted crypto py_jwt pod (submitted none) directory after
patch_service-IsAccepted_example =
    patch_service-IsAccepted crypto storage py_jwt pod (submitted none) directory after no_errors
      accepted refl

-- The schema twice, the second time with a network signature.
abbrev requests : List (Storage × Patch)
requests = (storage, submitted none) ∷ (storage, submitted (some not_by_network)) ∷ []

patches-IsLater_example : IsLater crypto directory (patches crypto py_jwt pod directory requests)
patches-IsLater_example = patches-IsLater crypto py_jwt pod directory requests (λ m. IsHeld.absent)

-- A directory that has the service, with its data secret.
abbrev known_service : Service
known_service = record { schema = none; data_secret = some service_secret }

abbrev with_service : Directory
with_service = record directory { services = λ m. some known_service }

abbrev forged : Patch
forged = submitted (some not_by_network)

abbrev checked : Schema
checked = note_verified SignatureType.service (unverified forged)

patch_service-keeps_forged_example :
    ((patch_service crypto storage forged py_jwt pod with_service).1 ≡ raise value_error)
    × ((patch_service crypto storage forged py_jwt pod with_service).0.services 12
        ≡ some (record known_service { schema = some checked }))
    × (checked.json ≡ with_signatures forged.json forged.signatures)
unfolding verify_signature from_dict verify_message text_eq
patch_service-keeps_forged_example =
    patch_service-keeps_forged crypto storage forged with_service py_jwt pod found known_service
      service_secret checked _ _ found_lem found_is_own refl refl refl refl refl refl refl refl

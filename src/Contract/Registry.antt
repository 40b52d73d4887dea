-- ===== src/Contract/Registry.antt =====
-- The data contracts at a directory server: `patch_service` of dirserver/routers/service.py.
use byoda_python.Base.{
  ℕ, Bool, false, not, List, [], ◌∷◌, ◌++◌, Option, none, some, Result, ok, raise, http, key_error,
  invalid_signature, leb, ◌>>=◌, ◌==◌, if◌then◌else◌,
}
use byoda_python.Text.{Text}
use byoda_python.Jwt.{PyJwt}
use byoda_python.RequestAuth.{RequestAuth}
use byoda_python.RequestAuth.Tokens.{Pod}
use byoda_python.RequestAuth.Requests.{Headers, same_service_id}
use byoda_python.RequestAuth.Servers.{Dependency, authenticate_server}
use byoda_python.Contract.{
  SignatureType, SecretClass, Secret, Stored, Signatures, Json, Crypto, Schema, new_schema, is_nil,
  with_signatures, is_truthy, create_signature, verify_signature,
}

-- What is read of a `Service`.
pub record Service : Type 0 where
  pub schema : Option Schema
  pub data_secret : Option Secret

-- A worker of the directory server: the services that it has in memory, the network's data secret, and
-- the contracts that were written, each under the service id of its path.
pub record Directory : Type 0 where
  pub services : ℕ → Option Service
  pub data_secret : Secret
  pub saved : List (ℕ × Json)

-- What files and the DNS say of a service: `Service.is_registered`, and its data secret when it is loaded.
pub record Storage : Type 0 where
  pub is_registered : ℕ → Bool
  pub load_data_secret : ℕ → Result Secret

pub data ReviewStatus : Type 0 where
  accepted rejected : ReviewStatus

-- The messages.
pub data ReviewError : Type 0 where
  missing_service_signature network_signature_present other_service unregistered : ReviewError
  old_version bad_service_signature : ReviewError

pub record Response : Type 0 where
  pub status : ReviewStatus
  pub errors : List ReviewError

abbrev pub no_errors : Response
no_errors = record { status = ReviewStatus.accepted; errors = [] }

abbrev pub reject : ReviewError → Response → Response
reject e r = record { status = ReviewStatus.rejected; errors = r.errors ++ (e ∷ []) }

-- A schema that is submitted, with the service id of the path and what its signature depends on.
pub record Patch : Type 0 where
  pub headers : Headers
  pub service_id : ℕ
  pub json : Json
  pub signatures : Signatures
  pub salt : ℕ
  pub now : ℕ

abbrev pub has_text : Option Text → Bool
has_text none = false
has_text (some t) = not (is_nil t)

-- The checks of the values at `service` and `network` in `signatures`.
abbrev pub review_service_signature : Option Stored → Option Stored → Result Response
review_service_signature none none = ok (reject ReviewError.missing_service_signature no_errors)
review_service_signature none (some other) = raise key_error
review_service_signature (some Stored.empty) other =
    ok (reject ReviewError.missing_service_signature no_errors)
review_service_signature (some (Stored.fields f)) other = ok (
    if has_text f.signature
    then no_errors
    else reject ReviewError.missing_service_signature no_errors)

abbrev pub review_network_signature : Signatures → Response → Response
review_network_signature s r =
    if is_truthy s.network then reject ReviewError.network_signature_present r else r

abbrev pub put : ℕ → Service → Directory → Directory
put n service d = record d { services = λ m. if n == m then some service else d.services m }

abbrev pub new_service : Service
new_service = record { schema = none; data_secret = none }

-- The service, which a worker that does not have it creates if it is registered.
abbrev pub found_or_new : Storage → Directory → ℕ → Option Service → Directory × Option Service
found_or_new storage d n (some service) = (d, some service)
found_or_new storage d n none =
    if storage.is_registered n then (put n new_service d, some new_service) else (d, none)

abbrev pub find_service : Storage → Directory → ℕ → Directory × Option Service
find_service storage d n = found_or_new storage d n (d.services n)

abbrev pub is_old : Option Schema → Json → Bool
is_old none json = false
is_old (some schema) json = leb json.version schema.json.version

-- A data secret whose certificate is not loaded.
abbrev pub unloaded : Secret
unloaded = record {
  key = 0;
  common_name = [];
  secret_class = SecretClass.service_data;
  has_cert = false;
  has_private_key = false;
}

-- A data secret stays with the service, also if it can't be loaded.
abbrev pub loaded : Service → Result Secret → Service × Result Secret
loaded service (raise e) = (record service { data_secret = some unloaded }, raise e)
loaded service (ok secret) = (record service { data_secret = some secret }, ok secret)

abbrev pub held_or_loaded : Service → Option Secret → Result Secret → Service × Result Secret
held_or_loaded service (some secret) from_file = (service, ok secret)
held_or_loaded service none from_file = loaded service from_file

abbrev pub with_data_secret : Storage → ℕ → Service → Service × Result Secret
with_data_secret storage n service =
    held_or_loaded service service.data_secret (storage.load_data_secret n)

module _ (crypto : Crypto) (storage : Storage) (p : Patch) where
  -- `storage_driver.write` at `network.paths.get(Paths.SERVICE_FILE)`. The service id of the network's
  -- paths is the one that `ServiceCaSecret` sets when the client's certificate is checked: the
  -- client's own, which is `p.service_id` where this is reached. One request is handled at a time.
  abbrev pub save : Directory → Json → Directory
  save d json = record d { saved = (p.service_id, json) ∷ d.saved }

  -- The schema is the service's before the network signs it.
  abbrev pub publish :
      Directory → Service → Schema → Response → Result Json → Directory × Result Response
  publish d service schema r (raise e) =
      (put p.service_id (record service { schema = some schema }) d, raise e)
  publish d service schema r (ok json) = (
    save (put p.service_id (record service { schema = some (record schema { json = json }) }) d)
        json,
    ok r,
  )

  abbrev pub on_verified :
      Directory → Service → Response → Schema × Result (Unit {0}) → Directory × Result Response
  on_verified d service r (schema, ok done) =
      publish d service schema r
        (create_signature crypto schema.json d.data_secret SignatureType.network p.salt p.now)
  on_verified d service r (schema, raise invalid_signature) =
      (d, ok (reject ReviewError.bad_service_signature r))
  on_verified d service r (schema, raise e) = (d, raise e)

  abbrev pub on_secret :
      Directory → Schema → Response → Service × Result Secret → Directory × Result Response
  on_secret d schema r (service, raise e) = (put p.service_id service d, raise e)
  on_secret d schema r (service, ok secret) =
      on_verified (put p.service_id service d) service r
        (verify_signature crypto schema (some secret) SignatureType.service)

  abbrev pub on_schema :
      Directory → Service → Response → Result Schema → Directory × Result Response
  on_schema d service r (raise e) = (d, raise e)
  on_schema d service r (ok schema) =
      on_secret d schema r (with_data_secret storage p.service_id service)

  abbrev pub on_found : Response → Directory × Option Service → Directory × Result Response
  on_found r (d, none) = (d, ok (reject ReviewError.unregistered r))
  on_found r (d, some service) =
      if is_old service.schema p.json
      then (d, ok (reject ReviewError.old_version r))
      else on_schema d service r (new_schema (with_signatures p.json p.signatures))

  abbrev pub on_reviewed : Directory → RequestAuth → Result Response → Directory × Result Response
  on_reviewed d auth (raise e) = (d, raise e)
  on_reviewed d auth (ok r) =
      if same_service_id auth.service_id p.json.service_id
      then on_found r (find_service storage d p.service_id)
      else (d, ok (reject ReviewError.other_service r))

  abbrev pub review_signatures : Result Response
  review_signatures = do
    r ← review_service_signature p.signatures.service p.signatures.network
    ok (review_network_signature p.signatures r)

  -- `patch_service` for a client that is authenticated
  abbrev pub patch_as : Directory → Result RequestAuth → Directory × Result Response
  patch_as d (raise e) = (d, raise e)
  patch_as d (ok auth) =
      if not (same_service_id auth.service_id p.service_id)
      then (d, raise (http 401))
      else if not (p.service_id == p.json.service_id)
      then (d, raise (http 403))
      else on_reviewed d auth review_signatures

  -- `patch_service`
  unfoldable pub patch_service : PyJwt → Pod → Directory → Directory × Result Response
  patch_service py_jwt server d =
      patch_as d (authenticate_server py_jwt server none (Dependency.service false) p.headers)

-- ===== src/Contract/Held.antt =====
-- The schemas that a directory server has in memory, over any requests.
use byoda_python.Base.{
  ℕ, ◌≤◌, ◌≡◌, refl, subst, Bool, true, false, not, List, [], ◌∷◌, Option, none, some, Result, ok,
  raise, value_error, ◌==◌, if◌then◌else◌, Bool-cases, inl, inr, arith, require, ◌>>◌,
}
use byoda_python.Jwt.{PyJwt}
use byoda_python.RequestAuth.{RequestAuth}
use byoda_python.RequestAuth.Tokens.{Pod}
use byoda_python.RequestAuth.Requests.{same_service_id}
use byoda_python.RequestAuth.Servers.{Dependency, authenticate_server}
use byoda_python.Contract.{Crypto, new_schema, with_signatures}
use byoda_python.Contract.Accepts.{version_of, version_in, version_of-is_old}
use byoda_python.Contract.Later.{IsHeld, IsLater, put-IsLater, on_secret-IsLater}
use byoda_python.Contract.Registry.{
  Service, Directory, Storage, Response, Patch, put, is_old, found_or_new, new_service, on_schema,
  on_found, on_reviewed, review_signatures, patch_as, patch_service,
}

module _ (crypto : Crypto) (storage : Storage) (p : Patch) (d : Directory) where
  module _ (r : Response) (older : version_in (d.services p.service_id) ≤ p.json.version) where
    on_schema-IsLater :
        (e : Directory) (service : Service)
        → IsLater crypto d e
        → p.json.service_id ≡ p.service_id
        → version_in (d.services p.service_id) ≤ version_of service.schema
        → IsHeld crypto p.service_id (some service)
        → IsLater crypto d
            (on_schema crypto storage p e service r
              (new_schema (with_signatures p.json p.signatures))).0
    on_schema-IsLater e service h is_for grows held = by_complete p.json.is_complete
      where
        by_complete :
            (b : Bool)
            → IsLater crypto d
                (on_schema crypto storage p e service r (
                  require b value_error
                  >> ok (record {
                    json = with_signatures p.json p.signatures;
                    service_verified = false;
                    network_verified = false;
                    service_data_secret = none;
                    network_data_secret = none;
                  }))).0
        by_complete false = h
        by_complete true =
            on_secret-IsLater crypto storage p d r older e _ service service.data_secret
              (storage.load_data_secret p.service_id) h is_for refl refl grows held refl

  unchanged : ((m : ℕ) → IsHeld crypto m (d.services m)) → IsLater crypto d d
  unchanged holds = record { grows = λ m. omega arith; holds = holds }

  on_found-IsLater :
      (r : Response) (o : Option Service) (registered : Bool)
      → d.services p.service_id ≡ o
      → ((m : ℕ) → IsHeld crypto m (d.services m))
      → p.json.service_id ≡ p.service_id
      → IsLater crypto d
          (on_found crypto storage p r
            (found_or_new (record storage { is_registered = λ n. registered }) d p.service_id o)).0
  on_found-IsLater r (some service) registered e holds is_for =
      elim (Bool-cases (is_old service.schema p.json)) [
        | inl old ↦ rw old (unchanged holds)
        | inr new ↦
            let older : version_in (d.services p.service_id) ≤ p.json.version =
              rw e (version_of-is_old service.schema p.json new) in
            let grows : version_in (d.services p.service_id) ≤ version_of service.schema =
              rw e (omega arith) in
            rw new (
              on_schema-IsLater r older d service (unchanged holds) is_for grows
                (subst (IsHeld crypto p.service_id) e (holds p.service_id)))
      ]
  on_found-IsLater r none true e holds is_for =
      let none_yet : version_in (d.services p.service_id) ≤ 0 = rw e (omega arith) in
      on_schema-IsLater r (omega arith) (put p.service_id new_service d) new_service
        (put-IsLater crypto storage p d d new_service (unchanged holds) none_yet
          (IsHeld.unsigned _ refl))
        is_for none_yet (IsHeld.unsigned _ refl)
  on_found-IsLater r none false e holds is_for = unchanged holds

  if-IsLater :
      (b : Bool) (x y : Directory × Result Response)
      → (b ≡ true → IsLater crypto d x.0)
      → (b ≡ false → IsLater crypto d y.0)
      → IsLater crypto d (if b then x else y).0
  if-IsLater true x y on_true on_false = on_true refl
  if-IsLater false x y on_true on_false = on_false refl

  patch_as-IsLater :
      (auth : Result RequestAuth)
      → ((m : ℕ) → IsHeld crypto m (d.services m))
      → IsLater crypto d (patch_as crypto storage p d auth).0
  patch_as-IsLater (raise e) holds = unchanged holds
  patch_as-IsLater (ok auth) holds =
      if-IsLater (not (same_service_id auth.service_id p.service_id)) _ _ (λ e. unchanged holds)
        λ e.
          if-IsLater (not (p.service_id == p.json.service_id)) _ _ (λ e. unchanged holds)
            λ same. reviewed (ground arith) (review_signatures crypto storage p)
    where
      reviewed :
          p.json.service_id ≡ p.service_id
          → (review : Result Response)
          → IsLater crypto d (on_reviewed crypto storage p d auth review).0
      reviewed is_for (raise e) = unchanged holds
      reviewed is_for (ok r) =
          if-IsLater (same_service_id auth.service_id p.json.service_id) _ _
            (λ e.
              on_found-IsLater r (d.services p.service_id) (storage.is_registered p.service_id) refl
                holds is_for)
            (λ e. unchanged holds)

-- The state after a list of requests, each with what files and the DNS say at its time.
unfoldable pub patches : Crypto → PyJwt → Pod → Directory → List (Storage × Patch) → Directory
unfolding patch_service
patches crypto py_jwt server d [] = d
patches crypto py_jwt server d ((storage, p) ∷ requests) =
    patches crypto py_jwt server (patch_service crypto storage p py_jwt server d).0 requests

-- Whatever requests `patch_service` gets, and whatever files and the DNS say: if each schema in memory has
-- the id of its service and is signed by that service's data secret, then so is each one after them;
-- and the version of a service's schema in memory never decreases.
pub patches-IsLater :
    (crypto : Crypto) (py_jwt : PyJwt) (server : Pod) (d : Directory)
    (requests : List (Storage × Patch))
    → ((m : ℕ) → IsHeld crypto m (d.services m))
    → IsLater crypto d (patches crypto py_jwt server d requests)
unfolding patches patch_service
patches-IsLater crypto py_jwt server d [] holds = record { grows = λ m. omega arith; holds = holds }
patches-IsLater crypto py_jwt server d ((storage, p) ∷ requests) holds =
    let now =
      patch_as-IsLater crypto storage p d
        (authenticate_server py_jwt server none (Dependency.service false) p.headers) holds in
    let later =
      patches-IsLater crypto py_jwt server (patch_service crypto storage p py_jwt server d).0
        requests now.holds in
    record { grows = λ m. omega (arith, now.grows m, later.grows m); holds = later.holds }

-- ===== src/Contract/Registered.antt =====
-- The data contracts that a directory server accepts.
use byoda_python.Base.{◌≤◌, ◌≡◌, refl, true, false, none, Result, ok, raise}
use byoda_python.Jwt.{PyJwt}
use byoda_python.RequestAuth.{RequestAuth}
use byoda_python.RequestAuth.Tokens.{Pod}
use byoda_python.RequestAuth.Requests.{same_service_id}
use byoda_python.RequestAuth.Servers.{Dependency, authenticate_server}
use byoda_python.RequestAuth.ServerCallers.{IsServerCaller, authenticate_server-IsServerCaller}
use byoda_python.Contract.{Crypto}
use byoda_python.Contract.Accepts.{version_in, IsTaken}
use byoda_python.Contract.Outcomes.{IsPatched, patch_as-Accepts}
use byoda_python.Contract.Registry.{
  Directory, Storage, ReviewStatus, Response, Patch, patch_as, patch_service,
}

-- A contract that is accepted: the client has the certificate of the service that the contract is for, its
-- version is higher than that of the schema in memory, and the service's data secret has signed it.
-- The contract with a signature by the network, of the contract as submitted, is the service's
-- schema and is written; nothing else changes.
pub record IsAccepted (crypto : Crypto) (py_jwt : PyJwt) (server : Pod) (p : Patch)
    (d after : Directory) : Type 0 where
  pub auth : RequestAuth
  pub caller : IsServerCaller (Dependency.service false) server.network p.headers auth
  pub is_own : same_service_id auth.service_id p.service_id ≡ true
  pub is_for : p.service_id ≡ p.json.service_id
  pub is_newer : version_in (d.services p.service_id) ≤ p.json.version
  pub taken : IsTaken crypto p d after

-- If `patch_service`, with one request handled at a time, accepts a schema, then the client has the
-- certificate of the service whose id the path and the schema have; the version is higher than that of
-- the schema in memory; the service's data secret has signed the schema; and the schema with a signature
-- by the network of what was submitted is in memory and is written to the service's file. Nothing else
-- changes.
pub patch_service-IsAccepted :
    (crypto : Crypto) (storage : Storage) (py_jwt : PyJwt) (server : Pod) (p : Patch)
    (d after : Directory) (response : Response)
    → patch_service crypto storage p py_jwt server d ≡ (after, ok response)
    → response.status ≡ ReviewStatus.accepted
    → IsAccepted crypto py_jwt server p d after
unfolding patch_service
patch_service-IsAccepted crypto storage py_jwt server p d after response h good = by_auth _ refl h
  where
    by_auth :
        (auth : Result RequestAuth)
        → authenticate_server py_jwt server none (Dependency.service false) p.headers ≡ auth
        → patch_as crypto storage p d auth ≡ (after, ok response)
        → IsAccepted crypto py_jwt server p d after
    by_auth (raise e) is_auth h = absurd (cc)
    by_auth (ok auth) is_auth h =
        let patched : IsPatched crypto p storage auth d after =
          (patch_as-Accepts crypto p storage d auth).at after response h good in
        record {
          auth = auth;
          caller =
              authenticate_server-IsServerCaller py_jwt server p.headers none
                (Dependency.service false) auth is_auth;
          is_own = patched.is_own;
          is_for = patched.is_for;
          is_newer = patched.is_newer;
          taken = patched.taken;
        }

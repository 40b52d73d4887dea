-- ===== src/RequestAuth/Registration.antt =====
-- Members of a service at its server: `post_member` and `put_member` of svcserver/routers/member.py, up
-- to what they store.
use byoda_python.Base.{
  ℕ, List, Bool, not, Option, some, Result, ok, raise, http, value_error, key_error,
  permission_error, ◌>>=◌, ◌>>◌, require, or_raise, ◌==◌, if◌then◌else◌,
}
use byoda_python.Text.{Text}
use byoda_python.DataTypes.{IdType, Identifier, EntityId, id_type_eq}
use byoda_python.CaSecret.{CaKind, Ca, review_static}
use byoda_python.CaSecret.Requests.{Cert}
use byoda_python.CaSecret.Store.{SigningRequest, extract_commonname, sign}
use byoda_python.RequestAuth.{RequestAuth}
use byoda_python.RequestAuth.Requests.{same_service_id}
use byoda_python.RequestAuth.Api.{is_cert}

-- The handlers of the review.
abbrev pub on_review : {A : Type 0} → Result A → Result A
on_review (raise permission_error) = raise (http 401)
on_review (raise value_error) = raise (http 400)
on_review (raise key_error) = raise (http 400)
on_review r = r

-- Who may have a certificate: a client that is authenticated by a certificate, for the name of a member;
-- or a new client, for a name that does not resolve yet.
abbrev pub may_sign : RequestAuth → IdType → Bool → Result (Unit {0})
may_sign auth id_type resolves =
    if auth.is_authenticated
    then require (is_cert auth.auth_source) (http 401)
      >> require (id_type_eq id_type IdType.member) (http 403)
    else require (not resolves) (http 401)

-- `post_member` up to what it stores: the member that the name in the request is of, and the
-- certificate with its chain. `resolves` tells the names that the DNS resolver has addresses for, and
-- `ca` is the members' CA of the service.
unfoldable pub post_member :
    Text
    → ℕ
    → Ca
    → (Text → Bool)
    → RequestAuth
    → SigningRequest
    → ℕ
    → Result (EntityId × Cert × List Text)
unfolding extract_commonname review_static sign
post_member network service_id ca resolves auth request now = do
  common_name ← extract_commonname request
  entity_id ← on_review (review_static CaKind.members_ca common_name network (some service_id))
  may_sign auth entity_id.id_type (resolves common_name)
  n ← or_raise value_error entity_id.service_id
  require (n == service_id) (http 404)
  (cert, chain) ← sign ca request.csr now
  ok (entity_id, cert, chain)

-- `put_member` up to what it stores: the member that the caller is.
unfoldable pub put_member : ℕ → RequestAuth → Result (Option Identifier)
put_member service_id auth = do
  require (same_service_id auth.service_id service_id) (http 404)
  ok auth.member_id

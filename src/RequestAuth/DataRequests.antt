-- ===== src/RequestAuth/DataRequests.antt =====
-- Data requests to a pod from end to end: whoever is let in is known, and allowed by the schema.
use byoda_python.Base.{
  ℕ, ◌≡◌, ◌∙◌, refl, sym, ap, subst, true, not, ◌||◌, List, Option, none, some, ok, http,
  value_error, >>=-eq-ok, Returns, Returns-ok, Returns-raise, Returns-require, Returns-bind,
  Returns-call,
}
use byoda_python.Text.{Text}
use byoda_python.DataTypes.{IdType, DataOperationType}
use byoda_python.Jwt.{PyJwt}
use byoda_python.Access.Authorize.{Member, Request, DataClass}
use byoda_python.Access.Authorize.Requests.{IsAllowed, authorize_data_request_iff}
use byoda_python.RequestAuth.{RequestAuth, new_auth, named}
use byoda_python.RequestAuth.Tokens.{Pod}
use byoda_python.RequestAuth.Requests.{
  Headers, same_service_id, claimed_type, authenticate_as, authenticate_data_request, caller,
  uuid_of, on_any, is_logged, authenticated, review_data_request,
}
use byoda_python.RequestAuth.Handlers.{on_any-eq-ok}
use byoda_python.RequestAuth.Evidence.{IsMemberBy}
use byoda_python.RequestAuth.Known.{
  IsKnown, Checked, authenticate_member-Checked, CheckedService, authenticate_service-Checked,
  member_cert_known, token_known, same_service-number,
}

-- A member that is authenticated is known, by its certificate or its token.
member-IsKnown :
    (py_jwt : PyJwt) (pod : Pod) (h : Headers) (service_id : ℕ)
    (client_dn authorization : Option Text) (checked : RequestAuth)
    → named h.client_dn ≡ client_dn
    → named h.authorization ≡ authorization
    → IsMemberBy py_jwt pod h.issuing_ca_dn client_dn authorization checked
    → same_service_id checked.service_id service_id ≡ true
    → is_logged checked.id_type ≡ true
    → IsKnown py_jwt pod h service_id (record checked { is_authenticated = true })
member-IsKnown py_jwt pod h service_id (some dn) authorization checked given _ (before, c, m) same
      logged =
    IsKnown.by_member_cert (member_cert_known pod h service_id dn before checked given c m same)
member-IsKnown py_jwt pod h service_id none (some authorization) checked _ given evidence same
      logged =
    let (jwt, e, (key, signed, verified), scoped) = evidence in
    IsKnown.by_own_token (
      token_known py_jwt pod h service_id authorization jwt key checked given e signed verified
        scoped same logged)
member-IsKnown py_jwt pod h service_id none none checked _ _ evidence same logged = absurd evidence

-- A caller that the last checks of a data request let pass.
abbrev Passes : RequestAuth → ℕ → Type 0
Passes auth service_id =
    ((not auth.is_authenticated || same_service_id auth.service_id service_id) ≡ true)
    × (is_logged auth.id_type ≡ true)

Checked-IsKnown :
    (py_jwt : PyJwt) (pod : Pod) (h : Headers) (service_id : ℕ) (auth : RequestAuth)
    → Checked py_jwt pod h auth
    → Passes auth service_id
    → IsKnown py_jwt pod h service_id auth
Checked-IsKnown py_jwt pod h service_id auth (checked, evidence, e) passes =
    let (same, logged) = subst (λ (a : RequestAuth). Passes a service_id) e passes in
    subst (IsKnown py_jwt pod h service_id) (sym e) (
      member-IsKnown py_jwt pod h service_id (named h.client_dn) (named h.authorization) checked
        refl refl evidence same logged)

CheckedService-IsKnown :
    (py_jwt : PyJwt) (pod : Pod) (h : Headers) (service_id : ℕ) (auth : RequestAuth)
    → CheckedService pod h auth
    → Passes auth service_id
    → IsKnown py_jwt pod h service_id auth
CheckedService-IsKnown py_jwt pod h service_id auth (dn, given, (before, c, (checked, s, e)))
      passes =
    let (same, logged) = subst (λ (a : RequestAuth). Passes a service_id) e passes in
    subst (IsKnown py_jwt pod h service_id) (sym e) (
      IsKnown.by_service_cert (record {
        client_dn = dn;
        is_given = given;
        before = before;
        certified = c;
        service = record {
          client_cn = s.client_cn;
          issuing_ca_cn = s.issuing_ca_cn;
          is_client = s.is_client;
          is_issuer = s.is_issuer;
          n = s.n;
          entity_id = s.entity_id;
          cert = s.cert;
          service_id = s.service_id;
          member_id = s.member_id;
          id_type = s.id_type;
        };
        of_service = same_service-number checked.service_id s.n service_id s.service_id same;
        no_member = ap uuid_of s.member_id ∙ c.no_uuid;
      }))

authenticate_as-IsKnown :
    (py_jwt : PyJwt) (pod : Pod) (h : Headers) (service_id : ℕ) (t : IdType)
    → Returns
        (λ auth. Passes auth service_id → IsKnown py_jwt pod h service_id auth)
        (authenticate_as py_jwt pod h t)
unfolding authenticate_as
authenticate_as-IsKnown py_jwt pod h service_id IdType.account = Returns-raise (http 401)
authenticate_as-IsKnown py_jwt pod h service_id IdType.member = record {
  at = λ auth done passes.
      Checked-IsKnown py_jwt pod h service_id auth
        ((authenticate_member-Checked py_jwt pod h).at auth done) passes;
}
authenticate_as-IsKnown py_jwt pod h service_id IdType.service = record {
  at = λ auth done passes.
      CheckedService-IsKnown py_jwt pod h service_id auth
        ((authenticate_service-Checked py_jwt pod h).at auth done) passes;
}
authenticate_as-IsKnown py_jwt pod h service_id IdType.anonymous =
    Returns-ok new_auth (λ passes. IsKnown.anonymous refl)
authenticate_as-IsKnown py_jwt pod h service_id _ = Returns-raise value_error

authenticate_data_request-IsKnown :
    (py_jwt : PyJwt) (pod : Pod) (h : Headers) (service_id : ℕ)
    → Returns
        (λ auth. is_logged auth.id_type ≡ true → IsKnown py_jwt pod h service_id auth)
        (authenticate_data_request py_jwt pod h service_id)
unfolding authenticate_data_request
authenticate_data_request-IsKnown py_jwt pod h service_id =
    Returns-bind (claimed_type py_jwt pod h service_id) _ λ id_type _.
      Returns-call _ _ (authenticate_as-IsKnown py_jwt pod h service_id id_type) λ auth known.
        Returns-require (not auth.is_authenticated || same_service_id auth.service_id service_id) _
          _ λ same. Returns-ok auth (λ logged. known (same, logged))

-- The first half of the review: the caller is authenticated.
authenticated-IsKnown :
    (py_jwt : PyJwt) (pod : Pod) (h : Headers) (service_id : ℕ)
    → Returns (IsKnown py_jwt pod h service_id) (authenticated py_jwt pod h service_id)
unfolding authenticated
authenticated-IsKnown py_jwt pod h service_id =
    Returns-call _ _ (authenticate_data_request-IsKnown py_jwt pod h service_id) λ auth known.
      Returns-require (is_logged auth.id_type) _ _ λ logged. Returns-ok auth (known logged)

-- The request that the caller makes.
abbrev pub request_of : Pod → RequestAuth → ℕ → DataOperationType → ℕ → Request
request_of pod auth service_id operation depth = record {
  auth = caller auth;
  memberships = pod.memberships;
  service_id = service_id;
  operation = operation;
  depth = depth;
}

-- The caller of a request that is let in, and what lets it in.
pub record IsLetIn (py_jwt : PyJwt) (pod : Pod) (data_classes : Member → List (Text × DataClass))
    (h : Headers) (service_id : ℕ) (class_name : Text) (operation : DataOperationType) (depth : ℕ)
    : Type 0 where
  pub auth : RequestAuth
  pub known : IsKnown py_jwt pod h service_id auth
  pub allowed : IsAllowed data_classes class_name (request_of pod auth service_id operation depth)

-- A data request that a pod lets in is granted by a right of its class in the schema, or is a read by
-- the pod's own member; a right for the service grants it to any caller with credentials for the
-- service, a member's among them. And the caller is known: it is taken as anonymous; or it is a member
-- of the service, with a certificate whose names the CAs of the service sign; or it is the pod's own
-- member of the service, with a token that is signed with the key of the member's data secret and is
-- for that member; or it is the service, by its certificate.
pub review_data_request-IsLetIn :
    (py_jwt : PyJwt) (pod : Pod) (data_classes : Member → List (Text × DataClass)) (h : Headers)
    (service_id : ℕ) (class_name : Text) (operation : DataOperationType) (depth : ℕ)
    → review_data_request py_jwt pod data_classes h service_id class_name operation depth ≡ ok true
    → IsLetIn py_jwt pod data_classes h service_id class_name operation depth
unfolding review_data_request
review_data_request-IsLetIn py_jwt pod data_classes h service_id class_name operation depth done =
    let (auth, is_auth, answer) =
      >>=-eq-ok (on_any (authenticated py_jwt pod h service_id)) _ done in
    record {
      auth = auth;
      known = (authenticated-IsKnown py_jwt pod h service_id).at auth (on_any-eq-ok _ is_auth);
      allowed =
          (authorize_data_request_iff data_classes class_name
              (request_of pod auth service_id operation depth)).0
            (on_any-eq-ok _ answer);
    }

-- ===== src/Access/Authorize/Requests.antt =====
-- Which data requests are allowed: `authorize_access` of the classes of a schema and
-- `authorize_data_request` of podserver/dependencies/pod_api_request_auth.py.
use byoda_python.Base.{
  ==_iff, ==_refl, ◌≡◌, ◌∙◌, sym, ap, refl, ◌↔◌, ◌⊎◌, inl, inr, Bool, true, false, ◌&&◌, List, [],
  ◌∷◌, Option, none, some, if◌then◌else◌, ok, http, value_error, or_raise, Any, or_iff, Bool-cases,
  arith, ok-injective, >>=-eq-ok, or_raise-eq-ok,
}
use byoda_python.Text.{Text}
use byoda_python.DataTypes.{IdType, id_index, id_type_eq, RightsEntityType, DataOperationType}
use byoda_python.Access.{DataAccessRight, AccessRights}
use byoda_python.Access.Authorize.{
  Member, Request, is_id, authorize, some_right, some_entity, for_other_service, authorize_item,
  DataClass, Fields, is_refusal, authorize_access, refused_by_field, is_read, or_default,
  default_access, find_class, authorize_data_request,
}
use byoda_python.Access.Authorize.Rights.{IsGranted, authorize_iff, is_id_iff, and_iff}

-- Some right of the class itself grants the request.
abbrev pub IsGrantedBySome : AccessRights → Request → Type 0
IsGrantedBySome rights r =
    Any
      (λ (p : RightsEntityType × List DataAccessRight).
        Any (λ (right : DataAccessRight). IsGranted p.0 right r) p.1)
      rights

some_right_iff :
    (e : RightsEntityType) (rights : List DataAccessRight) (r : Request)
    → (some_right e rights r ≡ true) ↔ Any (λ right. IsGranted e right r) rights
unfolding some_right
some_right_iff e [] r = (λ h. absurd (cc), λ h. absurd h)
some_right_iff e (right ∷ rights) r =
    or_iff (authorize e right r) (some_right e rights r) (authorize_iff e right r)
      (some_right_iff e rights r)

pub some_entity_iff :
    (rights : AccessRights) (r : Request) → (some_entity rights r ≡ true) ↔ IsGrantedBySome rights r
unfolding some_entity
some_entity_iff [] r = (λ h. absurd (cc), λ h. absurd h)
some_entity_iff ((e, rights) ∷ rest) r =
    or_iff (some_right e rights r) (some_entity rest r) (some_right_iff e rights r)
      (some_entity_iff rest r)

abbrev pub rights_of : DataClass → AccessRights
rights_of (DataClass.scalar rights) = rights
rights_of (DataClass.object rights fields) = rights
rights_of (DataClass.array rights) = rights
rights_of (DataClass.array_of rights c) = rights

-- An item refuses only a request for another service.
item-refuses :
    (rights : AccessRights) (r : Request)
    → is_refusal (authorize_item rights r) ≡ for_other_service r
unfolding authorize_item
item-refuses rights r = ground arith

-- A child that refuses only what the item refuses changes nothing.
children-pass :
    (own : Option Bool) (child other : Bool)
    → is_refusal own ≡ other
    → (other ≡ false → child ≡ false)
    → (if is_refusal own then some false else if child then some false else own) ≡ own
children-pass (some false) child other h k = refl
children-pass (some true) child other h k = rw (k (sym h))
children-pass none child other h k = rw (k (sym h))

mutual
  unfolding authorize_access refused_by_field

  access-eq-item :
      (c : DataClass) (r : Request) → authorize_access c r ≡ authorize_item (rights_of c) r
  access-eq-item (DataClass.scalar rights) r = refl
  access-eq-item (DataClass.array rights) r = refl
  access-eq-item (DataClass.array_of rights c) r =
      children-pass (authorize_item rights r) (is_refusal (authorize_access c r))
        (for_other_service r) (item-refuses rights r)
        (λ e. ap is_refusal (access-eq-item c r) ∙ item-refuses (rights_of c) r ∙ e)
  access-eq-item (DataClass.object rights fields) r =
      children-pass (authorize_item rights r) (refused_by_field fields r) (for_other_service r)
        (item-refuses rights r) (fields-pass fields r)

  fields-pass :
      (fields : Fields) (r : Request)
      → for_other_service r ≡ false
      → refused_by_field fields r ≡ false
  fields-pass Fields.end r e = refl
  fields-pass (Fields.field name c rest) r e =
      rw (access-eq-item c r, item-refuses (rights_of c) r, e) (fields-pass rest r e)

-- The answer of a class is that of its own access rights: the rights of an object's fields, and of the
-- class that an array refers to, never change it.
pub authorize_access-eq-own :
    (c : DataClass) (r : Request) → authorize_access c r ≡ authorize_item (rights_of c) r
authorize_access-eq-own c r = access-eq-item c r

id_index-injective : (a b : IdType) → id_index a ≡ id_index b → a ≡ b
id_index-injective a b h = ground arith

id_type_eq_iff : (a b : IdType) → (id_type_eq a b ≡ true) ↔ (a ≡ b)
id_type_eq_iff a b = (
  λ h. id_index-injective a b ((==_iff (id_index a) (id_index b)).0 h),
  λ e. rw e (==_refl (id_index b)),
)

is_read_iff : (o : DataOperationType) → (is_read o ≡ true) ↔ (o ≡ DataOperationType.read)
is_read_iff o = (λ h. ground arith, λ h. ground arith)

-- The pod's own member that reads.
abbrev pub IsOwnRead : Request → Member → Type 0
IsOwnRead r m =
    ((r.auth.id_type ≡ IdType.member) × (r.auth.member_id ≡ some m.member_id))
    × (r.operation ≡ DataOperationType.read)

default_access_iff : (r : Request) (m : Member) → (default_access r m ≡ true) ↔ IsOwnRead r m
unfolding default_access
default_access_iff r m =
    and_iff (id_type_eq r.auth.id_type IdType.member && is_id r.auth.member_id m.member_id) _
      (and_iff (id_type_eq r.auth.id_type IdType.member) _
        (id_type_eq_iff r.auth.id_type IdType.member) (is_id_iff r.auth.member_id m.member_id))
      (is_read_iff r.operation)

-- An authenticated caller has credentials for the service that it asks.
abbrev pub IsForService : Request → Type 0
IsForService r = r.auth.is_authenticated ≡ true → r.auth.service_id ≡ some r.service_id

for_other_service_iff : (r : Request) → (for_other_service r ≡ false) ↔ IsForService r
for_other_service_iff r =
    let iff = is_id_iff r.auth.service_id r.service_id in
    (
      λ h a. iff.0 (ground arith),
      λ f. elim (Bool-cases r.auth.is_authenticated) [
        | inl a ↦ (let i = iff.1 (f a) in ground arith)
        | inr a ↦ ground arith
      ],
    )

or_default-true :
    (other granted default : Bool)
    → (or_default default (if other then some false else if granted then some true else none)
        ≡ true)
      ↔ ((other ≡ false) × ((granted ≡ true) ⊎ (default ≡ true)))
or_default-true true granted default = (λ h. absurd (cc), λ (e, _). absurd (cc))
or_default-true false true default = (λ h. (refl, inl refl), λ h. refl)
or_default-true false false true = (λ h. (refl, inr refl), λ h. refl)
or_default-true false false false =
    (λ h. absurd (cc), λ (_, k). elim k [ inl e ↦ absurd (cc) | inr e ↦ absurd (cc) ])

allowed_iff :
    (rights : AccessRights) (r : Request) (m : Member)
    → (or_default (default_access r m) (authorize_item rights r) ≡ true)
      ↔ (IsForService r × (IsGrantedBySome rights r ⊎ IsOwnRead r m))
unfolding authorize_item
allowed_iff rights r m =
    let steps = or_default-true (for_other_service r) (some_entity rights r) (default_access r m) in
    let entity = some_entity_iff rights r in
    let own = default_access_iff r m in
    (
      λ h.
          let (f, g) = steps.0 h in
          (
            (for_other_service_iff r).0 f,
            elim g [ inl e ↦ inl (entity.0 e) | inr e ↦ inr (own.0 e) ],
          ),
      λ (f, g). steps.1 (
        (for_other_service_iff r).1 f,
        elim g [ inl e ↦ inl (entity.1 e) | inr e ↦ inr (own.1 e) ],
      ),
    )

-- What it takes for a data request to be allowed.
pub record IsAllowed (data_classes : Member → List (Text × DataClass)) (class_name : Text)
    (r : Request) : Type 0 where
  pub member : Member
  pub is_member : r.memberships r.service_id ≡ some member
  pub data_class : DataClass
  pub is_class : find_class class_name (data_classes member) ≡ some data_class
  pub for_service : IsForService r
  pub granted : IsGrantedBySome (rights_of data_class) r ⊎ IsOwnRead r member

-- A data request is allowed exactly if the pod is a member of the service, the class is one of the
-- schema's, an authenticated caller has credentials for this service, and either one of the class's
-- own access rights grants the request, or it is a read by the pod's own member, whatever rights the
-- class has. A right for the service grants it to any credentials for the service, a member's among
-- them, and one without a distance at any depth.
pub authorize_data_request_iff :
    (data_classes : Member → List (Text × DataClass)) (class_name : Text) (r : Request)
    → (authorize_data_request data_classes class_name r ≡ ok true)
      ↔ IsAllowed data_classes class_name r
unfolding authorize_data_request
authorize_data_request_iff data_classes class_name r = (
  λ h.
      let (m, joined, h1) = >>=-eq-ok (or_raise (http 401) (r.memberships r.service_id)) _ h in
      let (c, found, h2) =
        >>=-eq-ok (or_raise value_error (find_class class_name (data_classes m))) _ h1 in
      let (for_service, granted) =
        (allowed_iff (rights_of c) r m).0 (rw (authorize_access-eq-own c r) at (ok-injective h2)) in
      record {
        member = m;
        is_member = or_raise-eq-ok (http 401) _ joined;
        data_class = c;
        is_class = or_raise-eq-ok value_error _ found;
        for_service = for_service;
        granted = granted;
      },
  λ a.
      rw (a.is_member, a.is_class, authorize_access-eq-own a.data_class r)
        (ap ok ((allowed_iff (rights_of a.data_class) r a.member).1 (a.for_service, a.granted))),
)

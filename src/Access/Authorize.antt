-- ===== src/Access/Authorize.antt =====
-- Who may do what: `authorize` of byoda/datamodel/dataaccessright.py, `authorize_access` of
-- byoda/datamodel/dataclass.py and `authorize_data_request` of the pod server.
pub mod Rights
pub mod Requests
pub mod Stated
use byoda_python.Base.{
  ℕ, Bool, true, false, ◌&&◌, ◌||◌, not, List, [], ◌∷◌, any, Option, none, some, if◌then◌else◌,
  Result, ok, raise, http, value_error, ◌>>=◌, ◌>>◌, require, or_raise, ◌==◌, leb,
}
use byoda_python.Text.{Text, text_eq, lower}
use byoda_python.DataTypes.{IdType, id_type_eq, RightsEntityType, DataOperationType}
use byoda_python.Access.{DataAccessRight, AccessRights, is_nil}

pub record NetworkLink : Type 0 where
  pub member_id : ℕ
  pub relation : Text

-- The pod's membership of a service: what the rights read, and the key of the member's data secret.
pub record Member : Type 0 where
  pub member_id : ℕ
  pub data_key : ℕ
  pub network_links : List NetworkLink

pub record Auth : Type 0 where
  pub is_authenticated : Bool
  pub id_type : IdType
  pub member_id : Option ℕ
  pub service_id : Option ℕ

-- What is asked for, with the account's memberships by service.
pub record Request : Type 0 where
  pub auth : Auth
  pub memberships : ℕ → Option Member
  pub service_id : ℕ
  pub operation : DataOperationType
  pub depth : ℕ

abbrev pub operation_index : DataOperationType → ℕ
operation_index DataOperationType.create = 0
operation_index DataOperationType.read = 1
operation_index DataOperationType.update = 2
operation_index DataOperationType.delete = 3
operation_index DataOperationType.append = 4
operation_index DataOperationType.search = 5
operation_index DataOperationType.persist = 6
operation_index DataOperationType.mutate = 7
operation_index DataOperationType.subscribe = 8

abbrev pub same_operation : DataOperationType → DataOperationType → Bool
same_operation a b = operation_index a == operation_index b

abbrev pub is_id : Option ℕ → ℕ → Bool
is_id none n = false
is_id (some m) n = m == n

-- `self.distance and depth > self.distance`
abbrev pub too_deep : Option ℕ → ℕ → Bool
too_deep none depth = false
too_deep (some distance) depth = not (distance == 0) && not (leb depth distance)

-- `DataAccessRight.authorize`: the answer, and the membership where there is one.
unfoldable pub authorize_base : DataAccessRight → Request → Option Bool × Option Member
authorize_base right r =
    if not (same_operation right.data_operation r.operation)
    then (none, none)
    else if too_deep right.distance r.depth
    then (some false, none)
    else (some true, r.memberships r.service_id)

-- The test of a link with a member.
unfoldable pub link_matches : DataAccessRight → ℕ → NetworkLink → Bool
unfolding text_eq
link_matches right member_id link =
    link.member_id == member_id
    && (is_nil right.relations || any (λ s. text_eq (lower link.relation) s) right.relations)

-- What the subclass tests once there is a membership.
unfoldable pub authorize_member : RightsEntityType → DataAccessRight → Request → Member → Bool
unfolding link_matches
authorize_member RightsEntityType.member right r m = is_id r.auth.member_id m.member_id
authorize_member RightsEntityType.any_member right r m = elim r.auth.member_id [
  | none ↦ false
  | some id ↦ is_id r.auth.service_id r.service_id
]
authorize_member RightsEntityType.network right r m = elim r.auth.member_id [
  | none ↦ false
  | some id ↦ any (link_matches right id) m.network_links
]
authorize_member RightsEntityType.service right r m = is_id r.auth.service_id r.service_id
authorize_member RightsEntityType.anonymous right r m = elim r.auth.service_id [
  | none ↦ true
  | some id ↦ id == 0 || id == r.service_id
]

-- `authorize` of the five subclasses.
unfoldable pub authorize : RightsEntityType → DataAccessRight → Request → Bool
unfolding authorize_base authorize_member
authorize e right r = elim ((authorize_base right r).1) [
  | none ↦ false
  | some m ↦ authorize_member e right r m
]

-- The loops of `SchemaDataItem.authorize_access`: some right authorizes.
unfoldable pub some_right : RightsEntityType → List DataAccessRight → Request → Bool
unfolding authorize
some_right e [] r = false
some_right e (right ∷ rights) r = authorize e right r || some_right e rights r

unfoldable pub some_entity : AccessRights → Request → Bool
unfolding some_right
some_entity [] r = false
some_entity ((e, rights) ∷ rest) r = some_right e rights r || some_entity rest r

-- A request with credentials for another service.
abbrev pub for_other_service : Request → Bool
for_other_service r = r.auth.is_authenticated && not (is_id r.auth.service_id r.service_id)

-- `SchemaDataItem.authorize_access`: None where no right decides.
unfoldable pub authorize_item : AccessRights → Request → Option Bool
unfolding some_entity
authorize_item rights r =
    if for_other_service r then some false else if some_entity rights r then some true else none

-- A class of the schema: a scalar, an object with its fields, or an array with the class that it
-- refers to.
mutual
  pub data DataClass : Type 0 where
    scalar : AccessRights → DataClass
    object : AccessRights → Fields → DataClass
    array : AccessRights → DataClass
    array_of : AccessRights → DataClass → DataClass

  pub data Fields : Type 0 where
    end : Fields
    field : Text → DataClass → Fields → Fields

abbrev pub is_refusal : Option Bool → Bool
is_refusal (some false) = true
is_refusal _ = false

-- `authorize_access` of the classes: a refusal of a field or of the class referred to is one of the
-- whole.
unfoldable mutual
  pub authorize_access : DataClass → Request → Option Bool
  authorize_access (scalar rights) r = authorize_item rights r
  authorize_access (object rights fields) r =
      let own = authorize_item rights r in
      let refused = refused_by_field fields r in
      if is_refusal own then some false else if refused then some false else own
  authorize_access (array rights) r = authorize_item rights r
  authorize_access (array_of rights c) r =
      let own = authorize_item rights r in
      let child = authorize_access c r in
      if is_refusal own then some false else if is_refusal child then some false else own

  pub refused_by_field : Fields → Request → Bool
  refused_by_field end r = false
  refused_by_field (field name c rest) r =
      let child = authorize_access c r in
      let later = refused_by_field rest r in if is_refusal child then true else later

abbrev pub is_read : DataOperationType → Bool
is_read DataOperationType.read = true
is_read _ = false

-- The default where nothing decided: the pod's own member may read.
unfoldable pub default_access : Request → Member → Bool
default_access r m =
    id_type_eq r.auth.id_type IdType.member
    && is_id r.auth.member_id m.member_id
    && is_read r.operation

abbrev pub or_default : Bool → Option Bool → Bool
or_default default none = default
or_default default (some b) = b

unfoldable pub find_class : Text → List (Text × DataClass) → Option DataClass
unfolding text_eq
find_class name [] = none
find_class name ((key, c) ∷ rest) = if text_eq name key then some c else find_class name rest

-- `authorize_data_request`, with the classes of the schema of the membership.
unfoldable pub authorize_data_request :
    (Member → List (Text × DataClass)) → Text → Request → Result Bool
unfolding authorize_access find_class default_access
authorize_data_request data_classes class_name r = do
  m ← or_raise (http 401) (r.memberships r.service_id)
  c ← or_raise value_error (find_class class_name (data_classes m))
  ok (or_default (default_access r m) (authorize_access c r))

-- ===== src/Access.antt =====
-- The access rights of a schema (byoda/datamodel/dataaccessright.py), as they are read from its JSON.
pub mod Authorize
use byoda_python.Base.{
  ℕ, Bool, true, false, ◌&&◌, ◌||◌, not, List, [], ◌∷◌, map, Option, none, some, if◌then◌else◌,
  Result, ok, raise, value_error, key_error, ◌>>=◌, ◌>>◌, require, or_raise, ◌==◌,
}
use byoda_python.Text.{Text, codes, text_eq, is_empty, lower}
use byoda_python.DataTypes.{RightsEntityType, DataOperationType}

-- The two enumerations by their values; any other text is a ValueError.
unfoldable pub find_value {ℓ} : {A : Type ℓ} → Text → List (Text × A) → Result A
unfolding text_eq
find_value s [] = raise value_error
find_value s ((value, a) ∷ rest) = if text_eq s value then ok a else find_value s rest

abbrev pub rights_entity_types : List (Text × RightsEntityType)
rights_entity_types =
    (codes "member", RightsEntityType.member)
    ∷ (codes "service", RightsEntityType.service)
    ∷ (codes "network", RightsEntityType.network)
    ∷ (codes "any_member", RightsEntityType.any_member)
    ∷ (codes "anonymous", RightsEntityType.anonymous)
    ∷ []

abbrev pub data_operation_types : List (Text × DataOperationType)
data_operation_types =
    (codes "create", DataOperationType.create)
    ∷ (codes "read", DataOperationType.read)
    ∷ (codes "update", DataOperationType.update)
    ∷ (codes "delete", DataOperationType.delete)
    ∷ (codes "append", DataOperationType.append)
    ∷ (codes "search", DataOperationType.search)
    ∷ (codes "persist", DataOperationType.persist)
    ∷ (codes "mutate", DataOperationType.mutate)
    ∷ (codes "subscribe", DataOperationType.subscribe)
    ∷ []

-- The `relation` of a permission: one text, or a list of them.
pub data Relation : Type 0 where
  one : Text → Relation
  many : List Text → Relation

-- A permission is a text, or an object with the keys that the code reads.
pub record PermissionObject : Type 0 where
  pub permission : Option Text
  pub distance : Option ℕ
  pub relation : Option Relation
  pub source_signature_required : Bool
  pub anonimized_responses : Bool

pub data PermissionData : Type 0 where
  name : Text → PermissionData
  object : PermissionObject → PermissionData

-- `distance` is none for a permission that is a text.
pub record DataAccessRight : Type 0 where
  pub data_operation : DataOperationType
  pub distance : Option ℕ
  pub relations : List Text

-- `set` of a text is the set of its characters.
unfoldable pub read_relations : Option Relation → List Text
read_relations none = []
read_relations (some (one s)) = map (λ c. c ∷ []) (lower s)
read_relations (some (many ss)) = map lower ss

abbrev pub or_zero : Option ℕ → ℕ
or_zero none = 0
or_zero (some n) = n

abbrev pub is_nil : List Text → Bool
is_nil [] = true
is_nil (s ∷ ss) = false

-- What a right to search may not have beside it.
abbrev pub is_search : DataOperationType → Bool
is_search DataOperationType.search = true
is_search _ = false

abbrev pub has_parameters : PermissionObject → Bool
has_parameters d =
    not (or_zero d.distance == 0)
    || not (is_nil (read_relations d.relation))
    || d.source_signature_required
    || d.anonimized_responses

-- The constructor of `DataAccessRight`.
unfoldable pub new_right : PermissionData → Result DataAccessRight
unfolding find_value read_relations
new_right (name s) = do
  operation ← find_value s data_operation_types
  ok (record { data_operation = operation; distance = none; relations = [] })
new_right (object d) = do
  s ← or_raise key_error d.permission
  operation ← find_value s data_operation_types
  require (not (is_search operation && has_parameters d)) value_error
  ok (record {
    data_operation = operation;
    distance = some (or_zero d.distance);
    relations = read_relations d.relation;
  })

unfoldable pub new_rights : List PermissionData → Result (List DataAccessRight)
unfolding new_right
new_rights [] = ok []
new_rights (d ∷ ds) = do right ← new_right d; rights ← new_rights ds; ok (right ∷ rights)

-- `DataAccessRight.get_access_rights`
unfoldable pub get_access_rights :
    Text → List PermissionData → Result (RightsEntityType × List DataAccessRight)
unfolding find_value new_rights
get_access_rights entity_type_data permissions = do
  entity_type ← find_value entity_type_data rights_entity_types
  rights ← new_rights permissions
  ok (entity_type, rights)

-- `parse_access_controls` of byoda/datamodel/dataclass.py: a later list for a type replaces an earlier.
abbrev pub same_entity : RightsEntityType → RightsEntityType → Bool
same_entity RightsEntityType.member RightsEntityType.member = true
same_entity RightsEntityType.service RightsEntityType.service = true
same_entity RightsEntityType.network RightsEntityType.network = true
same_entity RightsEntityType.any_member RightsEntityType.any_member = true
same_entity RightsEntityType.anonymous RightsEntityType.anonymous = true
same_entity _ _ = false

abbrev pub AccessRights : Type 0
AccessRights = List (RightsEntityType × List DataAccessRight)

unfoldable pub put_rights : RightsEntityType → List DataAccessRight → AccessRights → AccessRights
put_rights e rights [] = (e, rights) ∷ []
put_rights e rights ((f, others) ∷ rest) =
    if same_entity f e then (f, rights) ∷ rest else (f, others) ∷ put_rights e rights rest

unfoldable pub parse_from : List (Text × List PermissionData) → AccessRights → Result AccessRights
unfolding get_access_rights put_rights
parse_from [] parsed = ok parsed
parse_from ((entity_type_data, permissions) ∷ rest) parsed = do
  (entity_type, rights) ← get_access_rights entity_type_data permissions
  parse_from rest (put_rights entity_type rights parsed)

unfoldable pub parse_access_controls : List (Text × List PermissionData) → Result AccessRights
unfolding parse_from
parse_access_controls rights = parse_from rights []

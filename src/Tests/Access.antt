-- ===== src/Tests/Access.antt =====
-- A pod that is a member of service 12, with a network link to a friend, and requests to it.
use byoda_python.Base.{
  ℕ, ◌≡◌, ◌↔◌, refl, true, false, List, [], ◌∷◌, none, some, ok, if◌then◌else◌, ◌==◌,
}
use byoda_python.Text.{Text, codes}
use byoda_python.DataTypes.{IdType, RightsEntityType, DataOperationType}
use byoda_python.Access.{
  DataAccessRight, AccessRights, Relation, PermissionData, parse_access_controls,
}
use byoda_python.Access.Authorize.{
  Member, Request, authorize, DataClass, Fields, authorize_access, authorize_item,
  authorize_data_request, some_entity,
}
use byoda_python.Access.Authorize.Stated.{IsStated, parse_access_controls-IsStated}
use byoda_python.Access.Authorize.Rights.{IsGranted, authorize_iff}
use byoda_python.Access.Authorize.Requests.{
  rights_of, authorize_access-eq-own, IsAllowed, authorize_data_request_iff,
}

abbrev pub member : Member
member = record {
  member_id = 7;
  data_key = 70;
  network_links = record { member_id = 9; relation = codes "Friend" } ∷ [];
}

abbrev request_of : ℕ → Request
request_of caller = record {
  auth = record {
    is_authenticated = true;
    id_type = IdType.member;
    member_id = some caller;
    service_id = some 12;
  };
  memberships = λ s. if s == 12 then some member else none;
  service_id = 12;
  operation = DataOperationType.read;
  depth = 1;
}

abbrev pub friends_read : DataAccessRight
friends_read = record {
  data_operation = DataOperationType.read;
  distance = some 1;
  relations = codes "friend" ∷ [];
}

abbrev pub own_update : DataAccessRight
own_update = record { data_operation = DataOperationType.update; distance = some 0; relations = [] }

-- Friends may read an object whose field only its owner may update.
abbrev pub profile : DataClass
profile = DataClass.object ((RightsEntityType.network, friends_read ∷ []) ∷ []) (
    Fields.field (codes "email")
      (DataClass.scalar ((RightsEntityType.member, own_update ∷ []) ∷ [])) Fields.end)

abbrev pub data_classes : Member → List (Text × DataClass)
data_classes m = (codes "profile", profile) ∷ []

friend-allowed : authorize_data_request data_classes (codes "profile") (request_of 9) ≡ ok true
unfolding authorize_data_request authorize_item
friend-allowed = refl

stranger-refused : authorize_data_request data_classes (codes "profile") (request_of 10) ≡ ok false
unfolding authorize_data_request authorize_item
stranger-refused = refl

authorize_iff_example :
    (authorize RightsEntityType.network friends_read (request_of 9) ≡ true)
    ↔ IsGranted RightsEntityType.network friends_read (request_of 9)
authorize_iff_example = authorize_iff RightsEntityType.network friends_read (request_of 9)

authorize_access-eq-own_example :
    authorize_access profile (request_of 9) ≡ authorize_item (rights_of profile) (request_of 9)
authorize_access-eq-own_example = authorize_access-eq-own profile (request_of 9)

authorize_data_request_iff_example :
    (authorize_data_request data_classes (codes "profile") (request_of 9) ≡ ok true)
    ↔ IsAllowed data_classes (codes "profile") (request_of 9)
authorize_data_request_iff_example =
    authorize_data_request_iff data_classes (codes "profile") (request_of 9)

-- The same right as the schema states it.
abbrev stated : List (Text × List PermissionData)
stated =
    (
      codes "network",
      PermissionData.object (record {
        permission = some (codes "read");
        distance = some 1;
        relation = some (Relation.many (codes "Friend" ∷ []));
        source_signature_required = false;
        anonimized_responses = false;
      })
          ∷ [],
    )
    ∷ []

abbrev parsed : AccessRights
parsed = (RightsEntityType.network, friends_read ∷ []) ∷ []

stated-parsed : parse_access_controls stated ≡ ok parsed
unfolding parse_access_controls
stated-parsed = refl

friend-granted : some_entity parsed (request_of 9) ≡ true
unfolding some_entity
friend-granted = refl

parse_access_controls-IsStated_example : IsStated stated (request_of 9)
parse_access_controls-IsStated_example =
    parse_access_controls-IsStated stated parsed (request_of 9) stated-parsed friend-granted

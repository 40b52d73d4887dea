-- ===== src/DataTypes.antt =====
-- The enumerations of byoda/datatypes.py that the other modules share.
use byoda_python.Base.{ℕ, Bool, Option, List, [], ◌∷◌, leb, length, ◌==◌, if◌then◌else◌}
use byoda_python.Text.{Text, codes}

pub data IdType : Type 0 where
  service_data network_data accounts_ca account_data member_data services_ca service_ca : IdType
  members_ca apps_ca account member service app app_data anonymous : IdType

-- `IdType.<name>.value`
unfoldable pub id_value : IdType → Text
id_value IdType.service_data = codes "service-data-"
id_value IdType.network_data = codes "network-data"
id_value IdType.accounts_ca = codes "accounts-ca"
id_value IdType.account_data = codes "account-data"
id_value IdType.member_data = codes "member-data-"
id_value IdType.services_ca = codes "services-ca"
id_value IdType.service_ca = codes "service-ca-"
id_value IdType.members_ca = codes "members-ca-"
id_value IdType.apps_ca = codes "apps-ca-"
id_value IdType.account = codes "accounts"
id_value IdType.member = codes "members-"
id_value IdType.service = codes "service-"
id_value IdType.app = codes "apps-"
id_value IdType.app_data = codes "app-data-"
id_value IdType.anonymous = codes "anonymous"

-- `list(IdType)`, in the order of the declaration.
abbrev pub all_id_types : List IdType
all_id_types =
    IdType.service_data ∷ IdType.network_data ∷ IdType.accounts_ca ∷ IdType.account_data
    ∷ IdType.member_data ∷ IdType.services_ca ∷ IdType.service_ca ∷ IdType.members_ca
    ∷ IdType.apps_ca ∷ IdType.account ∷ IdType.member ∷ IdType.service ∷ IdType.app
    ∷ IdType.app_data ∷ IdType.anonymous ∷ []

-- `a == b` for two members of the enumeration, by their places in it.
abbrev pub id_index : IdType → ℕ
id_index IdType.service_data = 0
id_index IdType.network_data = 1
id_index IdType.accounts_ca = 2
id_index IdType.account_data = 3
id_index IdType.member_data = 4
id_index IdType.services_ca = 5
id_index IdType.service_ca = 6
id_index IdType.members_ca = 7
id_index IdType.apps_ca = 8
id_index IdType.account = 9
id_index IdType.member = 10
id_index IdType.service = 11
id_index IdType.app = 12
id_index IdType.app_data = 13
id_index IdType.anonymous = 14

abbrev pub id_type_eq : IdType → IdType → Bool
id_type_eq t u = id_index t == id_index u

-- The stable sort by falling length: an element goes before those that are not longer.
insert_by_length : IdType → List IdType → List IdType
unfolding id_value
insert_by_length t [] = t ∷ []
insert_by_length t (u ∷ us) =
    if leb (length (id_value u)) (length (id_value t))
    then t ∷ u ∷ us
    else u ∷ insert_by_length t us

sort_by_length : List IdType → List IdType
unfolding insert_by_length
sort_by_length [] = []
sort_by_length (t ∷ ts) = insert_by_length t (sort_by_length ts)

-- `IdType.by_value_lengths()`
unfoldable pub by_value_lengths : List IdType
unfolding sort_by_length
by_value_lengths = sort_by_length all_id_types

-- What a common name says: `namedtuple('EntityId', ['id_type', 'id', 'service_id'])`. The
-- identifier is a UUID, or the text that stands in its place.
pub data Identifier : Type 0 where
  uuid : ℕ → Identifier
  name : Text → Identifier

pub record EntityId : Type 0 where
  pub id_type : IdType
  pub id : Option Identifier
  pub service_id : Option ℕ

pub data TlsStatus : Type 0 where
  none success failed : TlsStatus

pub data AuthSource : Type 0 where
  none cert token : AuthSource

pub data RightsEntityType : Type 0 where
  member service network any_member anonymous : RightsEntityType

pub data DataOperationType : Type 0 where
  create read update delete append search persist mutate subscribe : DataOperationType

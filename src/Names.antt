-- ===== src/Names.antt =====
-- The common names that the secrets' classes write (byoda/secrets/*_secret.py), and the certificate
-- authority of each.
pub mod Accepted
use byoda_python.Base.{
  ℕ, ◌+◌, List, [], ◌∷◌, ◌++◌, Option, none, some, Result, ok, raise, value_error,
}
use byoda_python.Text.{Text, codes, rstrip}
use byoda_python.Text.Number.{decimal}
use byoda_python.Text.Uuid.{uuid_text}
use byoda_python.DataTypes.{IdType, id_value}

-- `f'{identifier}.{subdomain}.{network}'`
abbrev pub dotted : Text → Text → Text → Text
dotted identifier subdomain network = identifier ++ b'.' ∷ (subdomain ++ b'.' ∷ network)

abbrev numbered : IdType → ℕ → Text
numbered t service_id = id_value t ++ decimal service_id

-- `AccountSecret.create_commonname`
unfoldable pub account_name : ℕ → Text → Text
account_name account_id network = dotted (uuid_text account_id) (id_value IdType.account) network

-- `AccountDataSecret.create_csr`
unfoldable pub account_data_name : ℕ → Text → Text
account_data_name account_id network =
    dotted (uuid_text account_id) (id_value IdType.account_data) network

-- `MemberSecret.create_commonname`
unfoldable pub member_name : Option ℕ → ℕ → Text → Result Text
member_name none service_id network = raise value_error
member_name (some member_id) service_id network =
    ok (dotted (uuid_text member_id) (numbered IdType.member service_id) network)

-- `MemberDataSecret.create_common_name`
unfoldable pub member_data_name : ℕ → ℕ → Text → Text
member_data_name member_id service_id network =
    dotted (uuid_text member_id) (numbered IdType.member_data service_id) network

-- `AppSecret.create_commonname`
unfoldable pub app_name : ℕ → ℕ → Text → Text
app_name app_id service_id network =
    dotted (uuid_text app_id) (numbered IdType.app service_id) network

-- `AppDataSecret.create_commonname`
unfoldable pub app_data_name : ℕ → ℕ → Text → Text
app_data_name app_id service_id network =
    dotted (uuid_text app_id) (numbered IdType.app_data service_id) network

-- `ServiceSecret.create_commonname`
unfoldable pub service_name : ℕ → Text → Text
service_name service_id network =
    dotted (codes "service") (numbered IdType.service service_id) network

-- `ServiceDataSecret.create_csr`
unfoldable pub service_data_name : ℕ → Text → Text
service_data_name service_id network =
    dotted (codes "data") (numbered IdType.service_data service_id) network

-- `ServiceCaSecret.create_csr`
unfoldable pub service_ca_name : ℕ → Text → Text
service_ca_name service_id network =
    dotted (codes "service-ca") (numbered IdType.service_ca service_id) network

-- `MembersCaSecret.create_csr`
unfoldable pub members_ca_name : ℕ → Text → Text
unfolding rstrip id_value
members_ca_name service_id network =
    dotted (rstrip b'-' (id_value IdType.members_ca)) (numbered IdType.members_ca service_id)
      network

-- `AppsCaSecret.create_csr`
unfoldable pub apps_ca_name : ℕ → Text → Text
apps_ca_name service_id network =
    dotted (codes "apps-ca") (numbered IdType.apps_ca service_id) network

-- `NetworkAccountsCaSecret.create_csr`
unfoldable pub accounts_ca_name : Text → Text
unfolding id_value
accounts_ca_name network =
    dotted (id_value IdType.accounts_ca) (id_value IdType.accounts_ca) network

-- `NetworkServicesCaSecret.create_csr`
unfoldable pub services_ca_name : Text → Text
unfolding id_value
services_ca_name network =
    dotted (id_value IdType.services_ca) (id_value IdType.services_ca) network

-- `NetworkDataSecret.create_csr`
unfoldable pub network_data_name : Text → Text
network_data_name network = dotted (codes "network") (id_value IdType.network_data) network

-- The name in `NetworkDataSecret.create`, which spells the type with an underscore.
unfoldable pub network_data_created : ℕ → Text → Text
network_data_created account_id network =
    dotted (uuid_text account_id) (codes "network_data") network

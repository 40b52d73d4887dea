-- ===== src/Tests/Directory.antt =====
-- An account that renews its certificate at a directory server.
use byoda_python.Base.{
  ◌≡◌, refl, Bool, true, false, [], ◌∷◌, ◌++◌, none, some, ok, raise, http, Result,
}
use byoda_python.Text.{Text, codes, ends_with, split, split_max, join, rstrip}
use byoda_python.Text.Number.{digit_in}
use byoda_python.Text.Uuid.{to_uuid}
use byoda_python.DataTypes.{IdType, Identifier, id_value, by_value_lengths}
use byoda_python.CommonName.{review}
use byoda_python.CaSecret.{CaKind, review_static, review_commonname}
use byoda_python.CaSecret.Requests.{review_csr}
use byoda_python.CaSecret.Store.{SigningRequest, sign}
use byoda_python.RequestAuth.{check_account_cert}
use byoda_python.RequestAuth.Servers.{authenticate_server}
use byoda_python.RequestAuth.Directory.{
  post_account, post_service, SignedAccount, IsRegistered, post_account-IsRegistered,
}
use byoda_python.Tests.Tokens.{network, py_jwt, pod}
use byoda_python.Tests.Names.{owner_id, ca_of}
use byoda_python.Tests.Servers.{account_headers}

abbrev account_cn : Text
account_cn = codes "123e4567-e89b-12d3-a456-426614174000.accounts.byoda.net"

abbrev in_dns : Text → Bool
in_dns name = true

abbrev request_for : Text → SigningRequest
request_for name = record {
  attributes = (false, codes "SW") ∷ (true, name) ∷ [];
  csr = record {
    signed = true;
    algorithm = codes "sha256WithRSAEncryption";
    hash = codes "sha256";
    subject = codes "C=SW" ∷ (codes "CN=" ++ name) ∷ [];
    dns_names = some (name ∷ []);
    basic_constraints = some false;
    public_key = 7;
  };
}

abbrev renewed : SignedAccount
renewed = record {
  entity_id = record {
    id_type = IdType.account;
    id = some (Identifier.uuid owner_id);
    service_id = none;
  };
  certchain = (
    record {
      subject = codes "C=SW" ∷ (codes "CN=" ++ account_cn) ∷ [];
      issuer = codes "ca.byoda.net";
      public_key = 7;
      not_before = 10;
      not_after = 94608010;
      dns_name = account_cn;
      is_ca = false;
    },
    codes "ca.byoda.net" ∷ [],
  );
  dns_record = none;
}

renew :
    post_account py_jwt pod
      (ca_of CaKind.network_accounts)
      in_dns
      account_headers
      (request_for account_cn)
      10
    ≡ ok renewed
unfolding post_account review_static authenticate_server sign id_value review split_max ends_with
    split to_uuid digit_in by_value_lengths rstrip join check_account_cert review_commonname
    review_csr
renew = refl

post_account-IsRegistered_example :
    IsRegistered network
      (ca_of CaKind.network_accounts)
      in_dns
      account_headers
      (request_for account_cn)
      10
      renewed
post_account-IsRegistered_example =
    post_account-IsRegistered py_jwt pod in_dns account_headers (ca_of CaKind.network_accounts)
      (request_for account_cn) 10 renewed renew

-- Another account's name is refused.
other_account :
    post_account py_jwt pod
      (ca_of CaKind.network_accounts)
      in_dns
      account_headers
      (request_for (codes "923e4567-e89b-12d3-a456-426614174000.accounts.byoda.net"))
      10
    ≡ raise (http 401)
unfolding post_account review_static authenticate_server id_value review split_max ends_with split
    to_uuid digit_in by_value_lengths rstrip join check_account_cert
other_account = refl

-- A service that is in the DNS cannot have its certificate renewed.
renew_service :
    post_service pod
      (ca_of CaKind.network_services)
      in_dns
      (request_for (codes "service-ca.service-ca-12.byoda.net"))
      10
    ≡ raise (http 403)
unfolding post_service review_static id_value review split_max ends_with split to_uuid digit_in
    by_value_lengths rstrip join
renew_service = refl

-- A request with two common names: the last one is compared with the certificate of the client, and the
-- first one is reviewed for the certificate, which is for another account.
abbrev other_cn : Text
other_cn = codes "923e4567-e89b-12d3-a456-426614174000.accounts.byoda.net"

abbrev two_names : SigningRequest
two_names = record {
  attributes = (true, other_cn) ∷ (true, account_cn) ∷ [];
  csr = record {
    signed = true;
    algorithm = codes "sha256WithRSAEncryption";
    hash = codes "sha256";
    subject = (codes "CN=" ++ other_cn) ∷ (codes "CN=" ++ account_cn) ∷ [];
    dns_names = some (other_cn ∷ []);
    basic_constraints = some false;
    public_key = 7;
  };
}

abbrev dns_name_of : Result SignedAccount → Text
dns_name_of (ok r) = r.certchain.0.dns_name
dns_name_of (raise e) = []

other_signed :
    dns_name_of
      (post_account py_jwt pod (ca_of CaKind.network_accounts) in_dns account_headers two_names 10)
    ≡ other_cn
unfolding post_account review_static authenticate_server sign id_value review split_max ends_with
    split to_uuid digit_in by_value_lengths rstrip join check_account_cert review_commonname
    review_csr
other_signed = refl

-- ===== src/Tests/Requests.antt =====
-- Certificate signing requests of a member, one of them from another member.
use byoda_python.Base.{◌+◌, ◌*◌, ◌≡◌, refl, true, false, [], ◌∷◌, none, some, ok}
use byoda_python.Text.{codes, join, split_max, ends_with, split, rstrip}
use byoda_python.Text.Number.{digit_in}
use byoda_python.Text.Uuid.{to_uuid}
use byoda_python.DataTypes.{AuthSource, IdType, by_value_lengths}
use byoda_python.CommonName.{review}
use byoda_python.CaSecret.{CaKind, review_commonname, review_static}
use byoda_python.CaSecret.Requests.{CsrSource, Csr, review_csr, Cert, sign_csr}
use byoda_python.CaSecret.Signing.{IsSound, review_csr-IsSound, IsIssued, sign_csr-IsIssued}
use byoda_python.CaSecret.Store.{sign}
use byoda_python.RequestAuth.{RequestAuth, new_auth}
use byoda_python.RequestAuth.Registration.{post_member}
use byoda_python.Tests.Names.{domain, ca_of, member_cn, member_entity}

abbrev csr : Csr
csr = record {
  signed = true;
  algorithm = codes "sha256WithRSAEncryption";
  hash = codes "sha256";
  subject =
      codes "C=SW" ∷ codes "CN=123e4567-e89b-12d3-a456-426614174000.members-12.byoda.net" ∷ [];
  dns_names = some (member_cn ∷ []);
  basic_constraints = none;
  public_key = 7;
}

csr-reviewed : review_csr (ca_of CaKind.members_ca) csr (some CsrSource.web_api) ≡ ok member_entity
unfolding review_csr review_commonname review split_max ends_with split to_uuid digit_in
    by_value_lengths rstrip join
csr-reviewed = refl

review_csr-IsSound_example :
    IsSound (ca_of CaKind.members_ca) csr (some CsrSource.web_api) member_entity
review_csr-IsSound_example =
    review_csr-IsSound (ca_of CaKind.members_ca) csr (some CsrSource.web_api) member_entity
      csr-reviewed

abbrev cert : Cert
cert = record {
  subject = csr.subject;
  issuer = codes "ca.byoda.net";
  public_key = 7;
  not_before = 1000;
  not_after = 1000 + 365 * 86400;
  dns_name = member_cn;
  is_ca = false;
}

csr-signed : sign_csr (ca_of CaKind.members_ca) csr none 1000 ≡ ok (cert, codes "ca.byoda.net" ∷ [])
unfolding sign_csr review_commonname review split_max ends_with split to_uuid digit_in
    by_value_lengths rstrip join
csr-signed = refl

sign_csr-IsIssued_example : IsIssued (ca_of CaKind.members_ca) csr 1000 cert
sign_csr-IsIssued_example =
    sign_csr-IsIssued (ca_of CaKind.members_ca) csr 1000 (cert, codes "ca.byoda.net" ∷ [])
      csr-signed

-- The same request with the extension that the store wants.
abbrev api_csr : Csr
api_csr = record csr { basic_constraints = some false }

api_csr-signed :
    sign (ca_of CaKind.members_ca) api_csr 1000
    ≡ ok (record cert { not_after = 1000 + 3 * 365 * 86400 }, codes "ca.byoda.net" ∷ [])
unfolding sign review_csr sign_csr review_commonname review split_max ends_with split to_uuid
    digit_in by_value_lengths rstrip join
api_csr-signed = refl

-- A service's server signs the request for any member that is authenticated by its certificate.
abbrev other_member : RequestAuth
other_member = record new_auth {
  is_authenticated = true;
  auth_source = AuthSource.cert;
  id_type = IdType.member;
}

other_member-signed :
    post_member domain 12
      (ca_of CaKind.members_ca)
      (λ name. true)
      other_member
      (record { attributes = (true, member_cn) ∷ []; csr = api_csr })
      1000
    ≡ ok (
      member_entity,
      record cert { not_after = 1000 + 3 * 365 * 86400 },
      codes "ca.byoda.net" ∷ [],
    )
unfolding post_member review_static sign review_csr sign_csr review_commonname review split_max
    ends_with split to_uuid digit_in by_value_lengths rstrip join
other_member-signed = refl

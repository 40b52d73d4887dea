-- ===== src/Tests/Names.antt =====
-- Common names and certificate authorities of a network `byoda.net`, with a service 12.
use byoda_python.Base.{ℕ, ◌≡◌, refl, true, false, [], some, ok, arith}
use byoda_python.Text.{Text, codes, split_max, ends_with, split, rstrip, join}
use byoda_python.Text.Number.{pos, digit_in, digit_code, to_int, decimal, to_int-decimal}
use byoda_python.Text.Uuid.{to_uuid, uuid_text, to_uuid-uuid_text}
use byoda_python.DataTypes.{by_value_lengths, IdType, id_value, uuid, EntityId}
use byoda_python.CommonName.{review}
use byoda_python.CommonName.Safety.{IsReviewed, review-IsReviewed}
use byoda_python.CaSecret.{CaKind, Ca, review_commonname}
use byoda_python.CaSecret.Policy.{signer_unique}
use byoda_python.Names.{member_name}
use byoda_python.Names.Accepted.{member, written-IsAccepted}

abbrev pub domain : Text
domain = codes "byoda.net"

abbrev pub ca_of : CaKind → Ca
ca_of k = record {
  kind = k;
  ca = true;
  private_key_file = true;
  private_key = true;
  network = domain;
  service_id = some 12;
  common_name = codes "ca.byoda.net";
  is_root_cert = false;
  cert_chain = [];
}

abbrev pub owner_id : ℕ
owner_id = 0x123e4567e89b12d3a456426614174000

abbrev pub member_cn : Text
member_cn = codes "123e4567-e89b-12d3-a456-426614174000.members-12.byoda.net"

abbrev pub member_entity : EntityId
member_entity = record { id_type = IdType.member; id = some (uuid owner_id); service_id = some 12 }

member_cn-accepted : review_commonname (ca_of CaKind.members_ca) member_cn ≡ ok member_entity
unfolding review_commonname review split_max ends_with split to_uuid digit_in by_value_lengths
    rstrip join
member_cn-accepted = refl

written-IsAccepted_example :
    review_commonname (ca_of CaKind.members_ca) member_cn ≡ ok member_entity
unfolding member_name uuid_text digit_code id_value decimal
written-IsAccepted_example =
    written-IsAccepted (ca_of CaKind.members_ca) (member owner_id 12) domain member_cn (cc)
      (ground arith, ground arith)
      (record { working = refl; kind = refl; network = refl; service = λ e. refl }) refl

member_cn-reviewed : review member_cn domain (some 12) true true ≡ ok member_entity
unfolding review split_max ends_with split to_uuid digit_in by_value_lengths rstrip join
member_cn-reviewed = refl

review-IsReviewed_example : IsReviewed member_cn domain (some 12) true true member_entity
review-IsReviewed_example =
    review-IsReviewed member_cn domain (some 12) true true member_entity member_cn-reviewed

signer_unique_example : CaKind.members_ca ≡ CaKind.members_ca
signer_unique_example =
    signer_unique (ca_of CaKind.members_ca) (ca_of CaKind.members_ca) member_cn member_entity
      member_entity refl member_cn-accepted member_cn-accepted

to_uuid-uuid_text_example : to_uuid (uuid_text owner_id) ≡ ok owner_id
to_uuid-uuid_text_example = to_uuid-uuid_text owner_id (ground arith)

to_int-decimal_example : to_int 10 (decimal 4294929430) ≡ some (pos 4294929430)
to_int-decimal_example = to_int-decimal 4294929430

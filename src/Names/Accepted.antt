-- ===== src/Names/Accepted.antt =====
-- Each name that a secret's class writes is accepted by the certificate authority that is to sign it,
-- and is read as the identity that it was written for.
use byoda_python.Base.{
  ℕ, ◌^◌, ◌<◌, ◌≡◌, ◌≢◌, ◌∙◌, refl, ap, true, false, [], Option, none, some, Result, ok, arith,
  ok-injective,
}
use byoda_python.Text.{Text, codes}
use byoda_python.Text.Laws.{Free}
use byoda_python.Text.Uuid.{uuid_text, Free-uuid_text, uuid_text-ne-nil}
use byoda_python.DataTypes.{IdType, id_value, Identifier, uuid, name, EntityId}
use byoda_python.CommonName.{review, is_some}
use byoda_python.CommonName.RoundTrip.{
  name_of, subdomain_of, is_numbered, is_plain, review-numbered, review-numbered_name,
  review-plain_name,
}
use byoda_python.CaSecret.{
  CaKind, Ca, accepted_csrs, days_for, review_commonname, by_uuid, by_service,
}
use byoda_python.Names.{
  account_name, account_data_name, member_name, member_data_name, app_name, app_data_name,
  service_name, service_data_name, service_ca_name, members_ca_name, apps_ca_name, accounts_ca_name,
  services_ca_name, network_data_name,
}

-- An identity to certify.
pub data Owner : Type 0 where
  account account_data : ℕ → Owner
  member member_data app app_data : ℕ → ℕ → Owner
  service service_data service_ca members_ca apps_ca : ℕ → Owner
  accounts_ca services_ca network_data : Owner

-- The name that its class writes.
abbrev pub written : Owner → Text → Result Text
written (account u) network = ok (account_name u network)
written (account_data u) network = ok (account_data_name u network)
written (member u n) network = member_name (some u) n network
written (member_data u n) network = ok (member_data_name u n network)
written (app u n) network = ok (app_name u n network)
written (app_data u n) network = ok (app_data_name u n network)
written (service n) network = ok (service_name n network)
written (service_data n) network = ok (service_data_name n network)
written (service_ca n) network = ok (service_ca_name n network)
written (members_ca n) network = ok (members_ca_name n network)
written (apps_ca n) network = ok (apps_ca_name n network)
written accounts_ca network = ok (accounts_ca_name network)
written services_ca network = ok (services_ca_name network)
written network_data network = ok (network_data_name network)

-- Who is to sign it, and for which service.
abbrev pub signer : Owner → CaKind
signer (account u) = CaKind.network_accounts
signer (account_data u) = CaKind.network_accounts
signer (member u n) = CaKind.members_ca
signer (member_data u n) = CaKind.members_ca
signer (app u n) = CaKind.apps_ca
signer (app_data u n) = CaKind.apps_ca
signer (service n) = CaKind.service_ca
signer (service_data n) = CaKind.service_ca
signer (service_ca n) = CaKind.network_services
signer (members_ca n) = CaKind.service_ca
signer (apps_ca n) = CaKind.service_ca
signer _ = CaKind.network_root

abbrev pub service_of : Owner → Option ℕ
service_of (member u n) = some n
service_of (member_data u n) = some n
service_of (app u n) = some n
service_of (app_data u n) = some n
service_of (service n) = some n
service_of (service_data n) = some n
service_of (service_ca n) = some n
service_of (members_ca n) = some n
service_of (apps_ca n) = some n
service_of _ = none

-- What it is read as: only the CAs of members and apps read the UUID as one.
abbrev entity : IdType → Identifier → Option ℕ → EntityId
entity t i n = record { id_type = t; id = some i; service_id = n }

abbrev pub read_as : Owner → EntityId
read_as (account u) = entity IdType.account (name (uuid_text u)) none
read_as (account_data u) = entity IdType.account_data (name (uuid_text u)) none
read_as (member u n) = entity IdType.member (uuid u) (some n)
read_as (member_data u n) = entity IdType.member_data (uuid u) (some n)
read_as (app u n) = entity IdType.app (uuid u) (some n)
read_as (app_data u n) = entity IdType.app_data (uuid u) (some n)
read_as (service n) = entity IdType.service (name (codes "service")) (some n)
read_as (service_data n) = entity IdType.service_data (name (codes "data")) (some n)
read_as (service_ca n) = entity IdType.service_ca (name (codes "service-ca")) (some n)
read_as (members_ca n) = entity IdType.members_ca (name (codes "members-ca")) (some n)
read_as (apps_ca n) = entity IdType.apps_ca (name (codes "apps-ca")) (some n)
read_as accounts_ca = entity IdType.accounts_ca (name (codes "accounts-ca")) none
read_as services_ca = entity IdType.services_ca (name (codes "services-ca")) none
read_as network_data = entity IdType.network_data (name (codes "network")) none

-- UUIDs of 128 bits, service ids of 32.
abbrev pub InBounds : Owner → Type 0
InBounds (account u) = u < 2 ^ 128
InBounds (account_data u) = u < 2 ^ 128
InBounds (member u n) = (u < 2 ^ 128) × (n < 2 ^ 32)
InBounds (member_data u n) = (u < 2 ^ 128) × (n < 2 ^ 32)
InBounds (app u n) = (u < 2 ^ 128) × (n < 2 ^ 32)
InBounds (app_data u n) = (u < 2 ^ 128) × (n < 2 ^ 32)
InBounds (service n) = n < 2 ^ 32
InBounds (service_data n) = n < 2 ^ 32
InBounds (service_ca n) = n < 2 ^ 32
InBounds (members_ca n) = n < 2 ^ 32
InBounds (apps_ca n) = n < 2 ^ 32
InBounds _ = Unit

-- A working CA of the class, on the network, for the service if it is one that checks it.
pub record Signs (c : Ca) (o : Owner) (domain : Text) : Type 0 where
  pub working : c.ca ≡ true
  pub kind : c.kind ≡ signer o
  pub network : c.network ≡ domain
  pub service : by_service c.kind ≡ true → c.service_id ≡ service_of o

-- A working CA accepts what the general review accepts, of a type that it signs for.
accept :
    (c : Ca) (o : Owner) (domain s : Text) (e : EntityId)
    → Signs c o domain
    → review s domain c.service_id (by_uuid (signer o)) (by_service (signer o)) ≡ ok e
    → is_some (days_for e.id_type (accepted_csrs (signer o))) ≡ true
    → (by_service (signer o) ≡ true → is_some c.service_id ≡ true)
    → review_commonname c s ≡ ok e
unfolding review_commonname
accept c o domain s e w r d g = ground (arith, w.working, w.kind, w.network, g)

module _ (c : Ca) (domain : Text) (nonempty : domain ≢ []) where
  -- The CAs of members and apps.
  checked :
      (o : Owner) (t : IdType) (u n : ℕ)
      → is_numbered t ≡ true
      → by_uuid (signer o) ≡ true
      → by_service (signer o) ≡ true
      → service_of o ≡ some n
      → is_some (days_for t (accepted_csrs (signer o))) ≡ true
      → (u < 2 ^ 128) × (n < 2 ^ 32)
      → Signs c o domain
      → review_commonname c (name_of (uuid_text u) (subdomain_of t n) domain)
        ≡ ok (entity t (uuid u) (some n))
  checked o t u n h by_u by_s of_n d b w =
      let of_c : c.service_id ≡ some n = w.service (ap by_service w.kind ∙ by_s) ∙ of_n in
      accept c o domain _ _ w
        (simp (by_u, of_c) (review-numbered t u n domain true h b.0 b.1 nonempty)) d (λ _. rw of_c)

  -- The CAs of the network and of a service.
  unchecked :
      (o : Owner) (t : IdType) (i : Text) (n : ℕ)
      → is_numbered t ≡ true
      → by_uuid (signer o) ≡ false
      → by_service (signer o) ≡ false
      → is_some (days_for t (accepted_csrs (signer o))) ≡ true
      → Free b'.' i
      → i ≢ []
      → n < 2 ^ 32
      → Signs c o domain
      → review_commonname c (name_of i (subdomain_of t n) domain) ≡ ok (entity t (name i) (some n))
  unchecked o t i n h by_u by_s d hi ni b w =
      accept c o domain _ _ w
        (rw by_u (review-numbered_name t i n domain c.service_id h hi ni b nonempty)) d
        (λ e. cc by_s)

  plain :
      (o : Owner) (t : IdType) (i : Text)
      → is_plain t ≡ true
      → by_uuid (signer o) ≡ false
      → by_service (signer o) ≡ false
      → is_some (days_for t (accepted_csrs (signer o))) ≡ true
      → Free b'.' i
      → i ≢ []
      → Signs c o domain
      → review_commonname c (name_of i (id_value t) domain) ≡ ok (entity t (name i) none)
  plain o t i h by_u by_s d hi ni w =
      accept c o domain _ _ w (rw by_u (review-plain_name t i domain c.service_id h hi ni nonempty))
        d (λ e. cc by_s)

  accepts :
      (o : Owner) (s : Text)
      → InBounds o
      → Signs c o domain
      → written o domain ≡ ok s
      → review_commonname c s ≡ ok (read_as o)
  unfolding member_name member_data_name app_name app_data_name service_name service_data_name
      service_ca_name members_ca_name apps_ca_name accounts_ca_name services_ca_name
      network_data_name account_name account_data_name days_for accepted_csrs
  accepts (account u) s b w e = rw (← ok-injective e) (
      plain (account u) IdType.account (uuid_text u) refl refl refl refl
        (Free-uuid_text b'.' u refl) (uuid_text-ne-nil u) w)
  accepts (account_data u) s b w e = rw (← ok-injective e) (
      plain (account_data u) IdType.account_data (uuid_text u) refl refl refl refl
        (Free-uuid_text b'.' u refl) (uuid_text-ne-nil u) w)
  accepts (member u n) s b w e =
      rw (← ok-injective e) (checked (member u n) IdType.member u n refl refl refl refl refl b w)
  accepts (member_data u n) s b w e =
      rw (← ok-injective e)
        (checked (member_data u n) IdType.member_data u n refl refl refl refl refl b w)
  accepts (app u n) s b w e =
      rw (← ok-injective e) (checked (app u n) IdType.app u n refl refl refl refl refl b w)
  accepts (app_data u n) s b w e =
      rw (← ok-injective e)
        (checked (app_data u n) IdType.app_data u n refl refl refl refl refl b w)
  accepts (service n) s b w e = rw (← ok-injective e) (
      unchecked (service n) IdType.service (codes "service") n refl refl refl refl (ground arith)
        (cc) b w)
  accepts (service_data n) s b w e = rw (← ok-injective e) (
      unchecked (service_data n) IdType.service_data (codes "data") n refl refl refl refl
        (ground arith) (cc) b w)
  accepts (service_ca n) s b w e = rw (← ok-injective e) (
      unchecked (service_ca n) IdType.service_ca (codes "service-ca") n refl refl refl refl
        (ground arith) (cc) b w)
  accepts (members_ca n) s b w e = rw (← ok-injective e) (
      unchecked (members_ca n) IdType.members_ca (codes "members-ca") n refl refl refl refl
        (ground arith) (cc) b w)
  accepts (apps_ca n) s b w e = rw (← ok-injective e) (
      unchecked (apps_ca n) IdType.apps_ca (codes "apps-ca") n refl refl refl refl (ground arith)
        (cc) b w)
  accepts accounts_ca s b w e = rw (← ok-injective e) (
      plain accounts_ca IdType.accounts_ca (codes "accounts-ca") refl refl refl refl (ground arith)
        (cc) w)
  accepts services_ca s b w e = rw (← ok-injective e) (
      plain services_ca IdType.services_ca (codes "services-ca") refl refl refl refl (ground arith)
        (cc) w)
  accepts network_data s b w e = rw (← ok-injective e) (
      plain network_data IdType.network_data (codes "network") refl refl refl refl (ground arith)
        (cc) w)

-- The common name that a secret's class writes for an identity, UUIDs of 128 bits and service ids of
-- 32, is accepted by every working certificate authority of the class that is to sign it, on the
-- same network and, for members and apps, of the same service; and it is read as that identity.
pub written-IsAccepted :
    (c : Ca) (o : Owner) (domain s : Text)
    → domain ≢ []
    → InBounds o
    → Signs c o domain
    → written o domain ≡ ok s
    → review_commonname c s ≡ ok (read_as o)
written-IsAccepted c o domain s nonempty b w e = accepts c domain nonempty o s b w e

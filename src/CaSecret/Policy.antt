-- ===== src/CaSecret/Policy.antt =====
-- Which names a certificate authority accepts, and that no other accepts them.
use byoda_python.Base.{
  ℕ, ◌≡◌, refl, ap, true, ◌||◌, not, Option, none, some, ok, arith, Returns, Returns-ok,
  Returns-require, Returns-bind,
}
use byoda_python.Text.{Text}
use byoda_python.DataTypes.{IdType, EntityId}
use byoda_python.CommonName.{review, is_some}
use byoda_python.CommonName.Safety.{IsReviewed, review-IsReviewed, type_of}
use byoda_python.CaSecret.{
  CaKind, Ca, accepted_csrs, days_for, by_uuid, by_service, review_commonname,
}

-- The one class that signs for a type.
abbrev signer_of : IdType → Option CaKind
signer_of IdType.accounts_ca = some CaKind.network_root
signer_of IdType.services_ca = some CaKind.network_root
signer_of IdType.network_data = some CaKind.network_root
signer_of IdType.account = some CaKind.network_accounts
signer_of IdType.account_data = some CaKind.network_accounts
signer_of IdType.service_ca = some CaKind.network_services
signer_of IdType.members_ca = some CaKind.service_ca
signer_of IdType.apps_ca = some CaKind.service_ca
signer_of IdType.service = some CaKind.service_ca
signer_of IdType.service_data = some CaKind.service_ca
signer_of IdType.member = some CaKind.members_ca
signer_of IdType.member_data = some CaKind.members_ca
signer_of IdType.app = some CaKind.apps_ca
signer_of IdType.app_data = some CaKind.apps_ca
signer_of IdType.anonymous = none

signer_of-days_for :
    (k : CaKind) (t : IdType) (n : ℕ) → days_for t (accepted_csrs k) ≡ some n → signer_of t ≡ some k
unfolding days_for accepted_csrs
signer_of-days_for CaKind.network_root t n h = ground arith
signer_of-days_for _ t n h = ground arith

-- A name that a certificate authority accepts is one that the general review accepts, for the CA's
-- own network and, where the class checks it, its own service; and its type is one of those that
-- the class signs for.
pub record IsAccepted (c : Ca) (commonname : Text) (e : EntityId) : Type 0 where
  pub reviewed : IsReviewed commonname c.network c.service_id (by_uuid c.kind) (by_service c.kind) e
  pub lifetime : (n : ℕ) × (days_for e.id_type (accepted_csrs c.kind) ≡ some n)

is_some-witness : (o : Option ℕ) → is_some o ≡ true → (n : ℕ) × (o ≡ some n)
is_some-witness none h = cc
is_some-witness (some n) h = (n, refl)

pub review_commonname-IsAccepted :
    (c : Ca) (commonname : Text) (e : EntityId)
    → review_commonname c commonname ≡ ok e
    → IsAccepted c commonname e
unfolding review_commonname
review_commonname-IsAccepted c commonname e h = (steps c commonname).at e h
  where
    steps :
        (c : Ca) (commonname : Text)
        → Returns (IsAccepted c commonname) (review_commonname c commonname)
    steps c commonname = Returns-require c.ca _ _ λ is_ca.
        Returns-require (not (by_service c.kind) || is_some c.service_id) _ _ λ given.
          Returns-bind
            (review commonname c.network c.service_id (by_uuid c.kind) (by_service c.kind)) _
            λ found is_found.
              Returns-require (is_some (days_for found.id_type (accepted_csrs c.kind))) _ _
                λ allowed. Returns-ok _ (record {
                  reviewed =
                      review-IsReviewed commonname c.network c.service_id (by_uuid c.kind)
                        (by_service c.kind) found is_found;
                  lifetime =
                      is_some-witness (days_for found.id_type (accepted_csrs c.kind)) allowed;
                })

-- No common name is accepted by certificate authorities of two classes on one network.
pub signer_unique :
    (c d : Ca) (commonname : Text) (e f : EntityId)
    → c.network ≡ d.network
    → review_commonname c commonname ≡ ok e
    → review_commonname d commonname ≡ ok f
    → c.kind ≡ d.kind
signer_unique c d commonname e f n h k =
    let a = review_commonname-IsAccepted c commonname e h in
    let b = review_commonname-IsAccepted d commonname f k in
    cc (
      ap (type_of commonname) n,
      a.reviewed.typed,
      b.reviewed.typed,
      signer_of-days_for c.kind e.id_type a.lifetime.0 a.lifetime.1,
      signer_of-days_for d.kind f.id_type b.lifetime.0 b.lifetime.1,
    )

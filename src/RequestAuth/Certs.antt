-- ===== src/RequestAuth/Certs.antt =====
-- What the checks of the names in a client certificate establish.
use byoda_python.Base.{
  ℕ, ◌≡◌, refl, sym, ap, true, false, Option, none, some, ok, http, value_error, arith,
  ok-injective, or_raise-eq-ok, ◌∙◌, Returns, Returns-require, Returns-ok, Returns-bind,
  Returns-or_raise, Returns-on_value_error, Returns-call,
}
use byoda_python.Text.{Text}
use byoda_python.DataTypes.{IdType, Identifier, EntityId, id_type_eq}
use byoda_python.CommonName.{review, is_some}
use byoda_python.CaSecret.{CaKind, accepted_csrs, days_for, review_commonname}
use byoda_python.CaSecret.Policy.{IsAccepted, review_commonname-IsAccepted}
use byoda_python.RequestAuth.{
  RequestAuth, ServiceRef, named, service_number, review_names_by, review_service_names,
  parse_service_commonname, as_service, checking_ca, check_member_cert, check_service_cert,
}

-- The names in the certificate are those of member `u` of service `n`, the one that is asked for: a name
-- that the CA of the service's members accepts, and of an issuer whose name service CAs accept.
pub record IsMemberCert (service_id : Option ServiceRef) (network client_cn issuing_ca_cn : Text)
    (e : EntityId) : Type 0 where
  pub n : ℕ
  pub asked : service_number service_id ≡ ok n
  pub u : ℕ
  pub accepted : IsAccepted (checking_ca CaKind.members_ca (some n) network) client_cn e
  pub is_member : e.id ≡ some (Identifier.uuid u)
  pub of_service : e.service_id ≡ some n
  pub issuer : EntityId
  pub signed : IsAccepted (checking_ca CaKind.service_ca (some n) network) issuing_ca_cn issuer

-- What `check_member_cert` establishes, and what it changes.
pub record IsMember (asked : Option ServiceRef) (network : Text) (before after : RequestAuth)
    : Type 0 where
  pub client_cn : Text
  pub issuing_ca_cn : Text
  pub is_client : named before.client_cn ≡ some client_cn
  pub is_issuer : named before.issuing_ca_cn ≡ some issuing_ca_cn
  pub entity_id : EntityId
  pub cert : IsMemberCert asked network client_cn issuing_ca_cn entity_id
  pub member_id : after.member_id ≡ some (Identifier.uuid cert.u)
  pub service_id : after.service_id ≡ as_service (some cert.n)
  pub id_type : after.id_type ≡ before.id_type

IsMemberCert-of_reviews :
    (service_id : Option ServiceRef) (network client_cn issuing_ca_cn : Text) (n : ℕ)
    (e issuer : EntityId)
    → service_number service_id ≡ ok n
    → review_commonname (checking_ca CaKind.members_ca (some n) network) client_cn ≡ ok e
    → review_commonname (checking_ca CaKind.service_ca (some n) network) issuing_ca_cn ≡ ok issuer
    → IsMemberCert service_id network client_cn issuing_ca_cn e
IsMemberCert-of_reviews service_id network client_cn issuing_ca_cn n e issuer is_asked h k =
    let a =
      review_commonname-IsAccepted (checking_ca CaKind.members_ca (some n) network) client_cn e h in
    let (u, is_uuid, _) = a.reviewed.identified in
    let (m, wanted, found) = a.reviewed.of_service refl in
    record {
      n = n;
      asked = is_asked;
      u = u;
      accepted = a;
      is_member = is_uuid;
      of_service = cc;
      issuer = issuer;
      signed =
          review_commonname-IsAccepted (checking_ca CaKind.service_ca (some n) network)
            issuing_ca_cn issuer k;
    }

review_member_names-IsMemberCert :
    (service_id : Option ServiceRef) (network client_cn issuing_ca_cn : Text)
    → Returns (IsMemberCert service_id network client_cn issuing_ca_cn) (
        review_names_by CaKind.members_ca CaKind.service_ca service_id network client_cn
          issuing_ca_cn)
unfolding review_names_by
review_member_names-IsMemberCert service_id network client_cn issuing_ca_cn =
    Returns-bind (service_number service_id) _ λ n is_asked.
      Returns-bind (review_commonname (checking_ca CaKind.members_ca (some n) network) client_cn) _
        λ e reviewed.
          Returns-bind
            (review_commonname (checking_ca CaKind.service_ca (some n) network) issuing_ca_cn) _
            λ issuer issued. Returns-ok e (
              IsMemberCert-of_reviews service_id network client_cn issuing_ca_cn n e issuer is_asked
                reviewed issued)

pub check_member_cert-IsMember :
    (service_id : Option ServiceRef) (network : Text) (auth : RequestAuth)
    → Returns (IsMember service_id network auth) (check_member_cert service_id network auth)
unfolding check_member_cert
check_member_cert-IsMember service_id network auth =
    Returns-or_raise (http 401) (named auth.client_cn) _ λ client_cn is_client.
      Returns-or_raise (http 401) (named auth.issuing_ca_cn) _ λ issuing_ca_cn is_issuer.
        Returns-call _ _
          (Returns-on_value_error (http 403) _
            (review_member_names-IsMemberCert service_id network client_cn issuing_ca_cn))
          λ e cert. Returns-ok _ (record {
            client_cn = client_cn;
            issuing_ca_cn = issuing_ca_cn;
            is_client = is_client;
            is_issuer = is_issuer;
            entity_id = e;
            cert = cert;
            member_id = cert.is_member;
            service_id = ap as_service cert.of_service;
            id_type = refl;
          })

-- The names in the certificate are those of service `n`, which a service's CA accepts, and of an
-- issuer whose name the CA of the network's services accepts.
pub record IsServiceCert (network client_cn issuing_ca_cn : Text) (n : ℕ) (e : EntityId)
    : Type 0 where
  pub accepted : IsAccepted (checking_ca CaKind.service_ca (some n) network) client_cn e
  pub is_service : e.id_type ≡ IdType.service
  pub of_service : e.service_id ≡ some n
  pub issuer : EntityId
  pub signed : IsAccepted (checking_ca CaKind.network_services none network) issuing_ca_cn issuer

-- What `check_service_cert` establishes, and what it changes.
pub record IsService (network : Text) (before after : RequestAuth) : Type 0 where
  pub client_cn : Text
  pub issuing_ca_cn : Text
  pub is_client : named before.client_cn ≡ some client_cn
  pub is_issuer : named before.issuing_ca_cn ≡ some issuing_ca_cn
  pub n : ℕ
  pub entity_id : EntityId
  pub cert : IsServiceCert network client_cn issuing_ca_cn n entity_id
  pub service_id : after.service_id ≡ as_service (some n)
  pub member_id : after.member_id ≡ before.member_id
  pub id_type : after.id_type ≡ before.id_type

pub id_type_eq→≡ : (a b : IdType) → id_type_eq a b ≡ true → a ≡ b
id_type_eq→≡ a b h = ground arith

-- A parsed name is that of a service with that number.
record IsParsed (network client_cn : Text) (n : ℕ) : Type 0 where
  found : EntityId
  reviewed : review client_cn network none false false ≡ ok found
  is_service : found.id_type ≡ IdType.service
  of_service : found.service_id ≡ some n

parse_service_commonname-IsParsed :
    (client_cn network : Text)
    → Returns (IsParsed network client_cn) (parse_service_commonname client_cn network)
unfolding parse_service_commonname
parse_service_commonname-IsParsed client_cn network =
    Returns-bind (review client_cn network none false false) _ λ e reviewed.
      Returns-require (id_type_eq e.id_type IdType.service) _ _ λ typed. record {
        at = λ n found. record {
          found = e;
          reviewed = reviewed;
          is_service = id_type_eq→≡ e.id_type IdType.service typed;
          of_service = or_raise-eq-ok value_error e.service_id found;
        };
      }

-- The review by a service's CA reads the name as the parser does.
service_ca-review :
    (n : ℕ) (network client_cn : Text)
    → Returns
        (λ e. review client_cn network none false false ≡ ok e)
        (review_commonname (checking_ca CaKind.service_ca (some n) network) client_cn)
unfolding review_commonname review
service_ca-review n network client_cn =
    Returns-bind (review client_cn network (some n) false false) _ λ e reviewed.
      Returns-require (is_some (days_for e.id_type (accepted_csrs CaKind.service_ca))) _ _
        λ _. Returns-ok e reviewed

review_service_names-IsServiceCert :
    (n : ℕ) (network client_cn issuing_ca_cn : Text)
    → IsParsed network client_cn n
    → Returns
        (IsServiceCert network client_cn issuing_ca_cn n)
        (review_service_names n network client_cn issuing_ca_cn)
unfolding review_service_names
review_service_names-IsServiceCert n network client_cn issuing_ca_cn p =
    Returns-bind (review_commonname (checking_ca CaKind.service_ca (some n) network) client_cn) _
      λ e reviewed.
        Returns-bind
          (review_commonname (checking_ca CaKind.network_services none network) issuing_ca_cn) _
          λ issuer issued.
            let same : p.found ≡ e =
              ok-injective
                (sym p.reviewed ∙ (service_ca-review n network client_cn).at e reviewed) in
            Returns-ok e (record {
              accepted =
                  review_commonname-IsAccepted (checking_ca CaKind.service_ca (some n) network)
                    client_cn e reviewed;
              is_service = ap (λ (x : EntityId). x.id_type) (sym same) ∙ p.is_service;
              of_service = ap (λ (x : EntityId). x.service_id) (sym same) ∙ p.of_service;
              issuer = issuer;
              signed =
                  review_commonname-IsAccepted (checking_ca CaKind.network_services none network)
                    issuing_ca_cn issuer issued;
            })

pub check_service_cert-IsService :
    (network : Text) (auth : RequestAuth)
    → Returns (IsService network auth) (check_service_cert network auth)
unfolding check_service_cert
check_service_cert-IsService network auth =
    Returns-or_raise (http 401) (named auth.client_cn) _ λ client_cn is_client.
      Returns-or_raise (http 401) (named auth.issuing_ca_cn) _ λ issuing_ca_cn is_issuer.
        Returns-call _ _ (parse_service_commonname-IsParsed client_cn network) λ n parsed.
          Returns-call _ _
            (Returns-on_value_error (http 403) _
              (review_service_names-IsServiceCert n network client_cn issuing_ca_cn parsed))
            λ e cert. Returns-ok _ (record {
              client_cn = client_cn;
              issuing_ca_cn = issuing_ca_cn;
              is_client = is_client;
              is_issuer = is_issuer;
              n = n;
              entity_id = e;
              cert = cert;
              service_id = ap as_service cert.of_service;
              member_id = refl;
              id_type = refl;
            })

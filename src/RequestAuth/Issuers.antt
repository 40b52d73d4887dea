-- ===== src/RequestAuth/Issuers.antt =====
-- What the checks of a certificate make of the name of its issuer.
use byoda_python.Base.{
  ℕ, ◌^◌, ◌<◌, ◌≡◌, ◌≢◌, refl, some, [], Option, ok, http, Returns, Returns-bind, Returns-or_raise,
  Returns-on_value_error, Returns-call,
}
use byoda_python.Text.{Text}
use byoda_python.Text.Number.{decimal, to_int-decimal}
use byoda_python.DataTypes.{Identifier, EntityId}
use byoda_python.CaSecret.{CaKind, review_commonname}
use byoda_python.CaSecret.Policy.{signer_unique}
use byoda_python.Names.{member_name, members_ca_name, apps_ca_name}
use byoda_python.Names.Accepted.{Owner, read_as, written-IsAccepted}
use byoda_python.RequestAuth.{
  RequestAuth, ServiceRef, AuthId, named, service_number, checking_ca, review_names_by,
  check_member_cert, check_app_cert, as_service,
}

-- A member's certificate passes the check with the CA of any service's members as its issuer.
pub record PassesAs (claimed : Option ServiceRef) (network : Text) (auth : RequestAuth) (u s : ℕ)
    : Type 0 where
  pub after : RequestAuth
  pub passed : check_member_cert claimed network auth ≡ ok after
  pub member_id : after.member_id ≡ some (Identifier.uuid u)
  pub service_id : after.service_id ≡ as_service (some s)

module _ (network : Text) (nonempty : network ≢ []) where
  service_number-decimal : (s : ℕ) → service_number (some (ServiceRef.text (decimal s))) ≡ ok s
  unfolding service_number
  service_number-decimal s = rw (to_int-decimal s, service_number)

  names-accepted :
      (u s k : ℕ) (client_cn : Text)
      → u < 2 ^ 128
      → s < 2 ^ 32
      → k < 2 ^ 32
      → member_name (some u) s network ≡ ok client_cn
      → review_names_by CaKind.members_ca CaKind.service_ca
          (some (ServiceRef.text (decimal s)))
          network
          client_cn
          (members_ca_name k network)
        ≡ ok (read_as (Owner.member u s))
  unfolding review_names_by
  names-accepted u s k client_cn bu bs bk is_member =
      rw
        (
          service_number-decimal s,
          written-IsAccepted (checking_ca CaKind.members_ca (some s) network) (Owner.member u s)
              network client_cn nonempty (bu, bs)
              (record { working = refl; kind = refl; network = refl; service = λ e. refl })
              is_member,
          written-IsAccepted (checking_ca CaKind.service_ca (some s) network) (Owner.members_ca k)
              network (members_ca_name k network) nonempty bk
              (record { working = refl; kind = refl; network = refl; service = λ e. cc }) refl,
        )
        refl

  -- The check of a member's certificate lets in every member whose name its class writes for the
  -- service, with the UUID and the service of the name; but it does so whichever service's members' CA
  -- issued the certificate, since the issuer's service id `k` is not compared with the member's `s`.
  pub check_member_cert-any_issuer :
      (u s k : ℕ) (client_cn : Text) (auth : RequestAuth)
      → u < 2 ^ 128
      → s < 2 ^ 32
      → k < 2 ^ 32
      → member_name (some u) s network ≡ ok client_cn
      → named auth.client_cn ≡ some client_cn
      → named auth.issuing_ca_cn ≡ some (members_ca_name k network)
      → PassesAs (some (ServiceRef.text (decimal s))) network auth u s
  unfolding check_member_cert
  check_member_cert-any_issuer u s k client_cn auth bu bs bk is_member is_client is_issuer =
      record {
        after = record auth {
          member_id = some (Identifier.uuid u);
          id = some (AuthId.identifier (Identifier.uuid u));
          service_id = as_service (some s);
        };
        passed = rw (is_client, is_issuer, names-accepted u s k client_cn bu bs bk is_member) refl;
        member_id = refl;
        service_id = refl;
      }

  -- The apps' CA of a service accepts no name of an apps' CA.
  apps_ca-refuses :
      (n k : ℕ) (e : EntityId)
      → k < 2 ^ 32
      → review_commonname (checking_ca CaKind.apps_ca (some n) network) (apps_ca_name k network)
        ≢ ok e
  apps_ca-refuses n k e bk accepted = cc (
      signer_unique (checking_ca CaKind.apps_ca (some n) network)
        (checking_ca CaKind.service_ca (some k) network) (apps_ca_name k network) e
        (read_as (Owner.apps_ca k)) refl accepted
        (written-IsAccepted (checking_ca CaKind.service_ca (some k) network) (Owner.apps_ca k)
          network (apps_ca_name k network) nonempty bk
          (record { working = refl; kind = refl; network = refl; service = λ e. refl }) refl))

  app_names-refused :
      (service_id : Option ServiceRef) (client_cn : Text) (k : ℕ)
      → k < 2 ^ 32
      → Returns
          (λ e. ⊥)
          (review_names_by CaKind.apps_ca CaKind.apps_ca service_id network client_cn
            (apps_ca_name k network))
  unfolding review_names_by
  app_names-refused service_id client_cn k bk = Returns-bind (service_number service_id) _ λ n _.
      Returns-bind (review_commonname (checking_ca CaKind.apps_ca (some n) network) client_cn) _
        λ e _.
          Returns-bind
            (review_commonname (checking_ca CaKind.apps_ca (some n) network)
              (apps_ca_name k network))
            _ λ issuer accepted. absurd (apps_ca-refuses n k issuer bk accepted)

  app_cert-refused :
      (service_id : Option ServiceRef) (auth : RequestAuth) (k : ℕ)
      → k < 2 ^ 32
      → named auth.issuing_ca_cn ≡ some (apps_ca_name k network)
      → Returns (λ after. ⊥) (check_app_cert service_id network auth)
  unfolding check_app_cert
  app_cert-refused service_id auth k bk is_issuer = rw is_issuer (
      Returns-or_raise (http 401) (named auth.client_cn) _ λ client_cn _.
        Returns-call _ _
          (Returns-on_value_error (http 403) _ (app_names-refused service_id client_cn k bk))
          λ e refused. absurd refused)

  -- No certificate that a service's apps' CA issued passes the check of an app's certificate: the check
  -- reviews the name of the issuer as if an apps' CA had signed it, and a service's CA signs that.
  check_app_cert-refuses :
      (service_id : Option ServiceRef) (auth after : RequestAuth) (k : ℕ)
      → k < 2 ^ 32
      → named auth.issuing_ca_cn ≡ some (apps_ca_name k network)
      → check_app_cert service_id network auth ≢ ok after
  check_app_cert-refuses service_id auth after k bk is_issuer =
      (app_cert-refused service_id auth k bk is_issuer).at after

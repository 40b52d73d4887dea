-- ===== src/RequestAuth/Directory.antt =====
-- Accounts and services at a directory server: `post_account` and `put_account` of
-- dirserver/routers/account.py and `post_service` of dirserver/routers/service.py.
use byoda_python.Base.{
  ℕ, ◌≡◌, refl, sym, ap, ◌∙◌, ◌⊎◌, inl, inr, arith, Bool, true, false, not, Option, none, some,
  Result, ok, raise, http, value_error, key_error, permission_error, ◌>>=◌, ◌>>◌, require, ◌==◌,
  if◌then◌else◌, Returns, Returns-ok, Returns-bind, Returns-then, Returns-call, List, ok-injective,
}
use byoda_python.Text.{Text, text_eq}
use byoda_python.Text.Laws.{text_eq→≡}
use byoda_python.DataTypes.{IdType, Identifier, EntityId, id_type_eq}
use byoda_python.Names.{account_name}
use byoda_python.CaSecret.{CaKind, Ca, review_static}
use byoda_python.CaSecret.Requests.{Cert}
use byoda_python.CaSecret.Store.{SigningRequest, extract_commonname, sign, IsSigned, sign-IsSigned}
use byoda_python.Jwt.{PyJwt}
use byoda_python.RequestAuth.{RequestAuth, ServiceRef, new_auth, named}
use byoda_python.RequestAuth.Tokens.{Pod}
use byoda_python.RequestAuth.Requests.{Headers, same_service_id}
use byoda_python.RequestAuth.Api.{is_cert}
use byoda_python.RequestAuth.Callers.{IsCertified}
use byoda_python.RequestAuth.Servers.{Dependency, authenticate_server}
use byoda_python.RequestAuth.ServerCallers.{
  IsAccountCert, IsServerCaller, authenticate_server-IsServerCaller,
}
use byoda_python.RequestAuth.Registration.{on_review}

-- `==` of the ids of two entities.
abbrev pub same_id : Option Identifier → Option Identifier → Bool
same_id none none = true
same_id (some (Identifier.uuid u)) (some (Identifier.uuid v)) = u == v
same_id (some (Identifier.name s)) (some (Identifier.name t)) = text_eq s t
same_id _ _ = false

-- Who may have a certificate for an account: the account itself by its certificate, or a new client for
-- a name that the DNS does not have yet.
abbrev pub may_register : RequestAuth → EntityId → Bool → Result (Unit {0})
may_register auth entity_id dns_exists =
    if auth.is_authenticated
    then require (is_cert auth.auth_source) (http 401)
      >> (require (id_type_eq entity_id.id_type IdType.account) (http 403)
          >> require (same_id entity_id.id auth.account_id) (http 401))
    else require (not dns_exists) (http 401)

-- The name that `DnsDb.create_update` writes for the id of an account; the review of an account gives
-- no other ids than UUIDs.
unfoldable pub account_record : Option Identifier → Text → Result Text
unfolding account_name
account_record (some (Identifier.uuid u)) network = ok (account_name u network)
account_record _ network = raise value_error

-- What `post_account` leaves: the entity that it let in, the certificate with its chain, and the name
-- that gets an A record, if any.
pub record SignedAccount : Type 0 where
  pub entity_id : EntityId
  pub certchain : Cert × List Text
  pub dns_record : Option Text

-- The DNS is written only for a name that was not found.
unfoldable pub record_for : Bool → Option Identifier → Text → Result (Option Text)
unfolding account_record
record_for true id network = ok none
record_for false id network = do name ← account_record id network; ok (some name)

-- `post_account`. `known` tells for which names `lookup_fqdn` raises no KeyError: those that the DNS of
-- the network has an A record for. `ca` is the accounts' CA.
unfoldable pub post_account :
    PyJwt → Pod → Ca → (Text → Bool) → Headers → SigningRequest → ℕ → Result SignedAccount
unfolding authenticate_server extract_commonname review_static sign record_for
post_account py_jwt server ca known h request now = do
  auth ← authenticate_server py_jwt server none (Dependency.account true) h
  common_name ← extract_commonname request
  entity_id ← on_review (review_static CaKind.network_accounts common_name server.network none)
  may_register auth entity_id (known common_name)
  certchain ← sign ca request.csr now
  dns_record ← record_for (known common_name) entity_id.id server.network
  ok (record { entity_id = entity_id; certchain = certchain; dns_record = dns_record })

-- `put_account` up to the DNS record: the account that it is for.
unfoldable pub put_account : PyJwt → Pod → Headers → Result (Option Identifier)
unfolding authenticate_server
put_account py_jwt server h = do
  auth ← authenticate_server py_jwt server none (Dependency.account false) h
  require auth.is_authenticated (http 401)
  ok auth.account_id

abbrev pub same_service : Option ServiceRef → Option ℕ → Bool
same_service none none = true
same_service r (some n) = same_service_id r n
same_service _ none = false

abbrev pub may_certify : RequestAuth → EntityId → Bool → Result (Unit {0})
may_certify auth entity_id dns_exists =
    if auth.is_authenticated
    then require (is_cert auth.auth_source) (http 401)
      >> (require (id_type_eq auth.id_type IdType.service) (http 401)
          >> require (same_service auth.service_id entity_id.service_id) (http 403))
    else require (not dns_exists) (http 403)

-- `post_service` up to what it stores: the entity and the certificate of its CA. It does not
-- authenticate the client: its state is the initial one. `ca` is the services' CA.
unfoldable pub post_service :
    Pod → Ca → (Text → Bool) → SigningRequest → ℕ → Result (EntityId × Cert × List Text)
unfolding extract_commonname review_static sign
post_service server ca known request now = do
  common_name ← extract_commonname request
  entity_id ← on_review (review_static CaKind.network_services common_name server.network none)
  may_certify new_auth entity_id (known common_name)
  (cert, chain) ← sign ca request.csr now
  ok (entity_id, cert, chain)

-- The client has the certificate of an account, which is the one that the entity is.
pub record IsOwnAccount (network : Text) (h : Headers) (entity_id : EntityId) : Type 0 where
  pub client_dn : Text
  pub is_client : named h.client_dn ≡ some client_dn
  pub before : RequestAuth
  pub after : RequestAuth
  pub is_certified : IsCertified client_dn h.issuing_ca_dn before
  pub is_account : before.id_type ≡ IdType.account
  pub cert : IsAccountCert network before after
  pub same : entity_id.id ≡ cert.entity_id.id

-- The last common name of the request is one of the entity, which the class of the accounts' CA
-- accepts; it is not in the DNS, and the account of its UUID gets a record, or it is there and of the
-- client's own account, and nothing gets a record. The certificate is for what the CA reviews: the DNS
-- name of the request, which is its first common name.
pub record IsRegistered (network : Text) (ca : Ca) (known : Text → Bool) (h : Headers)
    (request : SigningRequest) (now : ℕ) (r : SignedAccount) : Type 0 where
  pub common_name : Text
  pub is_last : extract_commonname request ≡ ok common_name
  pub reviewed : review_static CaKind.network_accounts common_name network none ≡ ok r.entity_id
  pub is_for : (known common_name ≡ false) ⊎ IsOwnAccount network h r.entity_id
  pub signed : IsSigned ca request.csr now r.certchain.0
  pub is_record :
      ((known common_name ≡ true) × (r.dns_record ≡ none))
      ⊎ ((known common_name ≡ false)
          × ((u : ℕ) × (r.entity_id.id ≡ some (Identifier.uuid u))
              × (r.dns_record ≡ some (account_name u network))))

on_review-eq-ok : {A : Type 0} (r : Result A) {a : A} → on_review r ≡ ok a → r ≡ ok a
on_review-eq-ok (ok b) h = h
on_review-eq-ok (raise permission_error) h = absurd (cc)
on_review-eq-ok (raise value_error) h = absurd (cc)
on_review-eq-ok (raise key_error) h = absurd (cc)
on_review-eq-ok (raise _) h = h

same_id→≡ : (a b : Option Identifier) → same_id a b ≡ true → a ≡ b
same_id→≡ none none h = refl
same_id→≡ (some (Identifier.uuid u)) (some (Identifier.uuid v)) h =
    ap (λ n. some (Identifier.uuid n)) (ground arith)
same_id→≡ (some (Identifier.name s)) (some (Identifier.name t)) h =
    ap (λ n. some (Identifier.name n)) (text_eq→≡ s t h)
same_id→≡ _ _ h = absurd (cc)

may_register_cases :
    (auth : RequestAuth) (e : EntityId) (dns_exists : Bool)
    → may_register auth e dns_exists ≡ ok tt
    → (dns_exists ≡ false) ⊎ ((auth.is_authenticated ≡ true) × (e.id ≡ auth.account_id))
may_register_cases auth e dns_exists h =
    by_flags auth.is_authenticated (is_cert auth.auth_source) (id_type_eq e.id_type IdType.account)
      (same_id e.id auth.account_id) refl dns_exists h
  where
    by_flags :
        (a c t s : Bool)
        → same_id e.id auth.account_id ≡ s
        → (k : Bool)
        → (if a
            then require c (http 401) >> (require t (http 403) >> require s (http 401))
            else require (not k) (http 401))
          ≡ ok tt
        → (k ≡ false) ⊎ ((a ≡ true) × (e.id ≡ auth.account_id))
    by_flags true true true true same k h = inr (refl, same_id→≡ e.id auth.account_id same)
    by_flags true true true false same k h = absurd (cc)
    by_flags true true false s same k h = absurd (cc)
    by_flags true false t s same k h = absurd (cc)
    by_flags false c t s same true h = absurd (cc)
    by_flags false c t s same false h = inl refl

record_cases :
    (b : Bool) (id : Option Identifier) (network : Text) (r : Option Text)
    → record_for b id network ≡ ok r
    → ((b ≡ true) × (r ≡ none))
      ⊎ ((b ≡ false)
          × ((u : ℕ) × (id ≡ some (Identifier.uuid u)) × (r ≡ some (account_name u network))))
unfolding record_for account_record
record_cases true id network r h = inl (refl, sym (ok-injective h))
record_cases false (some (Identifier.uuid u)) network r h =
    inr (refl, (u, refl, sym (ok-injective h)))
record_cases false (some (Identifier.name t)) network r h = absurd (cc)
record_cases false none network r h = absurd (cc)

module _ (py_jwt : PyJwt) (server : Pod) (known : Text → Bool) (h : Headers) where
  caller_found :
      Returns
        (IsServerCaller (Dependency.account true) server.network h)
        (authenticate_server py_jwt server none (Dependency.account true) h)
  caller_found = record {
    at = authenticate_server-IsServerCaller py_jwt server h none (Dependency.account true);
  }

  own_account :
      (auth : RequestAuth) (e : EntityId)
      → IsServerCaller (Dependency.account true) server.network h auth
      → auth.is_authenticated ≡ true
      → e.id ≡ auth.account_id
      → IsOwnAccount server.network h e
  own_account auth e (IsServerCaller.unknown optional unknown) known_client same = absurd (cc)
  own_account auth e (IsServerCaller.certified dn before after given is_cert typed cert is_auth)
        known_client same =
      record {
        client_dn = dn;
        is_client = given;
        before = before;
        after = after;
        is_certified = is_cert;
        is_account = typed;
        cert = cert;
        same = same ∙ (ap (λ (a : RequestAuth). a.account_id) is_auth ∙ cert.account_id);
      }

  -- A certificate for an account is signed only for a request whose last common name the class of the
  -- accounts' CA accepts, and is either not in the DNS yet, or of the account whose certificate the client
  -- has. If the name is in the DNS no record is written, and else that of the account with the name's
  -- UUID, whatever the type in the name is. The certificate has the key of the request, three years, and
  -- the DNS name of the request, which the CA accepts and finds equal to the first common name.
  pub post_account-IsRegistered :
      (ca : Ca) (request : SigningRequest) (now : ℕ) (r : SignedAccount)
      → post_account py_jwt server ca known h request now ≡ ok r
      → IsRegistered server.network ca known h request now r
  unfolding post_account
  post_account-IsRegistered ca request now r done =
      (Returns-call {P = IsRegistered server.network ca known h request now}
          (authenticate_server py_jwt server none (Dependency.account true) h) _ caller_found
          λ auth caller. Returns-bind (extract_commonname request) _ λ common_name is_last.
            Returns-bind _ _ λ e reviewed.
              Returns-then (may_register auth e (known common_name)) _ λ may.
                Returns-call (sign ca request.csr now) _ (sign-IsSigned ca request.csr now)
                  λ certchain signed.
                    Returns-bind (record_for (known common_name) e.id server.network) _
                      λ dns_record written. Returns-ok _ (record {
                        common_name = common_name;
                        is_last = is_last;
                        reviewed = on_review-eq-ok _ reviewed;
                        is_for = elim (may_register_cases auth e (known common_name) may) [
                          | inl new ↦ inl new
                          | inr (known_client, same) ↦
                              inr (own_account auth e caller known_client same)
                        ];
                        signed = signed;
                        is_record =
                            record_cases (known common_name) e.id server.network dns_record written;
                      })).at
        r done

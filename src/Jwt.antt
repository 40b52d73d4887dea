-- ===== src/Jwt.antt =====
-- JSON web tokens: byoda/requestauth/jwt.py. Encoding, signatures and the tests of the expiration and
-- the audience are those of the `jwt` package, so `PyJwt` holds its two ways of decoding.
pub mod Scope
pub mod RoundTrip
use byoda_python.Base.{
  ℕ, ◌+◌, ◌*◌, ◌≡◌, Bool, true, false, List, [], ◌∷◌, ◌++◌, Option, none, some, drop, if◌then◌else◌,
  ◌==◌, Result, ok, raise, value_error, key_error, attribute_error, ◌>>=◌, ◌>>◌, require, or_raise,
}
use byoda_python.Text.{
  Text, codes, text_eq, starts_with, ends_with, split, split_max, contains, lower,
}
use byoda_python.Text.Number.{ℤ, pos, negsuc, to_int, decimal, strip}
use byoda_python.Text.Uuid.{to_uuid, uuid_text}
use byoda_python.DataTypes.{IdType, id_value, all_id_types, id_type_eq}

-- A number in a payload may be written as a text.
pub data ClaimedNumber : Type 0 where
  number : ℤ → ClaimedNumber
  text : Text → ClaimedNumber

-- The payload of a token: its registered claims, and those that the code adds.
pub record Claims : Type 0 where
  pub exp : Option ℕ
  pub iss : Option Text
  pub aud : Option (List Text)
  pub scope : Option Text
  pub service_id : Option ClaimedNumber

-- `jwt.decode` with a key and an audience, and with `verify_signature` off.
pub record PyJwt : Type 0 where
  pub decode : Text → ℕ → Text → Result Claims
  pub decode_unverified : Text → Result Claims
  -- A verified payload is the one that the token carries, and names the audience.
  pub same_payload :
      (token : Text) (key : ℕ) (audience : Text) (c : Claims)
      → decode token key audience ≡ ok c
      → decode_unverified token ≡ ok c

-- Who a token is for: a UUID, or the number of a service.
pub data ScopeId : Type 0 where
  uuid : ℕ → ScopeId
  number : ℤ → ScopeId

pub record Jwt : Type 0 where
  pub expiration : ℕ
  pub issuer_type : IdType
  pub issuer_id : ℕ
  pub audience : List Text
  pub service_id : Option ℤ
  pub scope_type : IdType
  pub scope_id : ScopeId

-- `f'urn: network-{network_name}'`
abbrev pub audience_of : Text → Text
audience_of network_name = codes "urn: network-" ++ network_name

-- `f'{scope_id}'`
abbrev pub scope_id_text : ScopeId → Text
scope_id_text (ScopeId.uuid u) = uuid_text u
scope_id_text (ScopeId.number (pos n)) = decimal n
scope_id_text (ScopeId.number (negsuc n)) = b'-' ∷ decimal (n + 1)

-- A service id of 0 counts as none.
abbrev pub service_text : Option ℕ → Text
service_text none = []
service_text (some n) = if n == 0 then [] else decimal n

-- `JWT.generate_scope`
unfoldable pub generate_scope : ScopeId → IdType → Option ℕ → Text → Text
generate_scope scope_id scope_type service_id network_name =
    codes "urn: "
    ++ (scope_id_text scope_id
        ++ b'.' ∷ (id_value scope_type ++ (service_text service_id ++ b'.' ∷ network_name)))

-- `IdType(value)`
find_id_value : Text → List IdType → Result IdType
find_id_value s [] = raise value_error
find_id_value s (t ∷ ts) = if text_eq s (id_value t) then ok t else find_id_value s ts

unfoldable pub to_id_type : Text → Result IdType
unfolding find_id_value
to_id_type s = find_id_value s all_id_types

-- `if s.startswith('urn:'): s = s[4:].strip()`
abbrev pub without_urn : Text → Text
without_urn s = if starts_with s (codes "urn:") then strip (drop 4 s) else s

abbrev pub same_number : ℤ → Option ℤ → Bool
same_number n none = false
same_number (pos n) (some (pos m)) = n == m
same_number (negsuc n) (some (negsuc m)) = n == m
same_number _ (some _) = false

-- `id_type_value, service_id_val = subdomain.split('-')`
unfoldable pub dashed_scope_type : Option ℤ → List Text → Result IdType
unfolding to_id_type
dashed_scope_type service_id (kind ∷ digits ∷ []) = do
  n ← or_raise value_error (to_int 10 digits)
  require (same_number n service_id) value_error
  to_id_type (kind ++ b'-' ∷ [])
dashed_scope_type service_id _ = raise value_error

unfoldable pub read_scope_type : Option ℤ → Text → Result IdType
unfolding dashed_scope_type to_id_type
read_scope_type service_id subdomain =
    if contains subdomain b'-'
    then dashed_scope_type service_id (split b'-' subdomain)
    else to_id_type subdomain

abbrev pub is_service : IdType → Bool
is_service t = id_type_eq t IdType.service

unfoldable pub read_scope_id : Bool → Text → Result ScopeId
read_scope_id true hostname = do
  n ← or_raise value_error (to_int 10 hostname)
  ok (ScopeId.number n)
read_scope_id false hostname = do u ← to_uuid hostname; ok (ScopeId.uuid u)

-- The rest of `parse_scope`, once the scope is cut at its first two dots.
unfoldable pub read_scope : Text → Option ℤ → List Text → Result (IdType × ScopeId)
unfolding read_scope_type read_scope_id
read_scope network_name service_id (hostname ∷ subdomain ∷ domain ∷ []) = do
  require (text_eq domain network_name) value_error
  scope_type ← read_scope_type service_id subdomain
  scope_id ← read_scope_id (is_service scope_type) hostname
  ok (scope_type, scope_id)
read_scope network_name service_id _ = raise value_error

-- `JWT.parse_scope`: `None.startswith` is an AttributeError.
unfoldable pub parse_scope : Text → Option ℤ → Option Text → Result (IdType × ScopeId)
unfolding read_scope
parse_scope network_name service_id none = raise attribute_error
parse_scope network_name service_id (some scope) =
    read_scope network_name service_id (split_max b'.' 2 (without_urn scope))

abbrev pub same_scope_id : ScopeId → ScopeId → Bool
same_scope_id (ScopeId.uuid u) (ScopeId.uuid v) = u == v
same_scope_id (ScopeId.number n) (ScopeId.number m) = same_number n (some m)
same_scope_id _ _ = false

-- `JWT.check_scope`
unfoldable pub check_scope : Jwt → IdType → ScopeId → Result (Unit {0})
check_scope jwt scope_type scope_id = do
  require (id_type_eq jwt.scope_type scope_type) value_error
  require (same_scope_id jwt.scope_id scope_id) value_error

-- The issuer: `member_id-<uuid>` or `account_id-<uuid>` behind `urn:`.
unfoldable pub read_issuer : Text → Result (IdType × ℕ)
read_issuer issuer =
    if starts_with issuer (codes "member_id-")
    then (to_uuid (drop 10 issuer) >>= λ u. ok (IdType.member, u))
    else if starts_with issuer (codes "account_id-")
    then (to_uuid (drop 11 issuer) >>= λ u. ok (IdType.account, u))
    else raise value_error

-- An empty issuer counts as none.
abbrev pub given : Option Text → Option Text
given none = none
given (some []) = none
given (some (c ∷ s)) = some (c ∷ s)

unfoldable pub check_audience : Text → List Text → Result (Unit {0})
check_audience network_name (target ∷ []) = require (ends_with target network_name) value_error
check_audience network_name _ = raise value_error

-- `int(jwt.service_id)`, if it is there.
unfoldable pub read_service_id : Option ClaimedNumber → Result (Option ℤ)
read_service_id none = ok none
read_service_id (some (ClaimedNumber.number n)) = ok (some n)
read_service_id (some (ClaimedNumber.text s)) = do
  n ← or_raise value_error (to_int 10 s)
  ok (some n)

-- The part of `JWT.decode` that reads the payload.
unfoldable pub read_claims : Claims → Text → Result Jwt
unfolding read_issuer check_audience read_service_id parse_scope
read_claims claims network_name = do
  audience ← or_raise key_error claims.aud
  expiration ← or_raise key_error claims.exp
  iss ← or_raise value_error (given claims.iss)
  require (starts_with iss (codes "urn:")) value_error
  (issuer_type, issuer_id) ← read_issuer (strip (drop 4 iss))
  check_audience network_name audience
  service_id ← read_service_id claims.service_id
  (scope_type, scope_id) ← parse_scope network_name service_id claims.scope
  ok (record {
    expiration = expiration;
    issuer_type = issuer_type;
    issuer_id = issuer_id;
    audience = audience;
    service_id = service_id;
    scope_type = scope_type;
    scope_id = scope_id;
  })

-- The token in the value of a header: `bearer` and the spaces round the token are dropped.
unfoldable pub bare_token : Text → Text
bare_token authorization = strip (
    if starts_with (lower authorization) (codes "bearer")
    then drop 6 authorization
    else authorization)

-- `JWT.decode` without a secret and without a download, and with a secret.
unfoldable pub decode_unverified : PyJwt → Text → Text → Result Jwt
unfolding read_claims bare_token
decode_unverified py_jwt authorization network_name = do
  claims ← py_jwt.decode_unverified (bare_token authorization)
  read_claims claims network_name

unfoldable pub decode_verified : PyJwt → Text → ℕ → Text → Result Jwt
unfolding read_claims bare_token
decode_verified py_jwt authorization key network_name = do
  claims ← py_jwt.decode (bare_token authorization) key (audience_of network_name)
  read_claims claims network_name

-- `f'account_id-{identifier}'` or `f'member_id-{identifier}'`
unfoldable pub issuer_text : IdType → ℕ → Result Text
issuer_text IdType.account identifier = ok (codes "account_id-" ++ uuid_text identifier)
issuer_text IdType.member identifier = ok (codes "member_id-" ++ uuid_text identifier)
issuer_text _ identifier = raise value_error

abbrev pub as_number : Option ℕ → Option ClaimedNumber
as_number none = none
as_number (some n) = some (ClaimedNumber.number (pos n))

-- `JWT.create` and `JWT.encode` up to the signature: the payload that is signed, at a time in seconds.
unfoldable pub create : ℕ → IdType → Text → Option ℕ → IdType → ScopeId → ℕ → ℕ → Result Claims
unfolding generate_scope issuer_text
create identifier id_type network_name service_id scope_type scope_id expiration_days now = do
  issuer_id ← issuer_text id_type identifier
  ok (record {
    exp = some (now + expiration_days * (24 * 3600));
    iss = some (codes "urn: " ++ issuer_id);
    aud = some (audience_of network_name ∷ []);
    scope = some (generate_scope scope_id scope_type service_id network_name);
    service_id = as_number service_id;
  })

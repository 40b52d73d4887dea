-- ===== src/Jwt/Scope.antt =====
-- The scope of a token: `JWT.parse_scope` reads back what `JWT.generate_scope` writes.
use mathlib.Core.List.{append_assoc}
use byoda_python.Base.{
  ℕ, ◌+◌, ◌^◌, ◌<◌, ◌≡◌, ◌≢◌, ◌∙◌, refl, ap, true, false, [], ◌∷◌, ◌++◌, ◌&&◌, not, all,
  and-eq-true, Bool-cases, inl, inr, Option, none, some, ◌==◌, ==_refl, ok, arith, All, All-append,
}
use byoda_python.Text.{Text, codes, text_eq, starts_with, split, split_max}
use byoda_python.Text.Laws.{Free, text_eq_refl, split-append, split_of_Free, split_max-append}
use byoda_python.Text.Number.{
  ℤ, pos, negsuc, decimal, strip, strip_of_no_space, is_space, to_int-decimal, IsDigit,
  All-IsDigit-decimal, Free-of_IsDigit,
}
use byoda_python.Text.Uuid.{
  uuid_text, to_uuid-uuid_text, Free-uuid_text, IsUuidCode, All-IsUuidCode-uuid_text,
}
use byoda_python.DataTypes.{IdType, id_value}
use byoda_python.Jwt.{
  ScopeId, generate_scope, to_id_type, dashed_scope_type, read_scope_type, read_scope_id,
  read_scope, parse_scope, is_service, without_urn, scope_id_text, service_text,
}

abbrev pub NoSpace : Text → Type 0
NoSpace = All (λ c. is_space c ≡ false)

-- The scopes that are written for a pod: an account without a service, and a member, an app or a
-- service with a service id above 0.
abbrev pub IsScope : IdType → Option ℕ → ScopeId → Type 0
IsScope IdType.account none (ScopeId.uuid v) = v < 2 ^ 128
IsScope IdType.member (some n) (ScopeId.uuid v) = (n ≢ 0) × (v < 2 ^ 128)
IsScope IdType.app (some n) (ScopeId.uuid v) = (n ≢ 0) × (v < 2 ^ 128)
IsScope IdType.service (some n) (ScopeId.number (pos m)) = n ≢ 0
IsScope _ _ _ = ⊥

abbrev pub number_of : Option ℕ → Option ℤ
number_of none = none
number_of (some n) = some (pos n)

NoSpace-of_IsUuidCode : (s : Text) → All IsUuidCode s → NoSpace s
NoSpace-of_IsUuidCode [] h = tt
NoSpace-of_IsUuidCode (c ∷ s) h = (ground (arith, h.0), NoSpace-of_IsUuidCode s h.1)

NoSpace-of_IsDigit : (s : Text) → All IsDigit s → NoSpace s
NoSpace-of_IsDigit [] h = tt
NoSpace-of_IsDigit (c ∷ s) h = (ground (arith, h.0), NoSpace-of_IsDigit s h.1)

pub NoSpace-append : (s t : Text) → NoSpace s → NoSpace t → NoSpace (s ++ t)
NoSpace-append s t h k = All-append (λ c. is_space c ≡ false) s t h k

-- What stands behind `urn:` is read without the space.
pub strip-space : (s : Text) → NoSpace s → strip (b' ' ∷ s) ≡ s
unfolding strip
strip-space s h = strip_of_no_space s h

-- The part between the two dots.
subdomain : IdType → Option ℕ → Text
subdomain t service_id = id_value t ++ service_text service_id

service_text-decimal : (n : ℕ) → n ≢ 0 → service_text (some n) ≡ decimal n
service_text-decimal n h = ground arith

dashed-read :
    (kind : Text) (n : ℕ)
    → Free b'-' kind
    → dashed_scope_type (some (pos n)) (split b'-' (kind ++ b'-' ∷ decimal n))
      ≡ to_id_type (kind ++ b'-' ∷ [])
unfolding dashed_scope_type
dashed-read kind n h =
    rw
      (
        split-append b'-' kind (decimal n) h,
        split_of_Free b'-' (decimal n)
            (Free-of_IsDigit b'-' (decimal n) refl (All-IsDigit-decimal n)),
        to_int-decimal n,
        ==_refl n,
      )
      refl

-- The four types of a scope by their values.
to_id_type-values :
    (to_id_type (codes "accounts") ≡ ok IdType.account)
    × (to_id_type (codes "members-") ≡ ok IdType.member)
    × (to_id_type (codes "apps-") ≡ ok IdType.app)
    × (to_id_type (codes "service-") ≡ ok IdType.service)
unfolding to_id_type text_eq id_value
to_id_type-values = (refl, refl, refl, refl)

read_scope_type-subdomain :
    (t : IdType) (service_id : Option ℕ) (scope_id : ScopeId)
    → IsScope t service_id scope_id
    → read_scope_type (number_of service_id) (subdomain t service_id) ≡ ok t
unfolding dashed_scope_type read_scope_type subdomain id_value
read_scope_type-subdomain IdType.account none (ScopeId.uuid v) h = to_id_type-values.0
read_scope_type-subdomain IdType.member (some n) (ScopeId.uuid v) h =
    rw (service_text-decimal n h.0)
      (dashed-read (codes "members") n (ground arith) ∙ to_id_type-values.1)
read_scope_type-subdomain IdType.app (some n) (ScopeId.uuid v) h =
    rw (service_text-decimal n h.0)
      (dashed-read (codes "apps") n (ground arith) ∙ to_id_type-values.2)
read_scope_type-subdomain IdType.service (some n) (ScopeId.number (pos m)) h =
    rw (service_text-decimal n h)
      (dashed-read (codes "service") n (ground arith) ∙ to_id_type-values.3)
read_scope_type-subdomain _ _ _ h = absurd h

read_scope_id-text :
    (t : IdType) (service_id : Option ℕ) (scope_id : ScopeId)
    → IsScope t service_id scope_id
    → read_scope_id (is_service t) (scope_id_text scope_id) ≡ ok scope_id
unfolding read_scope_id
read_scope_id-text IdType.account none (ScopeId.uuid v) h = rw (to_uuid-uuid_text v h)
read_scope_id-text IdType.member (some n) (ScopeId.uuid v) h = rw (to_uuid-uuid_text v h.1)
read_scope_id-text IdType.app (some n) (ScopeId.uuid v) h = rw (to_uuid-uuid_text v h.1)
read_scope_id-text IdType.service (some n) (ScopeId.number (pos m)) h = rw (to_int-decimal m)
read_scope_id-text _ _ _ h = absurd h

-- Neither the identifier nor the subdomain has a dot or a space.
pub record IsPlain (s : Text) : Type 0 where
  pub no_dot : Free b'.' s
  pub no_space : NoSpace s

IsPlain-append : (s t : Text) → IsPlain s → IsPlain t → IsPlain (s ++ t)
IsPlain-append s t h k = record {
  no_dot = All-append (λ c. c ≢ b'.') s t h.no_dot k.no_dot;
  no_space = NoSpace-append s t h.no_space k.no_space;
}

pub IsPlain-uuid_text : (v : ℕ) → IsPlain (uuid_text v)
IsPlain-uuid_text v = record {
  no_dot = Free-uuid_text b'.' v refl;
  no_space = NoSpace-of_IsUuidCode (uuid_text v) (All-IsUuidCode-uuid_text v);
}

IsPlain-decimal : (n : ℕ) → IsPlain (decimal n)
IsPlain-decimal n = record {
  no_dot = Free-of_IsDigit b'.' (decimal n) refl (All-IsDigit-decimal n);
  no_space = NoSpace-of_IsDigit (decimal n) (All-IsDigit-decimal n);
}

IsPlain-service_text : (o : Option ℕ) → IsPlain (service_text o)
IsPlain-service_text none = record { no_dot = tt; no_space = tt }
IsPlain-service_text (some n) = elim (Bool-cases (n == 0)) [
  | inl e ↦ rw e (record { no_dot = tt; no_space = tt })
  | inr e ↦ rw e (IsPlain-decimal n)
]

pub IsPlain-of_all :
    (s : Text) → all (λ c. not (c == b'.') && not (is_space c)) s ≡ true → IsPlain s
IsPlain-of_all [] h = record { no_dot = tt; no_space = tt }
IsPlain-of_all (c ∷ s) h =
    let (first, later) = and-eq-true (not (c == b'.') && not (is_space c)) _ h in
    let rest = IsPlain-of_all s later in
    record { no_dot = (ground arith, rest.no_dot); no_space = (ground arith, rest.no_space) }

IsPlain-id_value : (t : IdType) → IsPlain (id_value t)
unfolding id_value
IsPlain-id_value IdType.account = IsPlain-of_all _ refl
IsPlain-id_value _ = IsPlain-of_all _ refl

IsPlain-scope_id_text :
    (t : IdType) (service_id : Option ℕ) (scope_id : ScopeId)
    → IsScope t service_id scope_id
    → IsPlain (scope_id_text scope_id)
IsPlain-scope_id_text t s (ScopeId.uuid v) h = IsPlain-uuid_text v
IsPlain-scope_id_text t s (ScopeId.number (pos m)) h = IsPlain-decimal m
IsPlain-scope_id_text t s (ScopeId.number (negsuc m)) h = record {
  no_dot = (ground arith, (IsPlain-decimal (m + 1)).no_dot);
  no_space = (refl, (IsPlain-decimal (m + 1)).no_space);
}

-- The scope without its prefix.
body : ScopeId → IdType → Option ℕ → Text → Text
body scope_id t service_id network =
    scope_id_text scope_id ++ b'.' ∷ (subdomain t service_id ++ b'.' ∷ network)

generate_scope-body :
    (scope_id : ScopeId) (t : IdType) (service_id : Option ℕ) (network : Text)
    → generate_scope scope_id t service_id network
      ≡ codes "urn: " ++ body scope_id t service_id network
unfolding generate_scope body subdomain
generate_scope-body scope_id t service_id network =
    rw (append_assoc (id_value t) (service_text service_id) (b'.' ∷ network)) refl

without_urn-urn : (s : Text) → NoSpace s → without_urn (codes "urn: " ++ s) ≡ s
unfolding starts_with
without_urn-urn s h = strip-space s h

IsPlain-subdomain : (t : IdType) (service_id : Option ℕ) → IsPlain (subdomain t service_id)
unfolding subdomain
IsPlain-subdomain t service_id =
    IsPlain-append (id_value t) (service_text service_id) (IsPlain-id_value t)
      (IsPlain-service_text service_id)

module _ (network : Text) (plain : NoSpace network) where
  NoSpace-body :
      (t : IdType) (service_id : Option ℕ) (scope_id : ScopeId)
      → IsScope t service_id scope_id
      → NoSpace (body scope_id t service_id network)
  unfolding body
  NoSpace-body t service_id scope_id h =
      NoSpace-append (scope_id_text scope_id) _
        (IsPlain-scope_id_text t service_id scope_id h).no_space
        (
          refl,
          NoSpace-append (subdomain t service_id) _ (IsPlain-subdomain t service_id).no_space
              (refl, plain),
        )

  cut-body :
      (t : IdType) (service_id : Option ℕ) (scope_id : ScopeId)
      → IsScope t service_id scope_id
      → split_max b'.' 2 (body scope_id t service_id network)
        ≡ scope_id_text scope_id ∷ subdomain t service_id ∷ network ∷ []
  unfolding body split_max
  cut-body t service_id scope_id h =
      split_max-append b'.' 1 (scope_id_text scope_id) (subdomain t service_id ++ b'.' ∷ network)
        (IsPlain-scope_id_text t service_id scope_id h).no_dot
      ∙ ap (◌∷◌ (scope_id_text scope_id)) (
          split_max-append b'.' 0 (subdomain t service_id) network
            (IsPlain-subdomain t service_id).no_dot)

  split-body :
      (t : IdType) (service_id : Option ℕ) (scope_id : ScopeId)
      → IsScope t service_id scope_id
      → split_max b'.' 2 (without_urn (generate_scope scope_id t service_id network))
        ≡ scope_id_text scope_id ∷ subdomain t service_id ∷ network ∷ []
  split-body t service_id scope_id h =
      rw
        (
          generate_scope-body scope_id t service_id network,
          without_urn-urn (body scope_id t service_id network)
              (NoSpace-body t service_id scope_id h),
        )
        (cut-body t service_id scope_id h)

  -- The scope that is written for an identity is read as that identity.
  pub parse_scope-generate_scope :
      (t : IdType) (service_id : Option ℕ) (scope_id : ScopeId)
      → IsScope t service_id scope_id
      → parse_scope network
          (number_of service_id)
          (some (generate_scope scope_id t service_id network))
        ≡ ok (t, scope_id)
  unfolding parse_scope read_scope
  parse_scope-generate_scope t service_id scope_id h =
      rw
        (
          split-body t service_id scope_id h,
          text_eq_refl network,
          read_scope_type-subdomain t service_id scope_id h,
          read_scope_id-text t service_id scope_id h,
        )
        refl

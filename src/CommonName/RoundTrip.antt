-- ===== src/CommonName/RoundTrip.antt =====
-- Reading back the common names that the secrets' classes write: an identifier, a subdomain that
-- names the type and perhaps a service, and the network.
use mathlib.Core.List.{append_assoc, append-nil}
use mathlib.Core.Path.{subst}
use native.Mathlib.Nat.{suc-add, zero-add}
use byoda_python.Base.{
  ℕ, zero, suc, ◌+◌, ◌-◌, ◌^◌, ◌<◌, ◌≡◌, ◌≢◌, ◌∙◌, refl, ap, Bool, true, false, ◌&&◌, ◌||◌, not, [],
  ◌∷◌, ◌++◌, Option, none, some, length, take, leb, Result, ok, value_error, permission_error,
  ◌>>=◌, ◌>>◌, require, or_raise, arith, All, length-append,
}
use byoda_python.Text.{
  Text, codes, is_empty, starts_with, ends_with, split, split_max, join, drop_last, rstrip,
}
use byoda_python.Text.Laws.{
  Free, split_of_Free, split-append, split_max-append, ends_with-append, drop_last-append,
}
use byoda_python.Text.Number.{
  pos, to_int, digit_in, decimal, IsDecimal, All-IsDecimal-decimal, decimal-ne-nil, to_int-decimal,
}
use byoda_python.Text.Uuid.{uuid_text, to_uuid-uuid_text, Free-uuid_text, uuid_text-ne-nil}
use byoda_python.DataTypes.{IdType, id_value, by_value_lengths, Identifier, uuid, name, EntityId}
use byoda_python.CommonName.{
  review, read_identifier, numbered, in_range, find_id_type, same_service, is_some,
}

-- What is left of the review once the name is in its parts.
abbrev rest_of_review : Text → Text → Option ℕ → Bool → Bool → Result EntityId
rest_of_review identifier subdomain service_id uuid_identifier check = do
  identifier ← read_identifier uuid_identifier (some identifier)
  (kind, number) ← numbered check subdomain (split b'-' subdomain)
  cn_service_id ← in_range number
  id_type ← or_raise value_error (find_id_type kind by_value_lengths)
  require (not check || same_service cn_service_id service_id) permission_error
  ok (record { id_type = id_type; id = identifier; service_id = cn_service_id })

abbrev pub name_of : Text → Text → Text → Text
name_of identifier subdomain network = identifier ++ b'.' ∷ (subdomain ++ b'.' ∷ network)

split_max-name_of :
    (i s network : Text)
    → Free b'.' i
    → Free b'.' s
    → split_max b'.' 2 (name_of i s network) ≡ i ∷ s ∷ network ∷ []
split_max-name_of i s network hi hs =
    rw (split_max-append b'.' 1 i (s ++ b'.' ∷ network) hi, split_max-append b'.' 0 s network hs)
      (unfold split_max in refl)

name_of-append : (i s network : Text) → name_of i s network ≡ (i ++ b'.' ∷ s) ++ b'.' ∷ network
name_of-append i s network = rw append_assoc

split-prefix : (i s : Text) → Free b'.' i → Free b'.' s → split b'.' (i ++ b'.' ∷ s) ≡ i ∷ s ∷ []
split-prefix i s hi hs = rw (split-append b'.' i s hi, split_of_Free b'.' s hs)

ends_with-name_of : (i s network : Text) → ends_with (name_of i s network) (b'.' ∷ network) ≡ true
ends_with-name_of i s network =
    rw (name_of-append i s network) (ends_with-append (i ++ b'.' ∷ s) (b'.' ∷ network))

drop_last-name_of :
    (i s network : Text) → drop_last (length network + 1) (name_of i s network) ≡ i ++ b'.' ∷ s
drop_last-name_of i s network =
    let e : length network + 1 ≡ length (b'.' ∷ network) = omega arith in
    rw (e, name_of-append i s network) (drop_last-append (i ++ b'.' ∷ s) (b'.' ∷ network))

is_empty_of_ne : (s : Text) → s ≢ [] → is_empty s ≡ false
is_empty_of_ne [] h = absurd (h refl)
is_empty_of_ne (c ∷ s) h = refl

pub record HasParts (i s domain : Text) : Type 0 where
  pub free_identifier : Free b'.' i
  pub free_subdomain : Free b'.' s
  pub identifier : i ≢ []
  pub subdomain : s ≢ []
  pub network : domain ≢ []

review-name_of :
    (i s network : Text) (service_id : Option ℕ) (uuid_identifier check : Bool)
    → HasParts i s network
    → (not check || is_some service_id) ≡ true
    → review (name_of i s network) network service_id uuid_identifier check
      ≡ rest_of_review i s service_id uuid_identifier check
unfolding review
review-name_of i s network service_id uuid_identifier check p k = rw (
  k,
  split_max-name_of i s network p.free_identifier p.free_subdomain,
  is_empty_of_ne i p.identifier,
  is_empty_of_ne s p.subdomain,
  is_empty_of_ne network p.network,
  ends_with-name_of i s network,
  drop_last-name_of i s network,
  split-prefix i s p.free_identifier p.free_subdomain,
)

-- The types whose value ends in a dash: a service id follows it.
abbrev pub is_numbered : IdType → Bool
is_numbered IdType.service_data = true
is_numbered IdType.member_data = true
is_numbered IdType.service_ca = true
is_numbered IdType.members_ca = true
is_numbered IdType.apps_ca = true
is_numbered IdType.member = true
is_numbered IdType.service = true
is_numbered IdType.app = true
is_numbered IdType.app_data = true
is_numbered _ = false

-- The subdomain that the secrets write for a type and a service.
abbrev pub subdomain_of : IdType → ℕ → Text
subdomain_of t service_id = id_value t ++ decimal service_id

starts_with_of_IsDecimal :
    (s : Text) (c : ℕ) (t : Text)
    → All IsDecimal s
    → leb b'0' c && leb c b'9' ≡ false
    → starts_with s (c ∷ t) ≡ false
unfolding starts_with
starts_with_of_IsDecimal [] c t h k = refl
starts_with_of_IsDecimal (d ∷ s) c t h k = ground (arith, h.0)

take-append_left : (s t : Text) (n : ℕ) → take (length s + n) (s ++ t) ≡ s ++ take n t
take-append_left [] t n = rw zero-add
take-append_left (c ∷ s) t n = rw suc-add (ap (◌∷◌ c) (take-append_left s t n))

All-take : (n : ℕ) (s : Text) → All IsDecimal s → All IsDecimal (take n s)
All-take zero s h = tt
All-take (suc n) [] h = tt
All-take (suc n) (c ∷ s) h = (h.0, All-take n s h.1)

-- Dropping the last character cuts into the digits only.
drop_last-subdomain : (s t : Text) → t ≢ [] → drop_last 1 (s ++ t) ≡ s ++ drop_last 1 t
drop_last-subdomain s [] h = absurd (h refl)
drop_last-subdomain s (c ∷ t) h =
    let e : length (s ++ c ∷ t) - 1 ≡ length s + (length (c ∷ t) - 1) =
      omega (arith, length-append s (c ∷ t)) in
    rw e (take-append_left s (c ∷ t) (length (c ∷ t) - 1))

-- The search by falling length finds the type itself, whatever digits follow its value.
find_id_type-numbered :
    (t : IdType) (digits : Text)
    → is_numbered t ≡ true
    → All IsDecimal digits
    → find_id_type (id_value t ++ digits) by_value_lengths ≡ some t
unfolding find_id_type by_value_lengths id_value starts_with rstrip
find_id_type-numbered IdType.service_data digits h k = refl
find_id_type-numbered IdType.member_data digits h k = refl
find_id_type-numbered IdType.service_ca digits h k = refl
find_id_type-numbered IdType.members_ca digits h k = refl
find_id_type-numbered IdType.apps_ca digits h k = refl
find_id_type-numbered IdType.member digits h k =
    rw (starts_with_of_IsDecimal digits b'c' (codes "a") k refl)
find_id_type-numbered IdType.service digits h k = rw (
  starts_with_of_IsDecimal digits b'd' (codes "ata") k refl,
  starts_with_of_IsDecimal digits b'c' (codes "a") k refl,
)
find_id_type-numbered IdType.app digits h k =
    rw (starts_with_of_IsDecimal digits b'c' (codes "a") k refl)
find_id_type-numbered IdType.app_data digits h k = refl
find_id_type-numbered _ digits h k = cc

All→Free :
    (sep : ℕ) (s : Text) → leb b'0' sep && leb sep b'9' ≡ false → All IsDecimal s → Free sep s
All→Free sep [] h k = tt
All→Free sep (c ∷ s) h k = (λ e. cc (ap (λ c. leb b'0' c && leb c b'9') e), All→Free sep s h k.1)

-- Splitting a numbered subdomain at its dashes leaves the digits last, and there are two parts or more.
numbered-subdomain_of :
    (t : IdType) (n : ℕ) (check : Bool)
    → is_numbered t ≡ true
    → numbered check (subdomain_of t n) (split b'-' (subdomain_of t n))
      ≡ ok (drop_last 1 (subdomain_of t n), some (pos n))
unfolding numbered split join id_value
numbered-subdomain_of IdType.network_data n check h = cc
numbered-subdomain_of IdType.accounts_ca n check h = cc
numbered-subdomain_of IdType.account_data n check h = cc
numbered-subdomain_of IdType.services_ca n check h = cc
numbered-subdomain_of IdType.account n check h = cc
numbered-subdomain_of IdType.anonymous n check h = cc
numbered-subdomain_of _ n check h =
    let whole =
      split_of_Free b'-' (decimal n) (All→Free b'-' (decimal n) refl (All-IsDecimal-decimal n)) in
    simp (whole, to_int-decimal n, numbered)

-- The values hold no dot.
Free-id_value : (t : IdType) (s : Text) → Free b'.' s → Free b'.' (id_value t ++ s)
unfolding id_value
Free-id_value IdType.service_data s h = ground (arith, h)
Free-id_value _ s h = ground (arith, h)

append-ne-nil : (t : IdType) (s : Text) → id_value t ++ s ≢ []
unfolding id_value
append-ne-nil IdType.service_data s = cc
append-ne-nil _ s = cc

abbrev pub entity_of : IdType → ℕ → ℕ → EntityId
entity_of t u n = record { id_type = t; id = some (uuid u); service_id = some n }

HasParts-uuid :
    (t : IdType) (u : ℕ) (s network : Text)
    → Free b'.' s
    → network ≢ []
    → HasParts (uuid_text u) (id_value t ++ s) network
HasParts-uuid t u s network hs hn = record {
  free_identifier = Free-uuid_text b'.' u refl;
  free_subdomain = Free-id_value t s hs;
  identifier = uuid_text-ne-nil u;
  subdomain = append-ne-nil t s;
  network = hn;
}

-- The common name `<uuid>.<type><service id>.<network>` that the classes for members, apps and their
-- data write is reviewed to exactly its type, UUID and service id: for every UUID of 128 bits, every
-- service id of 32 bits and every network, if the service id is checked against itself or not.
pub review-numbered :
    (t : IdType) (u n : ℕ) (network : Text) (check : Bool)
    → is_numbered t ≡ true
    → u < 2 ^ 128
    → n < 2 ^ 32
    → network ≢ []
    → review (name_of (uuid_text u) (subdomain_of t n) network) network (some n) true check
      ≡ ok (entity_of t u n)
review-numbered t u n network check h hu hn k =
    review-name_of (uuid_text u) (subdomain_of t n) network (some n) true check
      (HasParts-uuid t u (decimal n) network
        (All→Free b'.' (decimal n) refl (All-IsDecimal-decimal n)) k)
      (ground arith)
    ∙ (unfold read_identifier in_range in
        rw
          (
            to_uuid-uuid_text u hu,
            numbered-subdomain_of t n check h,
            drop_last-subdomain (id_value t) (decimal n) (decimal-ne-nil n),
            find_id_type-numbered t (drop_last 1 (decimal n)) h
                (All-take _ (decimal n) (All-IsDecimal-decimal n)),
          )
          (ground arith))

-- The same with a name in place of a UUID, where neither the UUID nor the service id is checked.
pub review-numbered_name :
    (t : IdType) (i : Text) (n : ℕ) (network : Text) (wanted : Option ℕ)
    → is_numbered t ≡ true
    → Free b'.' i
    → i ≢ []
    → n < 2 ^ 32
    → network ≢ []
    → review (name_of i (subdomain_of t n) network) network wanted false false
      ≡ ok (record { id_type = t; id = some (name i); service_id = some n })
review-numbered_name t i n network wanted h hi ni hn k =
    review-name_of i (subdomain_of t n) network wanted false false
      (record {
        free_identifier = hi;
        free_subdomain =
            Free-id_value t (decimal n) (All→Free b'.' (decimal n) refl (All-IsDecimal-decimal n));
        identifier = ni;
        subdomain = append-ne-nil t (decimal n);
        network = k;
      })
      refl
    ∙ (unfold read_identifier in_range in
        rw
          (
            numbered-subdomain_of t n false h,
            drop_last-subdomain (id_value t) (decimal n) (decimal-ne-nil n),
            find_id_type-numbered t (drop_last 1 (decimal n)) h
                (All-take _ (decimal n) (All-IsDecimal-decimal n)),
          )
          (ground arith))

-- The types whose value is the whole subdomain.
abbrev pub is_plain : IdType → Bool
is_plain IdType.network_data = true
is_plain IdType.accounts_ca = true
is_plain IdType.account_data = true
is_plain IdType.services_ca = true
is_plain IdType.account = true
is_plain _ = false

append-nil_id : (t : IdType) → id_value t ++ [] ≡ id_value t
append-nil_id t = rw append-nil

numbered-plain :
    (t : IdType)
    → is_plain t ≡ true
    → numbered false (id_value t) (split b'-' (id_value t)) ≡ ok (id_value t, none)
unfolding numbered split id_value to_int digit_in
numbered-plain IdType.network_data h = refl
numbered-plain IdType.accounts_ca h = refl
numbered-plain IdType.account_data h = refl
numbered-plain IdType.services_ca h = refl
numbered-plain IdType.account h = refl
numbered-plain _ h = cc

find_id_type-plain :
    (t : IdType) → is_plain t ≡ true → find_id_type (id_value t) by_value_lengths ≡ some t
unfolding find_id_type by_value_lengths id_value starts_with rstrip
find_id_type-plain IdType.network_data h = refl
find_id_type-plain IdType.accounts_ca h = refl
find_id_type-plain IdType.account_data h = refl
find_id_type-plain IdType.services_ca h = refl
find_id_type-plain IdType.account h = refl
find_id_type-plain _ h = cc

-- What a review gives as the identifier.
abbrev pub given : Bool → ℕ → Identifier
given true u = uuid u
given false u = name (uuid_text u)

read_identifier-uuid_text :
    (by_uuid : Bool) (u : ℕ)
    → u < 2 ^ 128
    → read_identifier by_uuid (some (uuid_text u)) ≡ ok (some (given by_uuid u))
unfolding read_identifier
read_identifier-uuid_text true u h = rw (to_uuid-uuid_text u h)
read_identifier-uuid_text false u h = refl

HasParts-plain :
    (t : IdType) (i network : Text)
    → Free b'.' i
    → i ≢ []
    → network ≢ []
    → HasParts i (id_value t) network
HasParts-plain t i network hi ni nn = record {
  free_identifier = hi;
  free_subdomain = subst (Free b'.') (append-nil_id t) (Free-id_value t [] tt);
  identifier = ni;
  subdomain = subst (λ s. s ≢ []) (append-nil_id t) (append-ne-nil t []);
  network = nn;
}

-- `<identifier>.<type>.<network>` for a type without services, read with or without a UUID.
review-plain :
    (t : IdType) (u : ℕ) (network : Text) (wanted : Option ℕ) (by_uuid : Bool)
    → is_plain t ≡ true
    → u < 2 ^ 128
    → network ≢ []
    → review (name_of (uuid_text u) (id_value t) network) network wanted by_uuid false
      ≡ ok (record { id_type = t; id = some (given by_uuid u); service_id = none })
review-plain t u network wanted by_uuid h hu k =
    review-name_of (uuid_text u) (id_value t) network wanted by_uuid false
      (HasParts-plain t (uuid_text u) network (Free-uuid_text b'.' u refl) (uuid_text-ne-nil u) k)
      refl
    ∙ (unfold in_range in
        rw (read_identifier-uuid_text by_uuid u hu, numbered-plain t h, find_id_type-plain t h))

pub review-plain_name :
    (t : IdType) (i network : Text) (wanted : Option ℕ)
    → is_plain t ≡ true
    → Free b'.' i
    → i ≢ []
    → network ≢ []
    → review (name_of i (id_value t) network) network wanted false false
      ≡ ok (record { id_type = t; id = some (name i); service_id = none })
review-plain_name t i network wanted h hi ni k =
    review-name_of i (id_value t) network wanted false false (HasParts-plain t i network hi ni k)
      refl
    ∙ (unfold in_range read_identifier in rw (numbered-plain t h, find_id_type-plain t h))

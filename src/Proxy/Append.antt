-- ===== src/Proxy/Append.antt =====
-- `MemberData.append` of byoda/datamodel/memberdata.py up to what it stores, and
-- `DataProxy.proxy_append_request`.
use byoda_python.Base.{
  ℕ, ◌-◌, ◌≡◌, ◌≢◌, refl, ◌⊎◌, inl, inr, Bool, true, false, not, ◌||◌, ◌&&◌, Option, none, some,
  Result, ok, raise, value_error, ◌>>◌, require, ltb, ◌==◌, if◌then◌else◌, arith, Bool-cases,
  Returns, Returns-ok, Returns-require,
}
use byoda_python.Text.{Text}
use byoda_python.DataTypes.{IdType}
use byoda_python.Proxy.Get.{is_some}

-- The caller: `auth.id` and `auth.id_type`.
pub record Caller : Type 0 where
  pub id : ℕ
  pub id_type : IdType

-- `AppendModel` without its data and query id.
pub record Append : Type 0 where
  pub depth : ℕ
  pub remote_member_id : Option ℕ
  pub origin_id : Option ℕ
  pub origin_id_type : Option IdType
  pub origin_class_name : Option Text

-- What comes of an append: data that are stored with their origin, or a request to another pod.
pub data Outcome : Type 0 where
  stored : ℕ → IdType → Option Text → Outcome
  sent_to : ℕ → Append → Outcome

abbrev pub is_type_member : IdType → Bool
is_type_member t = elim t [ IdType.member ↦ true | _ ↦ false ]

abbrev pub is_self : ℕ → Caller → Bool
is_self member_id caller = caller.id == member_id && is_type_member caller.id_type

abbrev pub states_origin : Append → Bool
states_origin request = is_some request.origin_id || is_some request.origin_class_name

abbrev pub or_else : {A : Type 0} → Option A → A → A
or_else none b = b
or_else (some a) b = a

-- The request to the pod that is named, with a depth of one less.
abbrev pub sent_on : Append → Option ℕ → Result Outcome
sent_on request none = raise value_error
sent_on request (some target) = ok (
    sent_to target (record {
      depth = request.depth - 1;
      remote_member_id = some target;
      origin_id = request.origin_id;
      origin_id_type = request.origin_id_type;
      origin_class_name = request.origin_class_name;
    }))

-- `proxy_append_request` up to its call.
unfoldable pub proxy_append_request : Append → Result Outcome
proxy_append_request request =
    require (not (ltb request.depth 1)) value_error
    >> (require (not (ltb 1 request.depth)) value_error >> sent_on request request.remote_member_id)

-- `append_data` up to the data store.
unfoldable pub append_data : Bool → ℕ → IdType → Option Text → Result Outcome
append_data cache_only origin_id origin_id_type origin_class_name =
    require (not (is_some origin_class_name && not cache_only)) value_error
    >> ok (stored origin_id origin_id_type origin_class_name)

abbrev pub is_remote : ℕ → Option ℕ → Bool
is_remote member_id none = false
is_remote member_id (some target) = not (target == member_id)

unfoldable pub append : ℕ → Bool → Caller → Append → Result Outcome
unfolding proxy_append_request append_data
append member_id cache_only caller request =
    require (not (states_origin request && not (is_self member_id caller))) value_error
    >> (require
          (not (states_origin request && (ltb 0 request.depth || is_some request.remote_member_id)))
          value_error
        >> (if is_remote member_id request.remote_member_id
            then require (request.depth == 1) value_error >> proxy_append_request request
            else require (request.depth == 0) value_error
              >> append_data cache_only (or_else request.origin_id caller.id)
                  (or_else request.origin_id_type caller.id_type) request.origin_class_name))

-- What an outcome tells of the request.
abbrev pub Explained : ℕ → Bool → Caller → Append → Outcome → Type 0
Explained member_id cache_only caller request (stored id id_type class_name) =
    (request.depth ≡ 0)
    × (is_remote member_id request.remote_member_id ≡ false)
    × (id_type ≡ or_else request.origin_id_type caller.id_type)
    × (class_name ≡ request.origin_class_name)
    × ((id ≡ caller.id) ⊎ (is_self member_id caller ≡ true))
    × ((class_name ≡ none) ⊎ ((cache_only ≡ true) × (is_self member_id caller ≡ true)))
Explained member_id cache_only caller request (sent_to target next) =
    (request.remote_member_id ≡ some target)
    × (target ≢ member_id)
    × (request.depth ≡ 1)
    × (next.depth ≡ 0)
    × (next.remote_member_id ≡ some target)
    × (states_origin next ≡ false)

id_or_self :
    (member_id : ℕ) (caller : Caller) (origin : Option ℕ) (other : Bool)
    → not ((is_some origin || other) && not (is_self member_id caller)) ≡ true
    → (or_else origin caller.id ≡ caller.id) ⊎ (is_self member_id caller ≡ true)
id_or_self member_id caller none other h = inl refl
id_or_self member_id caller (some n) other h = inr (by_flag (is_self member_id caller) h)
  where
    by_flag : (b : Bool) → not (not b) ≡ true → b ≡ true
    by_flag true k = refl
    by_flag false k = k

class_or_self :
    (member_id : ℕ) (cache_only : Bool) (caller : Caller) (class_name : Option Text) (other : Bool)
    → not ((other || is_some class_name) && not (is_self member_id caller)) ≡ true
    → not (is_some class_name && not cache_only) ≡ true
    → (class_name ≡ none) ⊎ ((cache_only ≡ true) × (is_self member_id caller ≡ true))
class_or_self member_id cache_only caller none other h k = inl refl
class_or_self member_id cache_only caller (some t) other h k =
    inr (both other cache_only (is_self member_id caller) h k)
  where
    both :
        (o b c : Bool)
        → not ((o || true) && not c) ≡ true
        → not (true && not b) ≡ true
        → (b ≡ true) × (c ≡ true)
    both o b c h k = ground arith

remote-Explained :
    (member_id : ℕ) (cache_only : Bool) (caller : Caller) (request : Append) (remote : Option ℕ)
    → request.remote_member_id ≡ remote
    → is_remote member_id remote ≡ true
    → request.depth ≡ 1
    → not (states_origin request && (ltb 0 request.depth || is_some request.remote_member_id))
      ≡ true
    → Returns (Explained member_id cache_only caller request) (sent_on request remote)
remote-Explained member_id cache_only caller request none e r d h = absurd (cc)
remote-Explained member_id cache_only caller request (some target) e r d h = Returns-ok _ (
  e,
  (λ same. absurd (ground arith)),
  d,
  omega arith,
  refl,
  no_origin (states_origin request) (ltb 0 request.depth || is_some request.remote_member_id)
      (ground arith) h,
)
  where
    no_origin : (a b : Bool) → b ≡ true → not (a && b) ≡ true → a ≡ false
    no_origin a b p q = ground arith

append-Explained :
    (member_id : ℕ) (cache_only : Bool) (caller : Caller) (request : Append)
    → Returns
        (Explained member_id cache_only caller request)
        (append member_id cache_only caller request)
unfolding append append_data proxy_append_request
append-Explained member_id cache_only caller request =
    Returns-require (not (states_origin request && not (is_self member_id caller))) _ _ (λ h.
      Returns-require
        (not (states_origin request && (ltb 0 request.depth || is_some request.remote_member_id))) _
        _
        (λ k. elim (Bool-cases (is_remote member_id request.remote_member_id)) [
          | inl r ↦ rw r (
              Returns-require (request.depth == 1) _ _ (λ d.
                Returns-require (not (ltb request.depth 1)) _ _ (λ low.
                  Returns-require (not (ltb 1 request.depth)) _ _ (λ high.
                    remote-Explained member_id cache_only caller request request.remote_member_id
                      refl r (ground arith) k))))
          | inr l ↦ rw l (
              Returns-require (request.depth == 0) _ _ (λ d.
                Returns-require (not (is_some request.origin_class_name && not cache_only)) _ _
                  (λ c. Returns-ok _ (
                    ground arith,
                    l,
                    refl,
                    refl,
                    id_or_self member_id caller request.origin_id
                        (is_some request.origin_class_name) h,
                    class_or_self member_id cache_only caller request.origin_class_name
                        (is_some request.origin_id) h c,
                  ))))
        ]))

-- A caller that is a member of the service.
abbrev pub as_member : ℕ → Caller
as_member member_id = record { id = member_id; id_type = IdType.member }

arrives :
    (target sender : ℕ) (cache_only : Bool) (next : Append)
    → next.depth ≡ 0
    → is_remote target next.remote_member_id ≡ false
    → (origin : Option ℕ) → (class_name : Option Text) → next.origin_id ≡ origin
    → next.origin_class_name ≡ class_name
    → is_some origin || is_some class_name ≡ false
    → append target cache_only (as_member sender) next
      ≡ ok (stored sender (or_else next.origin_id_type IdType.member) none)
unfolding append append_data
arrives target sender cache_only next d l none none e f h = rw (e, f, l, d) refl
arrives target sender cache_only next d l (some o) c e f h = absurd (cc)
arrives target sender cache_only next d l none (some c) e f h = absurd (cc)

-- What comes of a request that is sent on, at its target.
abbrev pub Arrives : ℕ → Outcome → Type 0
Arrives member_id (stored id id_type class_name) = Unit
Arrives member_id (sent_to target next) =
    (cache_only : Bool)
    → append target cache_only (as_member member_id) next
      ≡ ok (stored member_id (or_else next.origin_id_type IdType.member) none)

Explained-Arrives :
    (member_id : ℕ) (cache_only : Bool) (caller : Caller) (request : Append) (outcome : Outcome)
    → Explained member_id cache_only caller request outcome
    → Arrives member_id outcome
Explained-Arrives member_id cache_only caller request (stored id id_type class_name) h = tt
Explained-Arrives member_id cache_only caller request (sent_to target next)
      (named, differs, deep, depth, remote, states) =
    λ other.
      let itself : (target == target) ≡ true = ground arith in
      arrives target member_id other next depth (rw (remote, itself) refl) next.origin_id
        next.origin_class_name refl refl states

-- An append that is accepted is stored only with depth 0, at the pod that the request names or for none;
-- its origin is the caller's own id, unless the pod's own member says otherwise, who alone can name a
-- class of origin, for a cached class. The type of the origin is the one in the request, whoever the
-- caller is, and the caller's if there is none. An append is sent on only with depth 1 and neither an id
-- nor a class of origin, to another pod that the request names; and in that pod, once its access rights let
-- the request in, append stores it, with the sending pod's member as the origin, and does not send it on.
pub append-Settles :
    (member_id : ℕ) (cache_only : Bool) (caller : Caller) (request : Append)
    → Returns
        (λ outcome.
          Explained member_id cache_only caller request outcome × Arrives member_id outcome)
        (append member_id cache_only caller request)
append-Settles member_id cache_only caller request = record {
  at = λ outcome e.
      let explained = (append-Explained member_id cache_only caller request).at outcome e in
      (explained, Explained-Arrives member_id cache_only caller request outcome explained);
}

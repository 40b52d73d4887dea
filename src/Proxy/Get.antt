-- ===== src/Proxy/Get.antt =====
-- `MemberData.get` of byoda/datamodel/memberdata.py, up to the queries that it sends on, with the
-- text that `DataProxy` signs.
use byoda_python.Base.{
  ℕ, ◌+◌, ◌≡◌, Bool, true, false, not, ◌||◌, List, [], ◌∷◌, ◌++◌, Option, none, some, Result, ok,
  raise, value_error, not_implemented, invalid_signature, ◌>>=◌, ◌>>◌, require, ltb, ◌==◌,
  if◌then◌else◌,
}
use byoda_python.Text.{Text, codes, join, rstrip}
use byoda_python.Text.Number.{decimal}
use byoda_python.Text.Uuid.{uuid_text}
use byoda_python.DataTypes.{IdType}
use byoda_python.Access.Authorize.{Auth}
use byoda_python.Cache.Counter.{text_leb}
use byoda_python.Proxy.{Filters, Query, NetworkLink, is_member, proxy_query_request}

-- The ids of the queries that a pod has seen, as a query cache keeps them.
pub record Queries (C : Type 0) : Type 0 where
  pub has : C → ℕ → Bool
  pub set : C → ℕ → C × Bool
  pub set-new : (c : C) (q : ℕ) → (set c q).1 ≡ not (has c q)
  pub has-set : (c : C) (q : ℕ) → has (set c q).0 q ≡ true
  pub set-keeps : (c : C) (q p : ℕ) → has c p ≡ true → has (set c q).0 p ≡ true

-- `datetime.isoformat`, and a member's data secret: `sign` is its signature in base64, and `verify`
-- downloads the certificate and checks one.
pub record Signatures : Type 0 where
  pub isoformat : ℕ → Text
  pub sign : ℕ → Text → Text
  pub verify : Option ℕ → Text → Option Text → Result (Unit {0})
  pub verify-sign : (m : ℕ) (t : Text) → verify (some m) t (some (sign m t)) ≡ ok tt

abbrev pub insert_item : {A : Type 0} → Text × A → List (Text × A) → List (Text × A)
insert_item item [] = item ∷ []
insert_item item (other ∷ items) =
    let later = insert_item item items in
    if text_leb item.0 other.0 then item ∷ other ∷ items else other ∷ later

-- `sorted(items)` for items with different keys.
abbrev pub sorted_items : {A : Type 0} → List (Text × A) → List (Text × A)
sorted_items [] = []
sorted_items (item ∷ items) = insert_item item (sorted_items items)

abbrev pub add_operators : Text → List (Text × Text) → Text
add_operators plaintext [] = plaintext
add_operators plaintext ((oper, value) ∷ items) =
    add_operators (plaintext ++ (codes "{" ++ (oper ++ (codes ":\"" ++ (value ++ codes "\"},")))))
      items

-- The text so far is added to itself after every field.
abbrev pub close_field : Text → Text
close_field plaintext = plaintext ++ (rstrip b',' plaintext ++ codes "}")

abbrev pub add_filters : Text → Filters → Text
add_filters plaintext [] = plaintext
add_filters plaintext ((key, operators) ∷ items) =
    add_filters
      (close_field (add_operators (plaintext ++ (key ++ codes ":")) (sorted_items operators))) items

abbrev pub optional_filters : Text → Filters → Text
optional_filters plaintext [] = plaintext
optional_filters plaintext (item ∷ items) =
    add_filters (plaintext ++ codes ",{") (sorted_items (item ∷ items))

abbrev pub relations_text : List Text → Text → Text
relations_text [] timestamp = []
relations_text (relation ∷ relations) timestamp = join b' ' (relation ∷ relations) ++ timestamp

abbrev pub id_text : Option ℕ → Text
id_text none = codes "None"
id_text (some n) = uuid_text n

-- `_create_plaintext`; the timestamp is its ISO format.
unfoldable pub create_plaintext : ℕ → List Text → Filters → Text → Option ℕ → Text
create_plaintext service_id relations filters timestamp origin_member_id =
    optional_filters
      (decimal service_id ++ (relations_text relations timestamp ++ id_text origin_member_id))
      filters

-- `except InvalidSignature: raise ByodaValueError`
abbrev pub on_invalid_signature : Result (Unit {0}) → Result (Unit {0})
on_invalid_signature (raise invalid_signature) = raise value_error
on_invalid_signature r = r

abbrev pub is_some : {A : Type 0} → Option A → Bool
is_some none = false
is_some (some a) = true

-- A pod's membership of the service.
pub record Member : Type 0 where
  pub member_id : ℕ
  pub service_id : ℕ
  pub links : List NetworkLink

abbrev pub is_own : Member → Auth → Bool
is_own member auth = elim auth.id_type [
  | IdType.member ↦ is_member auth.member_id member.member_id
  | _ ↦ false
]

module _ (signatures : Signatures) where
  -- `DataProxy.verify_signature`
  unfoldable pub verify_signature : ℕ → Query → Result (Unit {0})
  unfolding create_plaintext
  verify_signature service_id query =
      require (query.signature_format_version == 1) not_implemented
      >> signatures.verify query.origin_member_id
          (create_plaintext service_id query.relations query.filter
            (signatures.isoformat query.timestamp) query.origin_member_id)
          query.origin_signature

  -- The depth to which the query is to be sent on.
  unfoldable pub depth_of : ℕ → Member → Auth → Query → Result ℕ
  unfolding verify_signature
  depth_of now member auth query =
      if is_some query.origin_member_id || is_some query.origin_signature
      then on_invalid_signature (verify_signature member.service_id query)
        >> ok (if ltb (now + 300) query.timestamp then 0 else query.depth)
      else if ltb 0 query.depth
      then require (is_some query.query_id) value_error
        >> require (is_own member auth) value_error
        >> ok query.depth
      else ok query.depth

  -- The start of `_get_data_from_pods_recursively`: a query without an origin is signed.
  abbrev pub with_origin : Member → Query → Option ℕ → Query
  with_origin member query (some m) = query
  with_origin member query none = record {
    query_id = query.query_id;
    filter = query.filter;
    depth = query.depth;
    relations = query.relations;
    remote_member_id = query.remote_member_id;
    timestamp = query.timestamp;
    origin_member_id = some member.member_id;
    origin_signature = some (
        signatures.sign member.member_id (
          create_plaintext member.service_id query.relations query.filter
            (signatures.isoformat query.timestamp) (some member.member_id)));
    signature_format_version = 1;
  }

  unfoldable pub forward : Member → Auth → Query → ℕ → Result (List (Option ℕ × Query))
  unfolding proxy_query_request create_plaintext
  forward member auth query depth =
      if depth == 0
      then ok []
      else proxy_query_request (with_origin member query query.origin_member_id) member.links
          auth.member_id

  module _ {C : Type 0} (queries : Queries C) where
    -- The query cache is written before anything else is checked.
    abbrev pub note_query : C → Option ℕ → C × Result (Unit {0})
    note_query c none = (c, ok tt)
    note_query c (some q) = ((queries.set c q).0, require (queries.set c q).1 value_error)

    -- `MemberData.get`: the query cache after it, and the queries that are sent to other pods.
    unfoldable pub get : ℕ → Member → Auth → C → Query → C × Result (List (Option ℕ × Query))
    unfolding depth_of forward
    get now member auth c query = (
      (note_query c query.query_id).0,
      (note_query c query.query_id).1
          >> (depth_of now member auth query >>= forward member auth query),
    )

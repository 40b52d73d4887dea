-- ===== src/Proxy.antt =====
-- Queries that pods forward to each other: byoda/datamodel/data_proxy.py, and `get` and `append` of
-- byoda/datamodel/memberdata.py.
pub mod Get
pub mod Signed
pub mod Network
pub mod Ends
pub mod Answers
pub mod Append
pub mod Targets
pub mod Cached
use byoda_python.Base.{
  ℕ, ◌-◌, ◌<◌, ◌≡◌, Bool, true, false, not, ◌||◌, List, [], ◌∷◌, ◌++◌, any, Option, none, some,
  Result, ok, raise, value_error, ◌>>◌, require, ltb, ◌==◌, if◌then◌else◌,
}
use byoda_python.Text.{Text, text_eq, codes, starts_with, lower, join, rstrip}
use byoda_python.Text.Number.{decimal}
use byoda_python.Text.Uuid.{uuid_text}
use byoda_python.Cache.Counter.{text_leb}

-- The filters of a query: for each field its operators and their values, as texts.
abbrev pub Filters : Type 0
Filters = List (Text × List (Text × Text))

-- `QueryModel`, of which the fields are listed that matter here; no relations are an empty list.
pub record Query : Type 0 where
  pub query_id : Option ℕ
  pub filter : Filters
  pub depth : ℕ
  pub relations : List Text
  pub remote_member_id : Option ℕ
  pub timestamp : ℕ
  pub origin_member_id : Option ℕ
  pub origin_signature : Option Text
  pub signature_format_version : ℕ

-- `NetworkLink`
pub record NetworkLink : Type 0 where
  pub member_id : Option ℕ
  pub relation : Text

abbrev pub is_member : Option ℕ → ℕ → Bool
is_member none n = false
is_member (some m) n = m == n

-- What `load_network_links` keeps: all links, if there are no relations.
abbrev pub is_wanted : List Text → NetworkLink → Bool
is_wanted [] link = true
is_wanted (relation ∷ relations) link = any (text_eq link.relation) (relation ∷ relations)

abbrev pub load_network_links : List Text → List NetworkLink → List NetworkLink
load_network_links relations [] = []
load_network_links relations (link ∷ links) =
    let rest = load_network_links relations links in
    if is_wanted relations link then link ∷ rest else rest

-- The targets without relations: every link but those to the sender.
abbrev pub other_than : Option ℕ → Option ℕ → Bool
other_than none none = false
other_than none (some m) = true
other_than (some n) none = true
other_than (some n) (some m) = not (n == m)

abbrev pub all_targets : Option ℕ → List NetworkLink → List (Option ℕ)
all_targets sender [] = []
all_targets sender (link ∷ links) =
    let rest = all_targets sender links in
    if other_than link.member_id sender then link.member_id ∷ rest else rest

-- `str(member_id).startswith('aaaaaaaa')`
abbrev pub is_test_id : ℕ → Bool
is_test_id n = starts_with (uuid_text n) (codes "aaaaaaaa")

abbrev pub add_target : Option ℕ → Option ℕ → List (Option ℕ) → List (Option ℕ)
add_target sender none rest = rest
add_target sender (some n) rest = if is_test_id n || is_member sender n then rest else some n ∷ rest

abbrev pub related_targets : Option ℕ → List Text → List NetworkLink → List (Option ℕ)
related_targets sender relations [] = []
related_targets sender relations (link ∷ links) =
    let rest = related_targets sender relations links in
    if any (text_eq (lower link.relation)) relations
    then add_target sender link.member_id rest
    else rest

abbrev pub targets_of : Option ℕ → List Text → List NetworkLink → List (Option ℕ)
targets_of sender [] links = all_targets sender (load_network_links [] links)
targets_of sender (relation ∷ relations) links =
    related_targets sender (relation ∷ relations) (load_network_links (relation ∷ relations) links)

-- `_get_proxy_targets`
unfoldable pub get_proxy_targets : Query → List NetworkLink → Option ℕ → List (Option ℕ)
get_proxy_targets query links sender = elim query.remote_member_id [
  | some n ↦ some n ∷ []
  | none ↦ targets_of sender query.relations links
]

-- The copy of a query that is sent on.
unfoldable pub updated_query : Query → Query
updated_query query = record {
  query_id = query.query_id;
  filter = query.filter;
  depth = query.depth - 1;
  relations = query.relations;
  remote_member_id = query.remote_member_id;
  timestamp = query.timestamp;
  origin_member_id = query.origin_member_id;
  origin_signature = query.origin_signature;
  signature_format_version = query.signature_format_version;
}

abbrev pub to_each : Query → List (Option ℕ) → List (Option ℕ × Query)
to_each query [] = []
to_each query (target ∷ targets) = (target, query) ∷ to_each query targets

-- `proxy_query_request` up to its calls: the targets, and the query that each is sent.
unfoldable pub proxy_query_request :
    Query → List NetworkLink → Option ℕ → Result (List (Option ℕ × Query))
unfolding get_proxy_targets updated_query
proxy_query_request query links sender =
    require (not (ltb query.depth 1)) value_error
    >> ok (to_each (updated_query query) (get_proxy_targets query links sender))

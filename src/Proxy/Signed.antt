-- ===== src/Proxy/Signed.antt =====
-- A query that its origin has signed, from pod to pod.
use byoda_python.Base.{
  ℕ, ◌+◌, ◌≤◌, ◌≡◌, refl, subst, ◌∙◌, ◌⊎◌, inl, inr, false, not, List, [], ◌∷◌, Option, none, some,
  ok, All, ltb, ◌==◌, Bool-cases, if◌then◌else◌, arith, Returns, Returns-ok, Returns-bind,
  Returns-require,
}
use byoda_python.Access.Authorize.{Auth}
use byoda_python.Proxy.{Query, proxy_query_request, updated_query, to_each, get_proxy_targets}
use byoda_python.Proxy.Get.{
  Queries, Signatures, Member, create_plaintext, verify_signature, depth_of, forward, get,
  with_origin, note_query,
}

module _ (signatures : Signatures) where
  -- The query has an origin, and its signature.
  pub record IsSigned (service_id : ℕ) (query : Query) : Type 0 where
    pub origin : ℕ
    pub is_origin : query.origin_member_id ≡ some origin
    pub signed :
        query.origin_signature
        ≡ some (
            signatures.sign origin (
              create_plaintext service_id query.relations query.filter
                (signatures.isoformat query.timestamp)
                (some origin)))
    pub version : query.signature_format_version ≡ 1

  -- A signed query passes the verification: the depth is zeroed for a timestamp too far ahead.
  pub depth_of-IsSigned :
      (now : ℕ) (member : Member) (auth : Auth) (query : Query)
      → IsSigned member.service_id query
      → depth_of signatures now member auth query
        ≡ ok (if ltb (now + 300) query.timestamp then 0 else query.depth)
  unfolding depth_of verify_signature
  depth_of-IsSigned now member auth query s =
      rw
        (
          s.is_origin,
          s.signed,
          s.version,
          signatures.verify-sign s.origin (
              create_plaintext member.service_id query.relations query.filter
                (signatures.isoformat query.timestamp) (some s.origin)),
        )
        refl

  updated_query-IsSigned :
      (service_id : ℕ) (query : Query)
      → IsSigned service_id query
      → IsSigned service_id (updated_query query)
  unfolding updated_query
  updated_query-IsSigned service_id query s = record {
    origin = s.origin;
    is_origin = s.is_origin;
    signed = s.signed;
    version = s.version;
  }

  with_origin-IsSigned :
      (member : Member) (query : Query)
      → (query.origin_member_id ≡ none) ⊎ IsSigned member.service_id query
      → (origin : Option ℕ) → query.origin_member_id ≡ origin
      → IsSigned member.service_id (with_origin signatures member query origin)
  with_origin-IsSigned member query h none e = record {
    origin = member.member_id;
    is_origin = refl;
    signed = refl;
    version = refl;
  }
  with_origin-IsSigned member query (inr s) (some m) e = s
  with_origin-IsSigned member query (inl h) (some m) e = absurd (cc)

  with_origin-keeps :
      (member : Member) (query : Query) (origin : Option ℕ)
      → let q = with_origin signatures member query origin in
        (q.depth ≡ query.depth) × (q.query_id ≡ query.query_id) × (q.timestamp ≡ query.timestamp)
  with_origin-keeps member query none = (refl, refl, refl)
  with_origin-keeps member query (some m) = (refl, refl, refl)

  -- What is sent on for a query: it has one step less to go, its origin's signature, and passes the
  -- checks of the signature and the timestamp at every pod of the service whose clock is at most five
  -- minutes behind its timestamp.
  pub record Forwards (service_id : ℕ) (query : Query) (call : Option ℕ × Query) : Type 0 where
    pub signed : IsSigned service_id call.1
    pub one_less : call.1.depth + 1 ≡ query.depth
    pub same_id : call.1.query_id ≡ query.query_id
    pub is_verified :
        (now : ℕ) (other : Member) (auth : Auth)
        → other.service_id ≡ service_id
        → query.timestamp ≤ now + 300
        → depth_of signatures now other auth call.1 ≡ ok call.1.depth

  to_each-All :
      (P : Option ℕ × Query → Type 0) (query : Query) (targets : List (Option ℕ))
      → ((t : Option ℕ) → P (t, query))
      → All P (to_each query targets)
  to_each-All P query [] h = tt
  to_each-All P query (t ∷ targets) h = (h t, to_each-All P query targets h)

  in_time :
      (now : ℕ) (other : Member) (auth : Auth) (service_id timestamp : ℕ) (query : Query)
      → IsSigned service_id query
      → query.timestamp ≡ timestamp
      → other.service_id ≡ service_id
      → timestamp ≤ now + 300
      → depth_of signatures now other auth query ≡ ok query.depth
  in_time now other auth service_id timestamp query s e same h =
      let late : ltb (now + 300) query.timestamp ≡ false = ground arith in
      depth_of-IsSigned now other auth query (rw same s) ∙ rw late refl

  proxy-Forwards :
      (member : Member) (query q : Query) (sender : Option ℕ)
      → IsSigned member.service_id q
      → (q.depth ≡ query.depth) × (q.query_id ≡ query.query_id) × (q.timestamp ≡ query.timestamp)
      → Returns (All (Forwards member.service_id query)) (proxy_query_request q member.links sender)
  unfolding proxy_query_request updated_query
  proxy-Forwards member query q sender s (depth, same, time) =
      Returns-require (not (ltb q.depth 1)) _ _ (λ h.
        let next = updated_query q in
        let signed = updated_query-IsSigned member.service_id q s in
        Returns-ok _ (
          to_each-All (Forwards member.service_id query) next
            (get_proxy_targets q member.links sender)
            (λ t. record {
              signed = signed;
              one_less = ground arith;
              same_id = same;
              is_verified = λ now other auth is_same in_clock.
                  in_time now other auth member.service_id query.timestamp next signed time is_same
                    in_clock;
            })))

  forward-Forwards :
      (member : Member) (auth : Auth) (query : Query) (depth : ℕ)
      → (query.origin_member_id ≡ none) ⊎ IsSigned member.service_id query
      → Returns
          (All (Forwards member.service_id query))
          (forward signatures member auth query depth)
  unfolding forward
  forward-Forwards member auth query depth h = elim (Bool-cases (depth == 0)) [
    | inl e ↦ rw e (Returns-ok [] tt)
    | inr e ↦ rw e (
        proxy-Forwards member query (with_origin signatures member query query.origin_member_id)
          auth.member_id (with_origin-IsSigned member query h query.origin_member_id refl)
          (with_origin-keeps member query query.origin_member_id))
  ]

  -- The queries that a pod sends on, for a query that has no origin yet or its origin's signature, have
  -- that signature, the same id and one step less to go; and at every pod of the service whose clock is
  -- at most five minutes behind the timestamp, however far ahead it is, they pass the checks of the
  -- signature and the timestamp with that depth. Whether the pod has answered the id before, and what
  -- its access rights allow, is not part of these checks.
  pub get-Forwards :
      {C : Type 0} (queries : Queries C) (now : ℕ) (member : Member) (auth : Auth) (c : C)
      (query : Query)
      → (query.origin_member_id ≡ none) ⊎ IsSigned member.service_id query
      → Returns
          (All (Forwards member.service_id query))
          (get signatures queries now member auth c query).1
  unfolding get
  get-Forwards queries now member auth c query h =
      Returns-bind (note_query signatures queries c query.query_id).1 _ (λ u e.
        Returns-bind (depth_of signatures now member auth query) _
          (λ depth d. forward-Forwards member auth query depth h))

  -- A signature of a query without relations serves for any other query with the same filter
  -- and origin: whatever its id, depth, target and timestamp, as long as the timestamp is not more than
  -- five minutes ahead of the clock.
  pub depth_of-replayed :
      (now : ℕ) (member : Member) (auth : Auth) (query : Query) (id remote : Option ℕ)
      (depth timestamp : ℕ)
      → IsSigned member.service_id query
      → query.relations ≡ []
      → timestamp ≤ now + 300
      → depth_of signatures now member auth (record {
        query_id = id;
        filter = query.filter;
        depth = depth;
        relations = [];
        remote_member_id = remote;
        timestamp = timestamp;
        origin_member_id = query.origin_member_id;
        origin_signature = query.origin_signature;
        signature_format_version = query.signature_format_version;
      })
        ≡ ok depth
  unfolding create_plaintext
  depth_of-replayed now member auth query id remote depth timestamp s none_asked h =
      let other : Query = record {
        query_id = id;
        filter = query.filter;
        depth = depth;
        relations = [];
        remote_member_id = remote;
        timestamp = timestamp;
        origin_member_id = query.origin_member_id;
        origin_signature = query.origin_signature;
        signature_format_version = query.signature_format_version;
      } in
      let late : ltb (now + 300) timestamp ≡ false = ground arith in
      let signed : IsSigned member.service_id other = record {
        origin = s.origin;
        is_origin = s.is_origin;
        signed =
            subst
              (λ relations.
                query.origin_signature
                ≡ some (
                    signatures.sign s.origin (
                      create_plaintext member.service_id relations query.filter
                        (signatures.isoformat query.timestamp) (some s.origin))))
              none_asked s.signed;
        version = s.version;
      } in
      depth_of-IsSigned now member auth other signed ∙ rw late refl

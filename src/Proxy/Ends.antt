-- ===== src/Proxy/Ends.antt =====
-- A query that is sent on from pod to pod comes to an end.
use byoda_python.Base.{
  ℕ, zero, suc, ◌+◌, ◌*◌, ◌<◌, ◌≤◌, ◌≡◌, refl, ap, inl, inr, not, ◌||◌, any, List, [], ◌∷◌, ◌++◌,
  Option, none, some, Result, ok, raise, ltb, ◌==◌, Bool-cases, arith, length, Returns, Returns-ok,
  Returns-bind, Returns-require, Option-cases,
}
use byoda_python.Text.{Text, text_eq, lower}
use byoda_python.Access.Authorize.{Auth}
use byoda_python.Proxy.{
  Query, NetworkLink, load_network_links, all_targets, is_test_id, is_member, add_target,
  related_targets, targets_of, get_proxy_targets, updated_query, proxy_query_request, to_each,
}
use byoda_python.Proxy.Get.{
  Queries, Signatures, Member, get, depth_of, forward, with_origin, note_query,
}
use byoda_python.Proxy.Network.{Message, Net, messages_to, sent, Run, answer, auth_of}

load_network_links-length :
    (relations : List Text) (links : List NetworkLink)
    → length (load_network_links relations links) ≤ length links
load_network_links-length relations [] = omega arith
load_network_links-length relations (link ∷ links) =
    ground (arith, load_network_links-length relations links)

all_targets-length :
    (sender : Option ℕ) (links : List NetworkLink)
    → length (all_targets sender links) ≤ length links
all_targets-length sender [] = omega arith
all_targets-length sender (link ∷ links) = ground (arith, all_targets-length sender links)

add_target-length :
    (sender member_id : Option ℕ) (rest : List (Option ℕ))
    → length (add_target sender member_id rest) ≤ suc (length rest)
add_target-length sender none rest = omega arith
add_target-length sender (some n) rest = elim (Bool-cases (is_test_id n || is_member sender n)) [
  | inl e ↦ rw e (omega arith)
  | inr e ↦ rw e (omega arith)
]

related_targets-length :
    (sender : Option ℕ) (relations : List Text) (links : List NetworkLink)
    → length (related_targets sender relations links) ≤ length links
related_targets-length sender relations [] = omega arith
related_targets-length sender relations (link ∷ links) =
    let rest = related_targets sender relations links in
    elim (Bool-cases (any (text_eq (lower link.relation)) relations)) [
      | inl e ↦ rw e (
          omega (
            arith,
            add_target-length sender link.member_id rest,
            related_targets-length sender relations links,
          ))
      | inr e ↦ rw e (omega (arith, related_targets-length sender relations links))
    ]

targets-length :
    (query : Query) (links : List NetworkLink) (sender : Option ℕ)
    → length (get_proxy_targets query links sender) ≤ suc (length links)
unfolding get_proxy_targets
targets-length query links sender = elim (Option-cases query.remote_member_id) [
  | inr (n, e) ↦ rw e (omega arith)
  | inl e ↦ rw e (by_relations query.relations)
]
  where
    by_relations :
        (relations : List Text) → length (targets_of sender relations links) ≤ suc (length links)
    by_relations [] = omega (
      arith,
      all_targets-length sender (load_network_links [] links),
      load_network_links-length [] links,
    )
    by_relations (r ∷ relations) = omega (
      arith,
      related_targets-length sender (r ∷ relations) (load_network_links (r ∷ relations) links),
      load_network_links-length (r ∷ relations) links,
    )

-- How many steps a query can cause that has so far to go, if every pod sends it on to at most
-- `width` others.
unfoldable pub steps_of : ℕ → ℕ → ℕ
steps_of width zero = 1
steps_of width (suc depth) = suc (width * steps_of width depth)

unfoldable pub all_steps : ℕ → List Message → ℕ
unfolding steps_of
all_steps width [] = 0
all_steps width (m ∷ messages) = steps_of width m.query.depth + all_steps width messages

steps_of-pos : (width depth : ℕ) → 0 < steps_of width depth
unfolding steps_of
steps_of-pos width zero = omega arith
steps_of-pos width (suc depth) = omega arith

all_steps-cons :
    (width : ℕ) (m : Message) (ms : List Message)
    → all_steps width (m ∷ ms) ≡ steps_of width m.query.depth + all_steps width ms
unfolding all_steps
all_steps-cons width m ms = refl

all_steps-append :
    (width : ℕ) (xs ys : List Message)
    → all_steps width (xs ++ ys) ≡ all_steps width xs + all_steps width ys
unfolding all_steps
all_steps-append width [] ys = omega arith
all_steps-append width (m ∷ xs) ys = omega (arith, all_steps-append width xs ys)

to_each-steps :
    (width : ℕ) (auth : Auth) (query : Query) (targets : List (Option ℕ))
    → all_steps width (messages_to auth (to_each query targets))
      ≤ length targets * steps_of width query.depth
unfolding all_steps
to_each-steps width auth query [] = omega arith
to_each-steps width auth query (none ∷ targets) =
    grind (arith, to_each-steps width auth query targets)
to_each-steps width auth query (some n ∷ targets) =
    grind (arith, to_each-steps width auth query targets)

mul-le : (a b c : ℕ) → a ≤ b → a * c ≤ b * c
mul-le zero b c h = omega arith
mul-le (suc a) zero c h = absurd (omega arith)
mul-le (suc a) (suc b) c h = omega (arith, mul-le a b c (omega arith))

module _ {C : Type 0} (queries : Queries C) (signatures : Signatures) where
  -- The calls that a query causes have fewer steps ahead of them than the query.
  Lighter : ℕ → Query → List (Option ℕ × Query) → Type 0
  Lighter width query calls =
      (auth : Auth) → all_steps width (messages_to auth calls) < steps_of width query.depth

  proxy-Lighter :
      (width : ℕ) (query q : Query) (links : List NetworkLink) (sender : Option ℕ)
      → suc (length links) ≤ width
      → q.depth ≡ query.depth
      → Returns (Lighter width query) (proxy_query_request q links sender)
  unfolding proxy_query_request updated_query Lighter
  proxy-Lighter width query q links sender h same = Returns-require (not (ltb q.depth 1)) _ _ (λ e.
      Returns-ok _ (λ auth.
        let next = updated_query q in
        let targets = get_proxy_targets q links sender in
        let deeper : query.depth ≡ suc next.depth = ground arith in
        let many =
          mul-le (length targets) width (steps_of width next.depth)
            (omega (arith, targets-length q links sender, h)) in
        rw deeper (unfold steps_of in omega (arith, to_each-steps width auth next targets, many))))

  with_origin-depth :
      (member : Member) (query : Query) (origin : Option ℕ)
      → (with_origin signatures member query origin).depth ≡ query.depth
  with_origin-depth member query none = refl
  with_origin-depth member query (some m) = refl

  forward-Lighter :
      (width : ℕ) (member : Member) (auth : Auth) (query : Query) (depth : ℕ)
      → suc (length member.links) ≤ width
      → Returns (Lighter width query) (forward signatures member auth query depth)
  unfolding forward Lighter all_steps
  forward-Lighter width member auth query depth h = elim (Bool-cases (depth == 0)) [
    | inl e ↦ rw e (Returns-ok [] (λ auth'. steps_of-pos width query.depth))
    | inr e ↦ rw e (
        proxy-Lighter width query (with_origin signatures member query query.origin_member_id)
          member.links auth.member_id h (with_origin-depth member query query.origin_member_id))
  ]

  get-Lighter :
      (width now : ℕ) (member : Member) (auth : Auth) (c : C) (query : Query)
      → suc (length member.links) ≤ width
      → Returns (Lighter width query) (get signatures queries now member auth c query).1
  unfolding get
  get-Lighter width now member auth c query h =
      Returns-bind (note_query signatures queries c query.query_id).1 _ (λ u e.
        Returns-bind (depth_of signatures now member auth query) _
          (λ depth d. forward-Lighter width member auth query depth h))

  module _ (members : ℕ → Member) where
    sent-lighter :
        (width now : ℕ) (caches : ℕ → C) (m : Message)
        → suc (length (members m.target).links) ≤ width
        → all_steps width
            (sent (auth_of (members m.target)) (answer queries signatures members now caches m).1)
          < steps_of width m.query.depth
    sent-lighter width now caches m h =
        by_answer (answer queries signatures members now caches m).1
          (get-Lighter width now (members m.target) m.auth (caches m.target) m.query h)
      where
        by_answer :
            (r : Result (List (Option ℕ × Query)))
            → Returns (Lighter width m.query) r
            → all_steps width (sent (auth_of (members m.target)) r) < steps_of width m.query.depth
        by_answer (raise e) l = unfold all_steps in steps_of-pos width m.query.depth
        by_answer (ok calls) l = unfold Lighter in l.at calls refl (auth_of (members m.target))

    -- However the queries are delivered or lost, and at whatever times: with at most `width - 1`
    -- links at every pod, the steps taken, and those that what is on its way can still cause, are no
    -- more than what was on its way at first could cause. So the pods come to rest.
    pub Run-bounded :
        (width : ℕ) {n last : Net C} {k : ℕ} {log : List (ℕ × ℕ)}
        → ((m : ℕ) → suc (length (members m).links) ≤ width)
        → Run queries signatures members n k log last
        → k + all_steps width last.messages ≤ all_steps width n.messages
    Run-bounded width few Run.done = omega arith
    Run-bounded width {n} {last} few (Run.deliver {k = k} now before after m e run) =
        let answers =
          sent (auth_of (members m.target)) (answer queries signatures members now n.caches m).1 in
        omega (
          arith,
          all_steps-cons width m after,
          ap (all_steps width) e,
          all_steps-append width before (m ∷ after),
          all_steps-append width before (after ++ answers),
          all_steps-append width after answers,
          sent-lighter width now n.caches m (few m.target),
          Run-bounded width few run,
        )
    Run-bounded width {n} {last} few (Run.lose {k = k} before after m e run) = omega (
      arith,
      all_steps-cons width m after,
      ap (all_steps width) e,
      all_steps-append width before (m ∷ after),
      all_steps-append width before after,
      steps_of-pos width m.query.depth,
      Run-bounded width few run,
    )

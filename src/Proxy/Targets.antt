-- ===== src/Proxy/Targets.antt =====
-- The pods to which a query with relations is sent on.
use byoda_python.Base.{
  ℕ, ◌≡◌, ◌≢◌, refl, subst, inl, inr, Bool, true, false, ◌||◌, any, Any, Any-imp, any_iff, All,
  All-imp, List, [], ◌∷◌, Option, none, some, Bool-cases, if◌then◌else◌, arith,
}
use byoda_python.Text.{Text, text_eq, lower}
use byoda_python.Text.Laws.{text_eq_iff}
use byoda_python.Proxy.{
  Query, NetworkLink, load_network_links, related_targets, add_target, get_proxy_targets,
  is_test_id, is_member,
}

abbrev pub Among : List Text → Text → Type 0
Among relations text = Any (λ r. text ≡ r) relations

-- A link to the target, of a relation that is asked for as it is written, and in small letters.
abbrev pub Linked : List Text → List NetworkLink → Option ℕ → Type 0
Linked relations links target =
    Any
      (λ link.
        (link.member_id ≡ target)
        × Among relations (lower link.relation)
        × Among relations link.relation)
      links

-- The target is a member that is neither the sender nor a test id.
abbrev pub IsOther : Option ℕ → Option ℕ → Type 0
IsOther sender target = (n : ℕ) × (target ≡ some n) × (is_test_id n ≡ false) × (sender ≢ some n)

any-Among :
    (relations : List Text) (text : Text)
    → any (text_eq text) relations ≡ true
    → Among relations text
any-Among relations text h = (any_iff (text_eq_iff text) relations).0 h

not_sender : (sender : Option ℕ) (n : ℕ) → is_member sender n ≡ false → sender ≢ some n
not_sender none n h = λ e. cc
not_sender (some m) n h = λ e. absurd (ground arith)

add_target-All :
    (P : Option ℕ → Type 0) (sender target : Option ℕ) (rest : List (Option ℕ))
    → (IsOther sender target → P target)
    → All P rest
    → All P (add_target sender target rest)
add_target-All P sender none rest h k = k
add_target-All P sender (some n) rest h k = elim (Bool-cases (is_test_id n || is_member sender n)) [
  | inl e ↦ rw e k
  | inr e ↦
      let (test, other) = both_false (is_test_id n) (is_member sender n) e in
      rw e (h (n, refl, test, not_sender sender n other), k)
]
  where
    both_false : (a b : Bool) → a || b ≡ false → (a ≡ false) × (b ≡ false)
    both_false a b h = ground arith

related_targets-Linked :
    (sender : Option ℕ) (relations : List Text) (links : List NetworkLink)
    → All
        (λ t.
          Any (λ link. (link.member_id ≡ t) × Among relations (lower link.relation)) links
          × IsOther sender t)
        (related_targets sender relations links)
related_targets-Linked sender relations [] = tt
related_targets-Linked sender relations (link ∷ links) =
    let rest =
      All-imp (λ t h. (inr h.0, h.1)) (related_targets sender relations links)
        (related_targets-Linked sender relations links) in
    elim (Bool-cases (any (text_eq (lower link.relation)) relations)) [
      | inr e ↦ rw e rest
      | inl e ↦ rw e (
          add_target-All
            (λ t.
              Any (λ link. (link.member_id ≡ t) × Among relations (lower link.relation))
                (link ∷ links)
              × IsOther sender t)
            sender link.member_id (related_targets sender relations links)
            (λ other. (inl (refl, any-Among relations (lower link.relation) e), other)) rest)
    ]

load_wanted :
    (r : Text) (relations : List Text) (link : NetworkLink) (links : List NetworkLink) (b : Bool)
    → any (text_eq link.relation) (r ∷ relations) ≡ b
    → load_network_links (r ∷ relations) (link ∷ links) ≡ (
        if b
        then link ∷ load_network_links (r ∷ relations) links
        else load_network_links (r ∷ relations) links)
load_wanted r relations link links b e = rw e refl

-- A link that is loaded has one of the relations.
load-Among :
    (Q : NetworkLink → Type 0) (r : Text) (relations : List Text) (links : List NetworkLink)
    → Any Q (load_network_links (r ∷ relations) links)
    → Any (λ link. Q link × Among (r ∷ relations) link.relation) links
load-Among Q r relations [] h = absurd h
load-Among Q r relations (link ∷ links) h =
    elim (Bool-cases (any (text_eq link.relation) (r ∷ relations))) [
      | inr e ↦ inr (
          load-Among Q r relations links
            (subst (Any Q) (load_wanted r relations link links false e) h))
      | inl e ↦ elim (subst (Any Q) (load_wanted r relations link links true e) h) [
        | inl q ↦ inl (q, any-Among (r ∷ relations) link.relation e)
        | inr k ↦ inr (load-Among Q r relations links k)
      ]
    ]

-- A query that names relations and no pod is sent on only to members to whom the pod has a link of one
-- of the relations, as the link writes it and also in small letters: so not by a link whose relation
-- has a capital letter. It is not sent to a test id, nor back to the sender.
pub targets-Linked :
    (query : Query) (r : Text) (relations : List Text) (links : List NetworkLink)
    (sender : Option ℕ)
    → query.remote_member_id ≡ none
    → query.relations ≡ r ∷ relations
    → All
        (λ t. Linked (r ∷ relations) links t × IsOther sender t)
        (get_proxy_targets query links sender)
unfolding get_proxy_targets
targets-Linked query r relations links sender e same =
    let loaded = load_network_links (r ∷ relations) links in
    rw (e, same)
      (All-imp
        (λ t h. (
          Any-imp links (λ link k. (k.0.0, k.0.1, k.1))
              (load-Among
                (λ link. (link.member_id ≡ t) × Among (r ∷ relations) (lower link.relation)) r
                relations links h.0),
          h.1,
        ))
        (related_targets sender (r ∷ relations) loaded)
        (related_targets-Linked sender (r ∷ relations) loaded))

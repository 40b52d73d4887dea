-- ===== src/Access/Authorize/Rights.antt =====
-- What each access right grants, and to whom.
use byoda_python.Base.{
  ℕ, ◌≤◌, ◌≡◌, ◌≢◌, refl, ◌↔◌, ◌⊎◌, inl, inr, Bool, true, false, ◌&&◌, ◌||◌, not, List, [], ◌∷◌,
  Option, none, some, if◌then◌else◌, ◌==◌, ==_iff, ==_refl, sym, subst, Any, any_iff, or_iff, arith,
  Bool-cases,
}
use byoda_python.Text.{Text, lower}
use byoda_python.Text.Laws.{text_eq_iff}
use byoda_python.DataTypes.{RightsEntityType, DataOperationType}
use byoda_python.Access.{DataAccessRight, is_nil}
use byoda_python.Access.Authorize.{
  NetworkLink, Member, Request, operation_index, same_operation, is_id, too_deep, authorize_base,
  link_matches, authorize_member, authorize,
}

-- A link to the caller, of a relation that the right names if it names any.
abbrev pub IsLink : DataAccessRight → ℕ → NetworkLink → Type 0
IsLink right id link =
    (link.member_id ≡ id)
    × ((right.relations ≡ []) ⊎ Any (λ s. lower link.relation ≡ s) right.relations)

-- The callers that the code takes for an entity type. A right for the service is for every caller with
-- credentials for it, so for its members too.
abbrev pub IsCaller : RightsEntityType → DataAccessRight → Request → Member → Type 0
IsCaller RightsEntityType.member right r m = r.auth.member_id ≡ some m.member_id
IsCaller RightsEntityType.any_member right r m =
    (id : ℕ) × (r.auth.member_id ≡ some id) × (r.auth.service_id ≡ some r.service_id)
IsCaller RightsEntityType.network right r m =
    (id : ℕ) × (r.auth.member_id ≡ some id) × Any (IsLink right id) m.network_links
IsCaller RightsEntityType.service right r m = r.auth.service_id ≡ some r.service_id
IsCaller RightsEntityType.anonymous right r m =
    (n : ℕ) → r.auth.service_id ≡ some n → (n ≡ 0) ⊎ (n ≡ r.service_id)

-- A right grants a request for its own operation, no deeper than its distance if it has one that is
-- not 0, and at any depth else, to its callers, where the pod is a member of the service.
pub record IsGranted (e : RightsEntityType) (right : DataAccessRight) (r : Request) : Type 0 where
  pub operation : right.data_operation ≡ r.operation
  pub within : (d : ℕ) → right.distance ≡ some d → d ≢ 0 → r.depth ≤ d
  pub caller : (m : Member) × (r.memberships r.service_id ≡ some m) × IsCaller e right r m

pub is_id_iff : (o : Option ℕ) (n : ℕ) → (is_id o n ≡ true) ↔ (o ≡ some n)
is_id_iff none n = (λ h. absurd (cc), λ h. absurd (cc))
is_id_iff (some m) n = (λ h. ground arith, λ h. ground arith)

is_nil_iff : (ss : List Text) → (is_nil ss ≡ true) ↔ (ss ≡ [])
is_nil_iff [] = (λ h. refl, λ h. refl)
is_nil_iff (s ∷ ss) = (λ h. absurd (cc), λ h. absurd (cc))

pub and_iff :
    {P Q : Type 0} (a b : Bool) → (a ≡ true) ↔ P → (b ≡ true) ↔ Q → ((a && b) ≡ true) ↔ (P × Q)
and_iff true b h k = (λ e. (h.0 refl, k.0 e), λ e. k.1 e.1)
and_iff false b h k = (λ e. absurd (cc), λ e. absurd (cc (h.1 e.0)))

link_matches_iff :
    (right : DataAccessRight) (id : ℕ) (link : NetworkLink)
    → (link_matches right id link ≡ true) ↔ IsLink right id link
unfolding link_matches
link_matches_iff right id link = and_iff (link.member_id == id) _ (==_iff link.member_id id) (
    or_iff (is_nil right.relations) _ (is_nil_iff right.relations)
      (any_iff (λ s. text_eq_iff (lower link.relation) s) right.relations))

operation_index-injective :
    (a b : DataOperationType) → operation_index a ≡ operation_index b → a ≡ b
operation_index-injective a b h = ground arith

same_operation_iff : (a b : DataOperationType) → (same_operation a b ≡ true) ↔ (a ≡ b)
same_operation_iff a b =
    (λ h. operation_index-injective a b (ground arith), λ e. rw e (==_refl (operation_index b)))

too_deep_iff :
    (o : Option ℕ) (n : ℕ) → (too_deep o n ≡ false) ↔ ((d : ℕ) → o ≡ some d → d ≢ 0 → n ≤ d)
too_deep_iff none n = (λ h d e k. absurd (cc), λ h. refl)
too_deep_iff (some d) n = (
  λ h d' e k. ground arith,
  λ h. elim (Bool-cases (d == 0)) [
    | inl z ↦ rw z
    | inr z ↦ (let l = h d refl (ground arith) in ground arith)
  ],
)

some_iff :
    (o : Option ℕ) (f : ℕ → Bool) {P : ℕ → Type 0}
    → ((n : ℕ) → (f n ≡ true) ↔ P n)
    → ((elim o [ none ↦ false | some n ↦ f n ]) ≡ true) ↔ ((n : ℕ) × (o ≡ some n) × P n)
some_iff none f iff = (λ h. absurd (cc), λ (n, e, _). absurd (cc))
some_iff (some m) f {P = P} iff =
    (λ h. (m, refl, (iff m).0 h), λ (n, e, h). (iff m).1 (subst P (some-injective (sym e)) h))
  where
    some-injective : {a b : ℕ} → some a ≡ some b → a ≡ b
    some-injective h = cc

anonymous_iff :
    (o : Option ℕ) (n : ℕ)
    → ((elim o [ none ↦ true | some id ↦ id == 0 || id == n ]) ≡ true)
      ↔ ((m : ℕ) → o ≡ some m → (m ≡ 0) ⊎ (m ≡ n))
anonymous_iff none n = (λ h m e. absurd (cc), λ h. refl)
anonymous_iff (some id) n = (
  λ h m e. subst (λ m. (m ≡ 0) ⊎ (m ≡ n)) (some-injective e) (tested.0 h),
  λ h. tested.1 (h id refl),
)
  where
    some-injective : {a b : ℕ} → some a ≡ some b → a ≡ b
    some-injective h = cc

    tested : ((id == 0 || id == n) ≡ true) ↔ ((id ≡ 0) ⊎ (id ≡ n))
    tested = or_iff (id == 0) (id == n) (==_iff id 0) (==_iff id n)

authorize_member_iff :
    (e : RightsEntityType) (right : DataAccessRight) (r : Request) (m : Member)
    → (authorize_member e right r m ≡ true) ↔ IsCaller e right r m
unfolding authorize_member
authorize_member_iff RightsEntityType.member right r m = is_id_iff r.auth.member_id m.member_id
authorize_member_iff RightsEntityType.service right r m = is_id_iff r.auth.service_id r.service_id
authorize_member_iff RightsEntityType.any_member right r m =
    some_iff r.auth.member_id _ (λ id. is_id_iff r.auth.service_id r.service_id)
authorize_member_iff RightsEntityType.network right r m =
    some_iff r.auth.member_id _ (λ id. any_iff (link_matches_iff right id) m.network_links)
authorize_member_iff RightsEntityType.anonymous right r m =
    anonymous_iff r.auth.service_id r.service_id

-- The steps of `authorize`, whatever is tested of the membership.
abbrev answer : Bool → Bool → Option Member → Option Bool × Option Member
answer same deep o =
    if not same then (none, none) else if deep then (some false, none) else (some true, o)

steps_iff :
    (same deep : Bool) (o : Option Member) (test : Member → Bool)
    → ((elim ((answer same deep o).1) [ none ↦ false | some m ↦ test m ]) ≡ true)
      ↔ ((m : Member) × (same ≡ true) × (deep ≡ false) × (o ≡ some m) × (test m ≡ true))
steps_iff false deep o test = (λ h. absurd (cc), λ (m, e, _, _, _). absurd (cc))
steps_iff true true o test = (λ h. absurd (cc), λ (m, _, e, _, _). absurd (cc))
steps_iff true false none test = (λ h. absurd (cc), λ (m, _, _, e, _). absurd (cc))
steps_iff true false (some m) test = (λ h. (m, refl, refl, refl, h), λ (n, _, _, e, k). cc)

-- A right authorizes a request exactly if the operation is the right's, the depth is at most its
-- distance or the distance is missing or 0, the pod is a member of the service, and the caller is one that
-- the code takes for the right's kind: for the member, the pod's own member id; for any member, a member
-- id with credentials for the service; for the network, a member that is linked, by a relation that
-- the right names if it names any; for the service, any credentials for the service, a member's among
-- them; for anonymous, none or credentials for no other service.
pub authorize_iff :
    (e : RightsEntityType) (right : DataAccessRight) (r : Request)
    → (authorize e right r ≡ true) ↔ IsGranted e right r
unfolding authorize authorize_base
authorize_iff e right r =
    let steps =
      steps_iff (same_operation right.data_operation r.operation) (too_deep right.distance r.depth)
        (r.memberships r.service_id) (authorize_member e right r) in
    let same = same_operation_iff right.data_operation r.operation in
    let deep = too_deep_iff right.distance r.depth in
    (
      λ h.
          let (m, a, b, found, c) = steps.0 h in
          record {
            operation = same.0 a;
            within = deep.0 b;
            caller = (m, found, (authorize_member_iff e right r m).0 c);
          },
      λ g.
          let (m, found, c) = g.caller in
          steps.1
            (m, same.1 g.operation, deep.1 g.within, found, (authorize_member_iff e right r m).1 c),
    )

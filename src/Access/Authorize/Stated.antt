-- ===== src/Access/Authorize/Stated.antt =====
-- From the JSON of a schema to what its rights authorize: `parse_access_controls` of
-- byoda/datamodel/dataclass.py.
use byoda_python.Base.{
  ◌≡◌, sym, subst, true, Bool-cases, inl, inr, List, [], ◌∷◌, ok, arith, All, Any, All-imp, Any-imp,
  All-Any, ok-injective, >>=-eq-ok, Returns, Returns-ok, Returns-bind,
}
use byoda_python.Text.{Text}
use byoda_python.DataTypes.{RightsEntityType}
use byoda_python.Access.{
  PermissionData, DataAccessRight, AccessRights, find_value, rights_entity_types, new_right,
  new_rights, get_access_rights, same_entity, put_rights, parse_from, parse_access_controls,
}
use byoda_python.Access.Authorize.{Request, some_entity}
use byoda_python.Access.Authorize.Rights.{IsGranted}
use byoda_python.Access.Authorize.Requests.{some_entity_iff}

abbrev EntityRights : Type 0
EntityRights = RightsEntityType × List DataAccessRight

abbrev StatedRights : Type 0
StatedRights = Text × List PermissionData

same_entity→≡ : (e f : RightsEntityType) → same_entity e f ≡ true → e ≡ f
same_entity→≡ e f h = ground arith

module _ (P : EntityRights → Type 0) where
  put_rights-All :
      (e : RightsEntityType) (rights : List DataAccessRight) (parsed : AccessRights)
      → P (e, rights)
      → All P parsed
      → All P (put_rights e rights parsed)
  unfolding put_rights
  put_rights-All e rights [] p h = (p, tt)
  put_rights-All e rights ((f, others) ∷ rest) p h = elim (Bool-cases (same_entity f e)) [
    | inl same ↦ rw same (subst (λ g. P (g, rights)) (sym (same_entity→≡ f e same)) p, h.1)
    | inr other ↦ rw other (h.0, put_rights-All e rights rest p h.1)
  ]

  -- Every entry that is parsed is that of a key of the JSON.
  parse_from-All :
      (stated : List StatedRights) (parsed : AccessRights)
      → All (λ s. (entry : EntityRights) → get_access_rights s.0 s.1 ≡ ok entry → P entry) stated
      → All P parsed
      → Returns (All P) (parse_from stated parsed)
  unfolding parse_from
  parse_from-All [] parsed h k = Returns-ok parsed k
  parse_from-All (s ∷ stated) parsed h k =
      Returns-bind (get_access_rights s.0 s.1) _ λ (entry : EntityRights) read.
        parse_from-All stated (put_rights entry.0 entry.1 parsed) h.1
          (put_rights-All entry.0 entry.1 parsed (h.0 entry read) k)

self_read :
    (stated : List StatedRights)
    → All
        (λ s.
          (entry : EntityRights)
          → get_access_rights s.0 s.1 ≡ ok entry
          → Any (λ other. get_access_rights other.0 other.1 ≡ ok entry) stated)
        stated
self_read [] = tt
self_read (s ∷ stated) = (
  (λ entry read. inl read),
  All-imp (λ s found entry read. inr (found entry read)) stated (self_read stated),
)

-- A right that is parsed is that of a permission.
new_rights-Any :
    (Q : DataAccessRight → Type 0) (ds : List PermissionData) (rights : List DataAccessRight)
    → new_rights ds ≡ ok rights
    → Any Q rights
    → Any (λ d. (right : DataAccessRight) × (new_right d ≡ ok right) × Q right) ds
unfolding new_rights
new_rights-Any Q [] rights h k = absurd (subst (Any Q) (sym (ok-injective h)) k)
new_rights-Any Q (d ∷ ds) rights h k =
    let (right, read, more) = >>=-eq-ok (new_right d) _ h in
    let (others, later, done) = >>=-eq-ok (new_rights ds) _ more in
    elim (subst (Any Q) (sym (ok-injective done)) k) [
      | inl q ↦ inl (right, read, q)
      | inr q ↦ inr (new_rights-Any Q ds others later q)
    ]

-- A permission of the JSON grants the request to the callers that its key names.
abbrev pub IsStated : List StatedRights → Request → Type 0
IsStated stated r =
    Any
      (λ (s : StatedRights).
        (e : RightsEntityType) × (find_value s.0 rights_entity_types ≡ ok e)
        × Any (λ d. (right : DataAccessRight) × (new_right d ≡ ok right) × IsGranted e right r) s.1)
      stated

entry-IsStated :
    (s : StatedRights) (entry : EntityRights) (r : Request)
    → get_access_rights s.0 s.1 ≡ ok entry
    → Any (λ right. IsGranted entry.0 right r) entry.1
    → (e : RightsEntityType) × (find_value s.0 rights_entity_types ≡ ok e)
      × Any (λ d. (right : DataAccessRight) × (new_right d ≡ ok right) × IsGranted e right r) s.1
unfolding get_access_rights
entry-IsStated s entry r h k =
    let (e, named, more) = >>=-eq-ok (find_value s.0 rights_entity_types) _ h in
    let (rights, read, done) = >>=-eq-ok (new_rights s.1) _ more in
    let k' =
      subst (λ (x : EntityRights). Any (λ right. IsGranted x.0 right r) x.1)
        (sym (ok-injective done)) k in
    (e, named, new_rights-Any (λ right. IsGranted e right r) s.1 rights read k')

-- What the rights of a class authorize, a permission in its JSON grants: one under the key of an entity
-- type that the code takes the caller for, and that is a valid right for the operation, the depth and the
-- caller. The key of the service is for every caller with credentials for it, a member's among them,
-- and a permission without a distance, or with distance 0, is for any depth.
pub parse_access_controls-IsStated :
    (stated : List StatedRights) (rights : AccessRights) (r : Request)
    → parse_access_controls stated ≡ ok rights
    → some_entity rights r ≡ true
    → IsStated stated r
unfolding parse_access_controls
parse_access_controls-IsStated stated rights r parsed granted =
    let P : EntityRights → Type 0 =
      λ entry. Any (λ other. get_access_rights other.0 other.1 ≡ ok entry) stated in
    let (entry, from, grants) =
      All-Any rights ((parse_from-All P stated [] (self_read stated) tt).at rights parsed)
        ((some_entity_iff rights r).0 granted) in
    Any-imp stated (λ s read. entry-IsStated s entry r read grants) from

-- ===== src/Canonical/Laws.antt =====
-- What `storeCanonicalRoute` guarantees to `buildOperation`.
use protoc_gen_apigw.Route.{parse_route, RouteToken}
use protoc_gen_apigw.Base.Text.{slash, text_eq, Text}
use protoc_gen_apigw.Base.{
  some-eq, if◌then◌else◌, suc, arith, true, ap, ◌++◌, get_elem?_of_lt, ◌∙◌, sym, ◌<◌, inr,
  length-map, refl, inl, ◌∷◌, Bool-cases, Option-cases, none, some, ◌+◌, map, ◌≡◌, length, ℕ, [],
  List,
}
use protoc_gen_apigw.Canonical.{
  param_part, to_snake_case, CanonicalRoute, Mapper, snake_route, store_canonical_route,
}
use protoc_gen_apigw.Base.OrderedMap.Laws.{value-set_self, value-set}
use protoc_gen_apigw.Base.Text.Laws.{text_eq_iff}
use mathlib.Core.Path.{subst}
use protoc_gen_apigw.Route.Laws.{parse_route-IsWellFormed}
use protoc_gen_apigw.Route.Render.{Fits, brace, IsWellFormed}
use protoc_gen_apigw.Canonical.Numbering.{
  canonical_str-number, canonical_str-injective, number_value, number_param, canonicalize-eq,
  number, param_names, canonical_str,
}
use protoc_gen_apigw.Base.Outcome.{ok}
use protoc_gen_apigw.Base.OrderedMap.{set, value}
use protoc_gen_apigw.Canonical.Names.{DifferInNames, map-number_eq}

-- The mapper's invariant: the entry under a route's canonical form names each of its parameters.
pub HasArity : Mapper → Type 0
HasArity m =
    (ts : List RouteToken) (c : CanonicalRoute)
    → IsWellFormed 0 ts
    → value (canonical_str ts) m ≡ some c
    → length c.params ≡ length (param_names ts)

param_names-map_number :
    (ts : List RouteToken) → length (param_names (map number ts)) ≡ length (param_names ts)
param_names-map_number [] = refl
param_names-map_number (t ∷ ts) = elim (Bool-cases t.is_param) [
  | inl p ↦ simp (p, number_param t p, param_names-map_number ts)
  | inr v ↦ simp (v, number_value t v, param_names-map_number ts)
]

same_count :
    (ts us : List RouteToken)
    → IsWellFormed 0 ts
    → IsWellFormed 0 us
    → canonical_str ts ≡ canonical_str us
    → length (param_names ts) ≡ length (param_names us)
same_count ts us w v e =
    sym (param_names-map_number ts)
    ∙ ap (λ x. length (param_names x)) (canonical_str-injective ts us w v e)
    ∙ param_names-map_number us

HasArity-nil : HasArity []
unfolding HasArity value
HasArity-nil ts c w h = cc

abbrev fresh : Text → List RouteToken → CanonicalRoute
fresh route ts = record { oas_route = route; params = map to_snake_case (param_names ts) }

pub store_new :
    (route : Text) (ts : List RouteToken) (m : Mapper)
    → value (canonical_str ts) m ≡ none
    → store_canonical_route route ts m ≡ (set (canonical_str ts) (fresh route ts) m, fresh route ts)
unfolding store_canonical_route
store_new route ts m e =
    rw (canonicalize-eq ts [] [], store_canonical_route, e) (rw (canonicalize-eq ts [] []))

pub store_old :
    (route : Text) (ts : List RouteToken) (m : Mapper) (c : CanonicalRoute)
    → value (canonical_str ts) m ≡ some c
    → store_canonical_route route ts m ≡ (m, c)
unfolding store_canonical_route
store_old route ts m c e = rw (canonicalize-eq ts [] [], store_canonical_route, e)

store_again :
    (route : Text) (ts : List RouteToken) (m : Mapper)
    → value (canonical_str ts) (store_canonical_route route ts m).0
      ≡ some (store_canonical_route route ts m).1
store_again route ts m = elim (Option-cases (value (canonical_str ts) m)) [
  | inl missing ↦ rw (store_new route ts m missing) (value-set_self _ _ m)
  | inr (c, found) ↦ rw (store_old route ts m c found) found
]

fresh-HasArity :
    (route : Text) (ts : List RouteToken) (m : Mapper)
    → IsWellFormed 0 ts
    → HasArity m
    → HasArity (set (canonical_str ts) (fresh route ts) m)
unfolding HasArity
fresh-HasArity route ts m w h us c v found =
    elim (Bool-cases (text_eq (canonical_str ts) (canonical_str us))) [
      | inl same ↦
          let stored : fresh route ts ≡ c = some-eq (rw (value-set, same) at found) in
          ap (λ r. length r.params) (sym stored)
          ∙ length-map to_snake_case (param_names ts)
          ∙ same_count ts us w v ((text_eq_iff _ _).0 same)
      | inr other ↦ h us c v (rw (value-set, other) at found)
    ]

pub store_canonical_route-HasArity :
    (route : Text) (ts : List RouteToken) (m : Mapper)
    → IsWellFormed 0 ts
    → HasArity m
    → HasArity (store_canonical_route route ts m).0
      × (length (store_canonical_route route ts m).1.params ≡ length (param_names ts))
store_canonical_route-HasArity route ts m w h = elim (Option-cases (value (canonical_str ts) m)) [
  | inl missing ↦ rw (store_new route ts m missing) (fresh-HasArity route ts m w h, length-map _ _)
  | inr (c, found) ↦ rw (store_old route ts m c found) (h, unfold HasArity in h ts c w found)
]

param_part_of_lt :
    (c : CanonicalRoute) (i : ℕ) → i < length c.params → (r : Text) × (param_part c i ≡ ok r)
unfolding param_part
param_part_of_lt c i h =
    let (name, found) = get_elem?_of_lt c.params i h in (brace name, rw (found, param_part))

-- The parameters of well-formed tokens are numbered below their count.
snake_route_total :
    (ts : List RouteToken) (i : ℕ) (c : CanonicalRoute)
    → IsWellFormed i ts
    → length c.params ≡ i + length (param_names ts)
    → (r : Text) × (snake_route ts c ≡ ok r)
unfolding snake_route
snake_route_total [] i c w e = ([], refl)
snake_route_total (t ∷ ts) i c (f, w) e = elim (Bool-cases t.is_param) [
  | inl p ↦
      let named : Fits true i t = subst (λ b. Fits b i t) p f in
      let index : t.param_index ≡ i = ap (λ u. u.param_index) named.0 in
      let count : length c.params ≡ i + suc (length (param_names ts)) = simp p at e in
      let later_w : IsWellFormed (i + 1) ts =
        subst (λ b. IsWellFormed (if b then i + 1 else i) ts) p w in
      let (r, later) = snake_route_total ts (i + 1) c later_w (omega arith) in
      let (part, here) = param_part_of_lt c t.param_index (omega arith) in
      (slash ∷ (part ++ r), simp (p, here, later))
  | inr v ↦
      let later_w : IsWellFormed i ts = subst (λ b. IsWellFormed (if b then i + 1 else i) ts) v w in
      let (r, later) = snake_route_total ts i c later_w (simp v at e) in
      (slash ∷ (t.value ++ r), simp (v, later))
]

-- The mappers that `buildOperation` can meet: each route is parsed before it is stored.
pub data Reach : Mapper → Type 0 where
  start : Reach []
  stored :
      {m : Mapper} (route : Text) (ts : List RouteToken)
      → Reach m
      → parse_route route ≡ ok ts
      → Reach (store_canonical_route route ts m).0

Reach-HasArity : {m : Mapper} → Reach m → HasArity m
Reach-HasArity start = HasArity-nil
Reach-HasArity (stored {m} route ts r parsed) =
    (store_canonical_route-HasArity route ts m (parse_route-IsWellFormed route parsed)
      (Reach-HasArity r)).0

-- Whatever routes were stored before, writing a parsed route with the parameter names of its
-- stored entry succeeds: no parameter's number is out of range of the entry's names.
pub snake_route-Reach :
    (m : Mapper) (route : Text) (ts : List RouteToken)
    → Reach m
    → parse_route route ≡ ok ts
    → (r : Text) × (snake_route ts (store_canonical_route route ts m).1 ≡ ok r)
snake_route-Reach m route ts r parsed =
    let w = parse_route-IsWellFormed route parsed in
    let (_, count) = store_canonical_route-HasArity route ts m w (Reach-HasArity r) in
    snake_route_total ts 0 _ w (omega arith)

snake_route-number :
    (ts : List RouteToken) (c : CanonicalRoute) → snake_route (map number ts) c ≡ snake_route ts c
unfolding snake_route
snake_route-number [] c = refl
snake_route-number (t ∷ ts) c = elim (Bool-cases t.is_param) [
  | inl p ↦ simp (p, number_param t p, snake_route-number ts c)
  | inr v ↦ simp (v, number_value t v, snake_route-number ts c)
]

-- Routes that differ only in the names of their parameters share one path of the document: the
-- second one gets the entry that the first one left, and both are written alike.
pub overlapping_routes :
    (m : Mapper) (first second : Text) (ts us : List RouteToken)
    → parse_route first ≡ ok ts
    → parse_route second ≡ ok us
    → DifferInNames ts us
    → (store_canonical_route second us (store_canonical_route first ts m).0
        ≡ store_canonical_route first ts m)
      × (snake_route us (store_canonical_route first ts m).1
          ≡ snake_route ts (store_canonical_route first ts m).1)
overlapping_routes m first second ts us p q h =
    let same : map number ts ≡ map number us =
      map-number_eq ts us 0 (parse_route-IsWellFormed first p) (parse_route-IsWellFormed second q)
        h in
    let e : canonical_str ts ≡ canonical_str us = canonical_str-number ts us same in
    let m' = (store_canonical_route first ts m).0 in
    let c = (store_canonical_route first ts m).1 in
    let entry = subst (λ k. value k m' ≡ some c) e (store_again first ts m) in
    (
      store_old second us m' c entry,
      sym (snake_route-number us c)
          ∙ ap (λ x. snake_route x c) (sym same)
          ∙ snake_route-number ts c,
    )

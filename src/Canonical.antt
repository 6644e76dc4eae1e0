-- ===== src/Canonical.antt =====
-- internal/apigw/apigw_openapi.go: `storeCanonicalRoute`, `toSnakeCase` and the route that
-- `buildOperation` writes from the stored parameter names; internal/apigw/apigw.go:
-- `canonicalRouteMapper` and `canonicalRoute`.
pub mod Numbering
pub mod Laws
pub mod Names
mod Tests
use protoc_gen_apigw.Base.Text.{slash, itoa, codes, replace_byte, Text, contains_byte}
use protoc_gen_apigw.Base.Outcome.{◌>>=◌, panic, ok, Outcome}
use protoc_gen_apigw.Base.{some, none, not, ◌++◌, [], get_elem?, if◌then◌else◌, ◌∷◌, List, ℕ}
use protoc_gen_apigw.Base.OrderedMap.{set, OrderedMap, value}
use protoc_gen_apigw.Route.{RouteToken}

pub record CanonicalRoute : Type 0 where
  pub oas_route : Text
  pub params : List Text

-- `canonicalRouteMapper`
abbrev pub Mapper : Type 0
Mapper = OrderedMap CanonicalRoute

unfoldable pub to_snake_case : Text → Text
unfolding contains_byte replace_byte
to_snake_case s = if not (contains_byte s b'.') then s else replace_byte s b'.' b'_'

-- The loop over the tokens, with `canonicalRouteStr` and `params`.
unfoldable pub canonicalize : List RouteToken → Text → List Text → Text × List Text
canonicalize [] str params = (str, params)
canonicalize (token ∷ tokens) str params =
    let param =
      canonicalize tokens (str ++ (codes "/{" ++ (itoa token.param_index ++ codes "}")))
        (params ++ to_snake_case token.param_name ∷ []) in
    let static = canonicalize tokens (str ++ (codes "/" ++ token.value)) params in
    if token.is_param then param else static

-- `storeCanonicalRoute`, with the mapper that it leaves.
unfoldable pub store_canonical_route : Text → List RouteToken → Mapper → Mapper × CanonicalRoute
store_canonical_route route tokens mapper =
    let (str, params) = canonicalize tokens [] [] in
    let canon : CanonicalRoute = record { oas_route = route; params = params } in
    elim (value str mapper) [ none ↦ (set str canon mapper, canon) | some found ↦ (mapper, found) ]

-- `{%s}` of `params[i]`; an index out of range panics.
unfoldable pub param_part : CanonicalRoute → ℕ → Outcome Text
param_part canon i = elim (get_elem? canon.params i) [
  | none ↦ panic (codes "index out of range")
  | some name ↦ ok (b'{' ∷ (name ++ b'}' ∷ []))
]

-- The loop of `buildOperation` that writes `snakeRoute`.
unfoldable pub snake_route : List RouteToken → CanonicalRoute → Outcome Text
unfolding param_part
snake_route [] canon = ok []
snake_route (p ∷ ps) canon = do
  part ← if p.is_param then param_part canon p.param_index else ok p.value
  rest ← snake_route ps canon
  ok (slash ∷ (part ++ rest))

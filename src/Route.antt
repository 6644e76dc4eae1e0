-- ===== src/Route.antt =====
-- apigw/v1/http_bridge.go: `ParseRoute` and its `RouteToken`.
pub mod Render
pub mod Laws
use protoc_gen_apigw.Base.{
  ℕ, ◌+◌, List, [], ◌∷◌, Bool, true, false, ◌&&◌, not, if◌then◌else◌, is_empty,
}
use protoc_gen_apigw.Base.Text.{
  Text, codes, slash, has_prefix, has_suffix, split, drop_last, text_eq, join,
}
use protoc_gen_apigw.Base.Outcome.{Outcome, ok, err}
use mathlib.Core.List.{tail}

pub record RouteToken : Type 0 where
  pub is_param : Bool
  pub param_name : Text
  pub param_index : ℕ
  pub value : Text

abbrev pub param_token : Text → ℕ → RouteToken
param_token name i = record { is_param = true; param_name = name; param_index = i; value = [] }

abbrev pub value_token : Text → RouteToken
value_token v = record { is_param = false; param_name = []; param_index = 0; value = v }

-- the test for a token in braces
unfoldable pub is_braced : Text → Bool
unfolding has_prefix has_suffix
is_braced token = has_prefix token (codes "{") && has_suffix token (codes "}")

-- `token[1 : len(token)-1]`
unfoldable pub unbrace : Text → Text
unfolding drop_last
unbrace token = drop_last (tail token)

-- the loop of `ParseRoute`; the number is `paramIndex`
unfoldable pub parse_tokens : List Text → ℕ → List RouteToken
unfolding is_braced unbrace
parse_tokens [] i = []
parse_tokens (token ∷ tokens) i =
    let braced = param_token (unbrace token) i ∷ parse_tokens tokens (i + 1) in
    let static = value_token token ∷ parse_tokens tokens i in
    let skipped = parse_tokens tokens i in
    if is_empty token then skipped else if is_braced token then braced else static

unfoldable pub parse_route : Text → Outcome (List RouteToken)
unfolding has_prefix
parse_route path =
    if not (has_prefix path (codes "/"))
    then err (codes "apigw_v1: invalid route: must start with '/'")
    else ok (parse_tokens (split path slash) 0)

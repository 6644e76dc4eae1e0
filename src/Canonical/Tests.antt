-- ===== src/Canonical/Tests.antt =====
-- Runs on the routes of two methods that overlap, and the theorems at these routes.
use protoc_gen_apigw.Canonical.Laws.{start, snake_route-Reach, overlapping_routes}
use protoc_gen_apigw.Route.Laws.{parse_route-render, parse_route-IsWellFormed}
use protoc_gen_apigw.Route.{param_token, value_token, RouteToken, parse_tokens, parse_route}
use protoc_gen_apigw.Base.OrderedMap.{value}
use protoc_gen_apigw.Base.{refl, ◌∷◌, [], ◌≡◌, List}
use protoc_gen_apigw.Base.Outcome.{err, ok}
use protoc_gen_apigw.Canonical.{to_snake_case, store_canonical_route, canonicalize, snake_route}
use protoc_gen_apigw.Base.Text.{split, codes, itoa, Text}
use protoc_gen_apigw.Route.Render.{render, IsWellFormed}

abbrev first_route : Text
first_route = codes "/v1/users/{user_id}/devices/{device.id}"

abbrev second_route : Text
second_route = codes "/v1/users/{id}/devices/{name}"

abbrev first_tokens : List RouteToken
first_tokens =
    value_token (codes "v1")
    ∷ value_token (codes "users")
    ∷ param_token (codes "user_id") 0
    ∷ value_token (codes "devices")
    ∷ param_token (codes "device.id") 1
    ∷ []

abbrev second_tokens : List RouteToken
second_tokens =
    value_token (codes "v1")
    ∷ value_token (codes "users")
    ∷ param_token (codes "id") 0
    ∷ value_token (codes "devices")
    ∷ param_token (codes "name") 1
    ∷ []

first_parsed : parse_route first_route ≡ ok first_tokens
unfolding parse_route parse_tokens split
first_parsed = refl

second_parsed : parse_route second_route ≡ ok second_tokens
unfolding parse_route parse_tokens split
second_parsed = refl

canonical_form : (canonicalize first_tokens [] []).0 ≡ codes "/v1/users/{0}/devices/{1}"
unfolding canonicalize itoa
canonical_form = refl

not_rooted : parse_route (codes "v1") ≡ err (codes "apigw_v1: invalid route: must start with '/'")
unfolding parse_route
not_rooted = refl

skipped_parts :
    parse_route (codes "//a//{}/") ≡ ok (value_token (codes "a") ∷ param_token [] 0 ∷ [])
unfolding parse_route parse_tokens split
skipped_parts = refl

parse_route-IsWellFormed_example : IsWellFormed 0 first_tokens
parse_route-IsWellFormed_example = parse_route-IsWellFormed first_route first_parsed

parse_route-render_example : parse_route (render first_tokens) ≡ ok first_tokens
parse_route-render_example =
    parse_route-render first_tokens (cc) (parse_route-IsWellFormed first_route first_parsed)

snake_route-Reach_example :
    (r : Text) × (snake_route first_tokens (store_canonical_route first_route first_tokens []).1
      ≡ ok r)
snake_route-Reach_example = snake_route-Reach [] first_route first_tokens start first_parsed

overlapping_routes_example :
    (store_canonical_route second_route second_tokens
        (store_canonical_route first_route first_tokens []).0
      ≡ store_canonical_route first_route first_tokens [])
    × (snake_route second_tokens (store_canonical_route first_route first_tokens []).1
        ≡ snake_route first_tokens (store_canonical_route first_route first_tokens []).1)
overlapping_routes_example =
    overlapping_routes [] first_route second_route first_tokens second_tokens first_parsed
      second_parsed
      (refl, λ _. refl, (refl, λ _. refl, (refl, λ e. cc, (refl, λ _. refl, (refl, λ e. cc, tt)))))

written :
    snake_route second_tokens (store_canonical_route first_route first_tokens []).1
    ≡ ok (codes "/v1/users/{user_id}/devices/{device_id}")
unfolding snake_route store_canonical_route canonicalize itoa to_snake_case value
written = refl

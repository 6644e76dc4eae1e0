-- ===== src/Gin/Tests.antt =====
-- The route of a method with two parameters.
use protoc_gen_apigw.Route.{parse_tokens, param_token, value_token, RouteToken, parse_route}
use protoc_gen_apigw.Gin.Laws.{convert_route-ArePlain, gin_part, ArePlain}
use protoc_gen_apigw.Base.Text.{join, slash, codes, split, Text, itoa, text_eq}
use protoc_gen_apigw.Base.{[], refl, ◌∷◌, map, ◌≡◌, List}
use protoc_gen_apigw.Base.Outcome.{ok}
use protoc_gen_apigw.Gin.{convert_route}

abbrev device_route : Text
device_route = codes "/v1/users/{user_id}/devices/{id}"

abbrev device_tokens : List RouteToken
device_tokens =
    value_token (codes "v1")
    ∷ value_token (codes "users")
    ∷ param_token (codes "user_id") 0
    ∷ value_token (codes "devices")
    ∷ param_token (codes "id") 1
    ∷ []

device_parsed : parse_route device_route ≡ ok device_tokens
unfolding parse_route split parse_tokens
device_parsed = refl

device_plain : ArePlain device_tokens
unfolding text_eq
device_plain = ((refl, refl), ((refl, refl), ((refl, refl), ((refl, refl), ((refl, refl), tt)))))

convert_route-ArePlain_example :
    convert_route device_route ≡ ok (slash ∷ join (map gin_part device_tokens) slash)
convert_route-ArePlain_example =
    convert_route-ArePlain device_route device_tokens device_parsed device_plain

gin_parts :
    map gin_part device_tokens
    ≡ codes "v1" ∷ codes "users" ∷ codes ":0" ∷ codes "devices" ∷ codes ":1" ∷ []
unfolding itoa
gin_parts = refl

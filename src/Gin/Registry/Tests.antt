-- ===== src/Gin/Registry/Tests.antt =====
-- The registration of the example's service.
use protoc_gen_apigw.Base.{some, ◌&&◌, if◌then◌else◌, [], Option, ◌∷◌, List, refl, ◌≡◌, none}
use protoc_gen_apigw.Base.Text.{
  Text, codes, itoa, text_eq, join, drop_last, has_suffix, has_prefix, split,
}
use protoc_gen_apigw.Gin.Registry.{MethodDesc, Registration, register_service}
use protoc_gen_apigw.Base.Outcome.{panic, ok}
use protoc_gen_apigw.Gin.{clean_parts, clean_rooted, route_parts, convert_route}
use protoc_gen_apigw.Route.{unbrace, is_braced, parse_tokens, parse_route}
use protoc_gen_apigw.Gin.Registry.Laws.{register_service-Registered, Registered}
use protoc_gen_apigw.Gin.Registry.Bookstore.{bookstore_methods}

-- A router that refuses a verb and a route that it has.
unfoldable refuses_again : List Registration → Registration → Option Text
unfolding text_eq
refuses_again [] r = none
refuses_again (s ∷ ss) r =
    let later = refuses_again ss r in
    if text_eq s.method r.method && text_eq s.route r.route
    then some (codes "handlers are already registered for path")
    else later

register_service-Registered_example :
    Registered refuses_again bookstore_methods none
      (register_service refuses_again bookstore_methods none)
register_service-Registered_example =
    register_service-Registered refuses_again bookstore_methods none

-- Two routes that gin cannot tell apart.
abbrev overlapping_methods : List MethodDesc
overlapping_methods =
    record { name = codes "A"; method = codes "GET"; route = codes "/a/{x}" }
    ∷ record { name = codes "B"; method = codes "GET"; route = codes "/a/{y}" }
    ∷ []

overlapping_refused :
    register_service refuses_again overlapping_methods none
    ≡ panic (codes "handlers are already registered for path")
unfolding register_service refuses_again parse_tokens split parse_route itoa
overlapping_refused = refl

-- The route of `UpdateBook` in gin.
update_book_route :
    convert_route (codes "/shelves/{book.shelf_id}/books/{book.id}")
    ≡ ok (codes "/shelves/:0/books/:1")
unfolding convert_route parse_route parse_tokens split is_braced has_prefix has_suffix unbrace
    drop_last route_parts clean_rooted clean_parts join text_eq itoa
update_book_route = refl

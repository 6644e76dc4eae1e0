-- ===== src/OpenApi/Operation/Tests.antt =====
-- Runs of `buildOperation` on the methods of a small service.
use protoc_gen_apigw.Base.OrderedMap.{value}
use protoc_gen_apigw.Base.{refl, none, [], ◌∷◌, List}
use protoc_gen_apigw.Base.Text.{drop_last, has_suffix, split, has_prefix, text_eq, codes}
use protoc_gen_apigw.Route.{
  unbrace, is_braced, parse_tokens, parse_route, param_token, value_token, RouteToken,
}
use protoc_gen_apigw.OpenApi.Samples.{
  nothing-IsTracked, output-IsOwn, input-IsOwn, no_state, put_shelf, empty_message, get_shelf,
  shelf_method, one_name, shelf_messages, operation_on,
}
use protoc_gen_apigw.OpenApi.Schema.WellKnown.{is_well_known}
use protoc_gen_apigw.OpenApi.Operation.Sound.{build_operation-Leaves}
use protoc_gen_apigw.OpenApi.Operation.Names.{build_first-IsNamed, IsNamed}
use protoc_gen_apigw.OpenApi.Operation.WellKnown.{build_first-Dangles, Dangles}
use protoc_gen_apigw.Canonical.{store_canonical_route}
use protoc_gen_apigw.OpenApi.Operation.Build.{build_first, build_operation}
use protoc_gen_apigw.OpenApi.Operation.Build.Assembled.{Leaves}
use protoc_gen_apigw.Base.Returns.{WhenOk}
use protoc_gen_apigw.Api.{Operation}
use protoc_gen_apigw.OpenApi.Schema.Ensures.{AllOk}

build_operation-Leaves_example :
    AllOk
      (Leaves shelf_messages)
      (build_operation shelf_messages (λ n. n) one_name (shelf_method put_shelf 1) none no_state)
build_operation-Leaves_example =
    build_operation-Leaves shelf_messages (λ n. n) one_name (shelf_method put_shelf 1) none no_state
      input-IsOwn output-IsOwn nothing-IsTracked

abbrev shelf_tokens : List RouteToken
shelf_tokens = value_token (codes "shelves") ∷ param_token (codes "shelf") 0 ∷ []

build_first-IsNamed_example :
    WhenOk
      (λ out.
        IsNamed shelf_messages
          (λ n. n)
          one_name
          get_shelf
          (store_canonical_route get_shelf.route shelf_tokens []).1
          shelf_tokens
          out.0)
      (build_first shelf_messages
        (λ n. n)
        one_name
        (shelf_method get_shelf 1)
        get_shelf
        none
        no_state)
build_first-IsNamed_example =
    build_first-IsNamed shelf_messages (λ n. n) one_name (shelf_method get_shelf 1) get_shelf none
      no_state shelf_tokens
      (unfold parse_route parse_tokens has_prefix split is_braced has_suffix unbrace drop_last in
        refl)

abbrev get_all : Operation
get_all = operation_on (codes "GET") (codes "/shelves")

build_first-Dangles_example :
    WhenOk
      (Dangles shelf_messages (λ n. n) one_name empty_message)
      (build_first shelf_messages (λ n. n) one_name (shelf_method get_all 3) get_all none no_state)
build_first-Dangles_example =
    build_first-Dangles shelf_messages (λ n. n) one_name empty_message (shelf_method get_all 3)
      get_all none no_state (value_token (codes "shelves") ∷ []) refl (unfold is_well_known in refl)
      (unfold text_eq in refl) refl
      (unfold parse_route parse_tokens has_prefix split is_braced has_suffix unbrace drop_last in
        refl)
      (refl, tt) (λ k sd e. unfold value in cc)

-- ===== src/Method/Context/Order.antt =====
-- `methodContext` and the order of Go's map of query parameters.
use protoc_gen_apigw.Method.Params.{Written, route_params, MethodInfo}
use protoc_gen_apigw.Route.{parse_route, RouteToken}
use protoc_gen_apigw.Method.Context.{
  route_valid, http_method_of, template_context, context_of_route, finish_method_context,
  operation_context,
}
use protoc_gen_apigw.Base.{inr, inl, is_empty, refl, Bool-cases, none, some, ◌≡◌, Option, List}
use protoc_gen_apigw.Base.Sorting.Laws.{sort_by-Perm_eq, Keyed}
use protoc_gen_apigw.Base.Outcome.{>>=-ext, ◌>>=◌, Outcome}
use mathlib.Core.List.{Perm}
use protoc_gen_apigw.Base.Sorting.{sort_by}
use protoc_gen_apigw.Method.Converter.{ParamContext, ImportTracker}
use protoc_gen_apigw.Base.Text.{Text}
use protoc_gen_apigw.Api.{Operation}
use protoc_gen_apigw.Descriptor.{Message}

module _ (registry : List Message) (method : MethodInfo) where
  -- The same operation with other query parameters.
  abbrev pub with_query : Operation → List (Text × Text) → Operation
  with_query operation query = record operation { query = query }

  finish-with_query :
      (operation : Operation) (query : List (Text × Text)) (http_method : Option Text)
      (values : Text) (rpc qpc : List ParamContext) (ix : ImportTracker)
      → finish_method_context registry method operation http_method values rpc qpc ix
        ≡ finish_method_context registry method
            (with_query operation query)
            http_method
            values
            rpc
            qpc
            ix
  unfolding finish_method_context template_context
  finish-with_query operation query none values rpc qpc ix = refl
  finish-with_query operation query (some m) values rpc qpc ix = refl

  context_of_route-with_query :
      (operation : Operation) (query : List (Text × Text)) (w : Written)
      → sort_by (λ q. q.0) operation.query ≡ sort_by (λ q. q.0) query
      → context_of_route registry method operation w
        ≡ context_of_route registry method (with_query operation query) w
  unfolding context_of_route
  context_of_route-with_query operation query (rpc, ix, offset) e = rw e (
      >>=-ext _ _ _ (λ (qpc, ix', last).
        finish-with_query operation query (http_method_of operation.method) _ rpc
          (sort_by (λ q. q.param_name) qpc) ix'))

  of_parts-with_query :
      (operation : Operation) (query : List (Text × Text)) (r : Outcome (List RouteToken))
      (ix : ImportTracker)
      → sort_by (λ q. q.0) operation.query ≡ sort_by (λ q. q.0) query
      → (r >>= λ parts.
          route_params registry method parts ix 0 >>= context_of_route registry method operation)
        ≡ (r >>= λ parts.
            route_params registry method parts ix 0
            >>= context_of_route registry method (with_query operation query))
  of_parts-with_query operation query r ix e = >>=-ext r _ _ (λ parts.
      >>=-ext (route_params registry method parts ix 0) _ _
        (λ w. context_of_route-with_query operation query w e))

  -- The context of an operation does not depend on the order in which Go iterates over its map of
  -- query parameters: for any other order of the same parameters, whose keys are distinct, the
  -- result is the same, errors and panics included.
  pub operation_context-Perm :
      (operation : Operation) (query : List (Text × Text)) (ix : ImportTracker)
      → Keyed (λ q. q.0) operation.query
      → Perm operation.query query
      → operation_context registry method operation ix
        ≡ operation_context registry method (with_query operation query) ix
  unfolding operation_context
  operation_context-Perm operation query ix keyed p =
      let sorted = sort_by-Perm_eq operation.query query p keyed in
      elim (Bool-cases (is_empty operation.route)) [
        | inl empty ↦ rw empty refl
        | inr other ↦ rw other (
            of_parts-with_query operation query
              (route_valid registry method (parse_route operation.route)) _ sorted)
      ]

-- ===== src/Agreement/Decoding.antt =====
-- What `methodContext` keeps of an operation: its parameters, and whether its request has a body.
use protoc_gen_apigw.Base.Outcome.{exhausted, panic, err, ok, Outcome}
use protoc_gen_apigw.Method.Params.{route_params, query_params, Written, MethodInfo}
use protoc_gen_apigw.Method.Context.{
  route_valid, http_method_of, MethodTemplateContext, template_context, context_of_route,
  finish_method_context, method_context, operation_context,
}
use protoc_gen_apigw.Base.Returns.{WhenOk-after, WhenOk-if, WhenOk}
use mathlib.Core.List.{Perm}
use protoc_gen_apigw.Base.{
  ◌∙◌, ap, map, refl, some-eq, [], is_empty, none, not, some, ◌∷◌, ◌≡◌, Option, List,
}
use protoc_gen_apigw.Method.Context.Laws.{param_names, method_context-HasParams, HasParams}
use protoc_gen_apigw.Base.Sorting.{sort_by}
use protoc_gen_apigw.Base.Text.{codes, text_eq, Text}
use protoc_gen_apigw.Route.{parse_route, RouteToken}
use protoc_gen_apigw.Method.Converter.{ParamContext, ImportTracker}
use protoc_gen_apigw.Api.{Operation}
use protoc_gen_apigw.Descriptor.{Message}

module _ (registry : List Message) (method : MethodInfo) where
  -- The code for the operation reads a body unless the method is GET, and has a converter for every
  -- parameter of the parsed route and every query parameter.
  abbrev pub Decodes : Operation → List RouteToken → MethodTemplateContext → Type 0
  Decodes operation parts context =
      (context.has_body ≡ not (text_eq operation.method (codes "GET")))
      × (map (λ p. p.param_name) context.route_params ≡ param_names parts)
      × Perm (map (λ p. p.param_name) context.query_params) (map (λ q. q.0) operation.query)

  abbrev HasBody : Operation → Option MethodTemplateContext × ImportTracker → Type 0
  HasBody operation out =
      (context : MethodTemplateContext) × (out.0 ≡ some context)
      × (context.has_body ≡ not (text_eq operation.method (codes "GET")))

  finish_method_context-HasBody :
      (operation : Operation) (http_method : Option Text) (values : Text)
      (rpc qpc : List ParamContext) (ix : ImportTracker)
      → WhenOk
          (HasBody operation)
          (finish_method_context registry method operation http_method values rpc qpc ix)
  unfolding finish_method_context template_context
  finish_method_context-HasBody operation none values rpc qpc ix = tt
  finish_method_context-HasBody operation (some m) values rpc qpc ix =
      (template_context registry method operation m values rpc qpc, refl, refl)

  context_of_route-HasBody :
      (operation : Operation) (w : Written)
      → WhenOk (HasBody operation) (context_of_route registry method operation w)
  unfolding context_of_route
  context_of_route-HasBody operation (rpc, ix, offset) =
      let sorted = sort_by (λ q. q.0) operation.query in
      WhenOk-after {D = Option MethodTemplateContext × ImportTracker} (HasBody operation)
        (query_params registry method sorted _ ix _) _
        (λ (qpc, ix', last).
          finish_method_context-HasBody operation (http_method_of operation.method) _ rpc _ ix')

  operation_context-HasBody :
      (operation : Operation) (ix : ImportTracker)
      → WhenOk (HasBody operation) (operation_context registry method operation ix)
  unfolding operation_context
  operation_context-HasBody operation ix =
      WhenOk-if (HasBody operation) (is_empty operation.route) _ _ (λ _. tt)
        (λ _.
          WhenOk-after {D = Option MethodTemplateContext × ImportTracker} (HasBody operation)
            (route_valid registry method (parse_route operation.route)) _
            (λ parts.
              WhenOk-after {D = Option MethodTemplateContext × ImportTracker} (HasBody operation)
                (route_params registry method parts _ 0) _
                (λ w. context_of_route-HasBody operation w)))

  abbrev pub Decoded : Operation → Option MethodTemplateContext × ImportTracker → Type 0
  Decoded operation out =
      (context : MethodTemplateContext) × (out.0 ≡ some context)
      × (parts : List RouteToken) × (parse_route operation.route ≡ ok parts)
      × Decodes operation parts context

  both :
      (operation : Operation) (out : Outcome (Option MethodTemplateContext × ImportTracker))
      → WhenOk (HasBody operation) out
      → HasParams registry method operation out
      → WhenOk (Decoded operation) out
  both operation (ok (some context, ix)) (found, e, body) ((parts, parsed, names), values) =
      let same : context ≡ found = some-eq e in
      (context, refl, parts, parsed, (ap (λ c. c.has_body) same ∙ body, names, values))
  both operation (ok (none, ix)) body h = absurd h
  both operation (err e) body h = tt
  both operation (panic e) body h = tt
  both operation exhausted body h = tt

  pub method_context-Decoded :
      (operation : Operation) (ix : ImportTracker)
      → method.operations ≡ operation ∷ []
      → WhenOk (Decoded operation) (method_context registry method ix)
  unfolding method_context
  method_context-Decoded operation ix only =
      both operation (method_context registry method ix)
        (rw only (operation_context-HasBody operation ix))
        (method_context-HasParams registry method operation ix only)

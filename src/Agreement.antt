-- ===== src/Agreement.antt =====
-- The code that internal/apigw/apigw_method.go generates for a method, against the document that
-- internal/apigw/apigw_openapi.go writes for it: both come from one operation of the method.
mod Tests
pub mod Decoding
pub mod Documenting
use mathlib.Core.List.Perm
-- Whether the document has what the generated code decodes: a parameter for each converter, in the
-- path or in the query, and a request body unless the method is HEAD.
use protoc_gen_apigw.Agreement.Decoding.{method_context-Decoded, Decoded, Decodes}
use protoc_gen_apigw.Agreement.Documenting.{
  build_operation-Documented, Documented, is_bodiless, is_some,
}
use protoc_gen_apigw.Canonical.{store_canonical_route, CanonicalRoute}
use protoc_gen_apigw.Base.{
  length-map, ap, sym, ◌∙◌, [], inr, inl, Bool-cases, refl, ◌++◌, false, ◌∷◌, true, length, map,
  some, ◌&&◌, ◌||◌, ◌≡◌, not, Bool, List, Option,
}
use protoc_gen_apigw.Base.Returns.{WhenOk-weaken, WhenOk}
use protoc_gen_apigw.Method.Context.{method_context, MethodTemplateContext}
use protoc_gen_apigw.Base.Sorting.{sort_by, sort_by-Perm}
use protoc_gen_apigw.Base.Text.{codes, text_eq, Text}
use protoc_gen_apigw.OpenApi.Operation.Build.{build_operation}
use mathlib.Core.List.{Perm}
use protoc_gen_apigw.OpenApi.Operation.Build.Names.{in_query_as, in_path_as, label, renamed}
use protoc_gen_apigw.OpenApi.Operation.Data.{BuildState, ApiMethod, BuiltOperation}
use protoc_gen_apigw.Api.{ServiceOptions, Operation}
use protoc_gen_apigw.OpenApi.Operation.Names.{IsNamed}
use protoc_gen_apigw.Method.Context.Laws.{param_names}
use protoc_gen_apigw.Method.Converter.{ImportTracker}
use protoc_gen_apigw.Route.{RouteToken}
use protoc_gen_apigw.Method.Params.{MethodInfo}
use protoc_gen_apigw.Descriptor.{Message}

abbrev pub Agrees : MethodTemplateContext → BuiltOperation → Type 0
Agrees context built =
    ((names : List Text) × (queries : List (Text × Text)) × (map label built.operation.parameters
        ≡ map in_path_as names ++ map in_query_as queries)
      × (length names ≡ length context.route_params)
      × Perm (map (λ p. p.param_name) context.query_params) (map (λ q. q.0) queries))
    × (is_some built.operation.request_body
        ≡ (context.has_body && not (text_eq built.method (codes "HEAD"))))

-- What a context and an operation come to, where both are there.
abbrev pub AgreesIf : Option MethodTemplateContext → Option BuiltOperation → Type 0
AgreesIf (some context) (some built) = Agrees context built
AgreesIf _ _ = ⊥

AgreesIf-some :
    (o : Option MethodTemplateContext) (o' : Option BuiltOperation)
    (context : MethodTemplateContext) (built : BuiltOperation)
    → o ≡ some context
    → o' ≡ some built
    → Agrees context built
    → AgreesIf o o'
AgreesIf-some o o' context built e e' h = rw (e, e') h

length-param_names-renamed :
    (canon : CanonicalRoute) (ts : List RouteToken)
    → length (param_names (map (renamed canon) ts)) ≡ length (param_names ts)
unfolding renamed
length-param_names-renamed canon [] = refl
length-param_names-renamed canon (t ∷ ts) = elim (Bool-cases t.is_param) [
  | inl param ↦ rw (param, length-param_names-renamed canon ts) refl
  | inr other ↦ rw (other, length-param_names-renamed canon ts) refl
]

has_body-and : (get head : Bool) → not (get || head) ≡ (not get && not head)
has_body-and true head = refl
has_body-and false head = refl

module _ (registry : List Message) (method : MethodInfo) (transform_name : Text → Text)
    (camel_split : Text → List Text) where
  decoded-Agrees :
      (operation : Operation) (canon : CanonicalRoute) (parts : List RouteToken)
      (context : MethodTemplateContext) (built : BuiltOperation)
      → Decodes registry method operation parts context
      → IsNamed registry transform_name camel_split operation canon parts built
      → built.method ≡ operation.method
      → is_some built.operation.request_body ≡ not (is_bodiless operation.method)
      → Agrees context built
  decoded-Agrees operation canon parts context built (body, names, values) (_, labels) same there =
      let sorted = Perm.map (λ q. q.0) (Perm.symm (sort_by-Perm (λ q. q.0) operation.query)) in
      (
        (
          param_names (map (renamed canon) parts),
          sort_by (λ q. q.0) operation.query,
          labels,
          length-param_names-renamed canon parts
              ∙ sym (ap length names)
              ∙ length-map (λ p. p.param_name) context.route_params,
          Perm.trans values (Perm.symm sorted),
        ),
        there
            ∙ rw (same, body)
                (has_body-and (text_eq operation.method (codes "GET"))
                  (text_eq operation.method (codes "HEAD"))),
      )

  -- For a method whose options have one operation: where `methodContext` returns and
  -- `buildOperation` returns, in whatever states, both give a result, and the documented operation
  -- has exactly as many path parameters as the generated code has converters for the route, in front
  -- of exactly the query parameters that the code reads; and it has a request body exactly where the
  -- code reads one and the HTTP method is not HEAD.
  pub method_context-Agrees :
      (operation : Operation) (ix : ImportTracker) (api : ApiMethod)
      (options : Option ServiceOptions) (state : BuildState)
      → method.operations ≡ operation ∷ []
      → api.operations ≡ operation ∷ []
      → WhenOk
          (λ c.
            WhenOk
              (λ b. AgreesIf c.0 b.0)
              (build_operation registry transform_name camel_split api options state))
          (method_context registry method ix)
  method_context-Agrees operation ix api options state only only_api =
      let documents = build_operation registry transform_name camel_split api options state in
      WhenOk-weaken (Decoded registry method operation)
        (λ c. WhenOk (λ b. AgreesIf c.0 b.0) documents) (method_context registry method ix)
        (λ c (context, e, parts, parsed, decodes).
          let canon = (store_canonical_route operation.route parts state.mapper).1 in
          WhenOk-weaken (Documented registry transform_name camel_split operation canon parts)
            (λ b. AgreesIf c.0 b.0) documents
            (λ b (built, e', named, same, there).
              AgreesIf-some c.0 b.0 context built e e'
                (decoded-Agrees operation canon parts context built decodes named same there))
            (build_operation-Documented registry transform_name camel_split api operation [] options
              state parts only_api parsed))
        (method_context-Decoded registry method operation ix only)

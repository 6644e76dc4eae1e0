-- ===== src/Method/Params.antt =====
-- internal/apigw/apigw_method.go: the loops of `methodContext` over the route's parts and the query
-- parameters.
use protoc_gen_apigw.Method.Converter.{
  generate_nested_field_converter, route_get_param, query_get_param, var_name, Snippet,
  ImportTracker, generate_field_converter, ParamContext,
}
use protoc_gen_apigw.Base.Text.{itoa, split, codes, Text}
use protoc_gen_apigw.Base.{
  false, true, ◌+◌, [], if◌then◌else◌, none, ◌∷◌, some, ℕ, ◌++◌, List, Option,
}
use protoc_gen_apigw.Base.Outcome.{ok, ◌>>=◌, panic, err, Outcome}
use protoc_gen_apigw.Method.FieldPath.{path2field_numbers}
use protoc_gen_apigw.Route.{RouteToken}
use protoc_gen_apigw.Api.{Operation}
use protoc_gen_apigw.Descriptor.{Field, Message}

-- What `methodContext` reads of a method, with the Go names of its service and of itself.
-- `operations` are those of the method's option, and none when it has no such option.
pub record MethodInfo : Type 0 where
  pub fully_qualified_name : Text
  pub operations : List Operation
  pub input : Message
  pub service_name : Text
  pub server_name : Text
  pub method_name : Text
  pub request_type : Text

abbrev pub of_edge : Option Field → Outcome Field
of_edge none = panic (codes "nil pointer dereference")
of_edge (some f) = ok f

-- `if err != nil { panic(err) }`
abbrev pub must {ℓ} : {A : Type ℓ} → Outcome A → Outcome A
must (err e) = panic e
must r = r

-- The imports marked and the offset of the `varNamer`, which the loops change.
abbrev pub Written : Type 0
Written = List ParamContext × ImportTracker × ℕ

module _ (registry : List Message) (method : MethodInfo) where
  -- the converter of one route parameter
  unfoldable pub route_converter :
      RouteToken
      → List ℕ
      → Option Field
      → Snippet
      → ImportTracker
      → ℕ
      → Outcome (ParamContext × ImportTracker × ℕ)
  unfolding generate_field_converter
  route_converter part (number ∷ []) edge getter ix offset = do
    f ← of_edge edge
    (fc, ix') ← must (
        generate_field_converter method.fully_qualified_name number f ix getter (var_name offset)
          (var_name (offset + 1)) part.param_name [] false)
    ok (fc, ix', offset + 2)
  route_converter part numbers edge getter ix offset = do
    (fc, ix', offset') ←
        must (generate_nested_field_converter numbers ix getter offset part.param_name)
    ok (fc, ix', offset' + 1)

  -- the body of the loop for a part that is a parameter
  unfoldable pub route_param :
      RouteToken → ImportTracker → ℕ → Outcome (ParamContext × ImportTracker × ℕ)
  unfolding path2field_numbers route_converter
  route_param part ix offset = do
    (numbers, edge) ← path2field_numbers registry (split part.param_name b'.') method.input
    let getter = route_get_param (record {
      output_name = var_name offset;
      param_name = part.param_name;
      param_index = itoa part.param_index;
      query_values_name = [];
    })
    (fc, ix', offset') ←
        route_converter part numbers edge getter (record ix { protobuf_proto_pack = true }) offset
    ok (record fc { param_name = part.param_name }, ix', offset')

  -- the loop over the parts of the route
  unfoldable pub route_params : List RouteToken → ImportTracker → ℕ → Outcome Written
  unfolding route_param
  route_params [] ix offset = ok ([], ix, offset)
  route_params (part ∷ parts) ix offset =
      let skipped = route_params parts ix offset in
      let taken = route_param part ix offset >>= λ (fc, ix', offset').
      route_params parts ix' offset' >>= λ (rest, ix'', last). ok (fc ∷ rest, ix'', last) in
      if part.is_param then taken else skipped

  abbrev pub nested_query {ℓ} : {A : Type ℓ} → Outcome A
  nested_query = err (
      codes
        "apigw: methodContext: operation.Query invalid: target is nested (unsupported right now) '"
      ++ (method.fully_qualified_name ++ codes "': %!w(<nil>)"))

  -- the converter of one query parameter
  unfoldable pub query_converter :
      Text
      → Text
      → List ℕ
      → Option Field
      → ImportTracker
      → ℕ
      → Outcome (ParamContext × ImportTracker × ℕ)
  unfolding generate_field_converter
  query_converter param values (number ∷ []) edge ix offset = do
    let getter = query_get_param (record {
      output_name = var_name offset;
      param_name = param;
      param_index = [];
      query_values_name = values;
    })
    f ← of_edge edge
    (fc, ix') ← must (
        generate_field_converter method.fully_qualified_name number f
          (record ix { protobuf_proto_pack = true }) getter (var_name offset)
          (var_name (offset + 1)) param values true)
    ok (fc, ix', offset + 2)
  query_converter param values numbers edge ix offset = nested_query

  -- the body of the loop over the query parameters
  unfoldable pub query_param :
      Text → Text → Text → ImportTracker → ℕ → Outcome (ParamContext × ImportTracker × ℕ)
  unfolding path2field_numbers query_converter
  query_param param target values ix offset = do
    (numbers, edge) ← path2field_numbers registry (target ∷ []) method.input
    (fc, ix', offset') ← query_converter param values numbers edge ix offset
    ok (record fc { param_name = param }, ix', offset')

  -- the loop over the sorted query parameters
  unfoldable pub query_params : List (Text × Text) → Text → ImportTracker → ℕ → Outcome Written
  unfolding query_param
  query_params [] values ix offset = ok ([], ix, offset)
  query_params ((param, target) ∷ params) values ix offset = do
    (fc, ix', offset') ← query_param param target values ix offset
    (rest, ix'', last) ← query_params params values ix' offset'
    ok (fc ∷ rest, ix'', last)

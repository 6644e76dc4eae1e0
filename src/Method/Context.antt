-- ===== src/Method/Context.antt =====
-- internal/apigw/apigw_method.go: `methodContext`. The names that protoc-gen-star gives to the
-- generated Go code are parameters, in a record; the error for several operations leaves out how Go
-- prints them, and reading the method's option is taken to succeed.
pub mod Laws
pub mod Order
mod Tests
use protoc_gen_apigw.Method.Params.{Written, query_params, route_params, MethodInfo}
use protoc_gen_apigw.Method.Converter.{
  generate_nested_field_converter, var_name, query_get_param, route_get_param, Snippet,
  ImportTracker, generate_field_converter, ParamContext,
}
use protoc_gen_apigw.Base.Text.{split, itoa, codes, drop_last, Text, has_suffix, text_eq}
use protoc_gen_apigw.Base.{
  false, ◌+◌, is_empty, none, true, ◌∷◌, not, some, ℕ, [], ◌++◌, Bool, if◌then◌else◌, List, Option,
}
use protoc_gen_apigw.Base.Outcome.{◌>>=◌, ok, panic, err, Outcome}
use protoc_gen_apigw.Route.{RouteToken, parse_route}
use protoc_gen_apigw.Base.Sorting.{sort_by}
use protoc_gen_apigw.Method.FieldPath.{path2field_numbers}
use protoc_gen_apigw.Api.{Operation}
use protoc_gen_apigw.Descriptor.{Field, Message}

pub record MethodTemplateContext : Type 0 where
  pub name : Text
  pub http_method : Text
  pub route : Text
  pub full_method_name : Text
  pub method_handler_name : Text
  pub decoder_handler_name : Text
  pub has_body : Bool
  pub query_values_name : Text
  pub query_params : List ParamContext
  pub route_params : List ParamContext
  pub server_name : Text
  pub request_type : Text
  pub method_name : Text

-- strings.TrimSuffix(name, "Server")
unfoldable pub trim_server : Text → Text
unfolding has_suffix drop_last
trim_server name =
    if has_suffix name (codes "Server")
    then drop_last (drop_last (drop_last (drop_last (drop_last (drop_last name)))))
    else name

unfoldable pub http_method_of : Text → Option Text
unfolding text_eq
http_method_of m =
    if text_eq m (codes "GET")
    then some (codes "http.MethodGet")
    else if text_eq m (codes "HEAD")
    then some (codes "http.MethodHead")
    else if text_eq m (codes "POST")
    then some (codes "http.MethodPost")
    else if text_eq m (codes "PUT")
    then some (codes "http.MethodPut")
    else if text_eq m (codes "PATCH")
    then some (codes "http.MethodPatch")
    else if text_eq m (codes "DELETE")
    then some (codes "http.MethodDelete")
    else none

module _ (registry : List Message) (method : MethodInfo) where
  abbrev pub handler_name : Text → Text → Text
  handler_name prefix suffix =
      prefix ++ (trim_server method.service_name ++ (codes "_" ++ (method.method_name ++ suffix)))

  unfoldable pub template_context :
      Operation → Text → Text → List ParamContext → List ParamContext → MethodTemplateContext
  unfolding trim_server text_eq
  template_context operation http_method values rpc qpc = record {
    name = method.fully_qualified_name;
    http_method = http_method;
    route = operation.route;
    full_method_name = handler_name [] (codes "_FullMethodName");
    method_handler_name = handler_name (codes "_") (codes "_APIGW_Handler");
    decoder_handler_name = handler_name (codes "_") (codes "_APIGW_Decoder");
    has_body = not (text_eq operation.method (codes "GET"));
    query_values_name = values;
    query_params = qpc;
    route_params = rpc;
    server_name = method.server_name;
    request_type = method.request_type;
    method_name = method.method_name;
  }

  -- The end of `methodContext`, from the switch over the HTTP method.
  unfoldable pub finish_method_context :
      Operation
      → Option Text
      → Text
      → List ParamContext
      → List ParamContext
      → ImportTracker
      → Outcome (Option MethodTemplateContext × ImportTracker)
  unfolding template_context
  finish_method_context operation none values rpc qpc ix = err (
      codes "apigw: methodContext: operation.Method invalid '"
      ++ (method.fully_qualified_name ++ (codes "': " ++ operation.method)))
  finish_method_context operation (some http_method) values rpc qpc ix =
      let context = template_context operation http_method values rpc qpc in
      let with_body = record ix {
        io = true;
        grpc_codes = true;
        grpc_status = true;
        protobuf_encoding_json = true;
      } in
      ok (some context, if context.has_body then with_body else ix)

  -- the error of `ParseRoute` in a longer one
  abbrev pub route_valid {ℓ} : {A : Type ℓ} → Outcome A → Outcome A
  route_valid (err e) = err (
      codes "apigw: methodContext: operation.Route invalid '"
      ++ (method.fully_qualified_name ++ (codes "': " ++ e)))
  route_valid r = r

  -- The part of `methodContext` after the loop over the route's parts.
  unfoldable pub context_of_route :
      Operation → Written → Outcome (Option MethodTemplateContext × ImportTracker)
  unfolding query_params finish_method_context http_method_of sort_by
  context_of_route operation (rpc, ix, offset) =
      let sorted = sort_by (λ q. q.0) operation.query in
      let values = if is_empty sorted then [] else var_name offset in
      let next = if is_empty sorted then offset else offset + 1 in
      query_params registry method sorted values ix next >>= λ (qpc, ix', last).
      finish_method_context operation (http_method_of operation.method) values rpc
        (sort_by (λ q. q.param_name) qpc) ix'

  -- `methodContext` of a method with one operation.
  unfoldable pub operation_context :
      Operation → ImportTracker → Outcome (Option MethodTemplateContext × ImportTracker)
  unfolding route_params context_of_route parse_route
  operation_context operation ix =
      let missing = err (
        codes "apigw: methodContext: operation.Route missing on '"
        ++ (method.fully_qualified_name ++ codes "'")) in
      let marked = record ix {
        protobuf_proto = true;
        apigw_v1 = true;
        net_http = true;
        grpc = true;
        protobuf_encoding_protowire = true;
      } in
      let present = route_valid (parse_route operation.route) >>= λ parts.
      route_params registry method parts marked 0 >>= context_of_route operation in
      if is_empty operation.route then missing else present

  abbrev of_operations :
      List Operation → ImportTracker → Outcome (Option MethodTemplateContext × ImportTracker)
  of_operations [] ix = ok (none, ix)
  of_operations (operation ∷ []) ix = operation_context operation ix
  of_operations _ ix =
      err (codes "apigw: methodContext: only single operation bindings are currently supported")

  unfoldable pub method_context :
      ImportTracker → Outcome (Option MethodTemplateContext × ImportTracker)
  unfolding operation_context
  method_context ix = of_operations method.operations ix

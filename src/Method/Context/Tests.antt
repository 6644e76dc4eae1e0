-- ===== src/Method/Context/Tests.antt =====
-- The context of a method with a route parameter and a query parameter.
use protoc_gen_apigw.Method.Params.{MethodInfo}
use protoc_gen_apigw.Base.{
  arith, length, ap, ◌≢◌, reverse, ◌++◌, map, refl, some, List, none, ◌≡◌, [], Option, false, ℕ,
  ◌∷◌,
}
use protoc_gen_apigw.Method.Context.Order.{operation_context-Perm, with_query}
use protoc_gen_apigw.Base.Sorting.Laws.{Keyed-Differing, Keyed}
use protoc_gen_apigw.Method.Context.{operation_context, MethodTemplateContext, method_context}
use protoc_gen_apigw.Base.Text.{itoa, split, codes, Text}
use protoc_gen_apigw.Method.Converter.{var_name, ImportTracker}
use protoc_gen_apigw.OpenApi.Schema.Options.{json_name}
use protoc_gen_apigw.Method.FieldPath.{matches, find_field}
use protoc_gen_apigw.Route.{parse_tokens}
use protoc_gen_apigw.Descriptor.{no_oneof, string_t, scalar_type, unknown_wkt, Field, Message}
use protoc_gen_apigw.Base.Outcome.{ok, Outcome}
use protoc_gen_apigw.Api.{stability_unspecified, Operation}
use protoc_gen_apigw.Method.Context.Laws.{method_context-HasParams, HasParams}
use mathlib.Core.List.Perm

abbrev text_param : Text → ℕ → Field
text_param n i = record {
  name = n;
  json_name = none;
  snake_name = n;
  number = i;
  type = scalar_type string_t;
  leading_comments = [];
  deprecated = false;
  message_name = codes "GetRequest";
  membership = no_oneof;
  options = [];
}

abbrev get_request : Message
get_request = record {
  name = codes "GetRequest";
  upper_camel_name = codes "GetRequest";
  fully_qualified_name = codes ".p.GetRequest";
  leading_comments = [];
  deprecated = false;
  is_well_known = false;
  well_known_type = unknown_wkt;
  fields = text_param (codes "id") 1 ∷ text_param (codes "view") 2 ∷ [];
  non_one_of_fields = text_param (codes "id") 1 ∷ text_param (codes "view") 2 ∷ [];
  synthetic_one_of_fields = [];
  real_one_ofs = [];
  options = [];
}

abbrev get_operation : Operation
get_operation = record {
  method = codes "GET";
  route = codes "/things/{id}";
  query = (codes "view", codes "view") ∷ [];
  stability = stability_unspecified;
  terraform_entity = [];
  summary = [];
  group = [];
  pagination = none;
  deprecation = none;
  group_override = [];
  name_override = [];
}

abbrev get_method : MethodInfo
get_method = record {
  fully_qualified_name = codes ".p.Things.Get";
  operations = get_operation ∷ [];
  input = get_request;
  service_name = codes "ThingsServer";
  server_name = codes "ThingsServer";
  method_name = codes "Get";
  request_type = codes "GetRequest";
}

abbrev unmarked : ImportTracker
unmarked = record {
  apigw_v1 = false;
  grpc = false;
  grpc_codes = false;
  grpc_status = false;
  io = false;
  net_http = false;
  protobuf_encoding_json = false;
  protobuf_proto = false;
  protobuf_proto_pack = false;
  protobuf_encoding_protowire = false;
  strconv = false;
  strings = false;
}

method_context-HasParams_example :
    HasParams
      (get_request ∷ [])
      get_method
      get_operation
      (method_context (get_request ∷ []) get_method unmarked)
method_context-HasParams_example =
    method_context-HasParams (get_request ∷ []) get_method get_operation unmarked refl

-- The names of the route's converters, where there is a context.
abbrev names_of : Outcome (Option MethodTemplateContext × ImportTracker) → List Text
names_of (ok (some context, ix)) =
    context.full_method_name
    ∷ map (λ p. p.converter_output_name) (context.route_params ++ context.query_params)
names_of _ = []

method_names :
    names_of (method_context (get_request ∷ []) get_method unmarked)
    ≡ codes "Things_Get_FullMethodName" ∷ codes "vn1" ∷ codes "vn4" ∷ []
unfolding method_context parse_tokens split find_field matches json_name var_name itoa
method_names = refl

abbrev two_params : List (Text × Text)
two_params = (codes "view", codes "view") ∷ (codes "by", codes "id") ∷ []

by_length : codes "by" ≢ codes "view"
by_length e =
    let lengths : length (codes "by") ≡ length (codes "view") = ap length e in absurd (omega arith)

two_params-Keyed : Keyed (λ q. q.0) two_params
two_params-Keyed =
    let texts : IsSet (Text × Text) = hlevel in
    Keyed-Differing (λ q. q.0) texts two_params ((by_length, tt), (tt, tt))

operation_context-Perm_example :
    operation_context
      (get_request ∷ [])
      get_method
      (with_query (get_request ∷ []) get_method get_operation two_params)
      unmarked
    ≡ operation_context
        (get_request ∷ [])
        get_method
        (with_query (get_request ∷ []) get_method get_operation (reverse two_params))
        unmarked
operation_context-Perm_example =
    operation_context-Perm (get_request ∷ []) get_method
      (with_query (get_request ∷ []) get_method get_operation two_params) (reverse two_params)
      unmarked two_params-Keyed (Perm.swap (codes "by", codes "id") (codes "view", codes "view") [])

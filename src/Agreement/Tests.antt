-- ===== src/Agreement/Tests.antt =====
-- The agreement for methods with the verbs PUT and HEAD.
use protoc_gen_apigw.OpenApi.Schema.Build.{add_one_ofs, add_fields, message_object, message}
use protoc_gen_apigw.OpenApi.Schema.Container.{new_schema_container}
use protoc_gen_apigw.OpenApi.Schema.WellKnown.{is_well_known}
use protoc_gen_apigw.Base.OrderedMap.{set, value}
use protoc_gen_apigw.OpenApi.Schema.Scalar.{schema_for_scalar}
use protoc_gen_apigw.OpenApi.Schema.Fields.{field_of_type, field}
use protoc_gen_apigw.OpenApi.Pagination.{get_terraform_entity_operation_pagination}
use protoc_gen_apigw.Canonical.{canonicalize, store_canonical_route, snake_route}
use protoc_gen_apigw.Route.{parse_route, parse_tokens}
use protoc_gen_apigw.OpenApi.Operation.Build.{route_parsed, build_operation}
use protoc_gen_apigw.OpenApi.Schema.Options.{json_name}
use protoc_gen_apigw.Method.FieldPath.{matches, find_field}
use protoc_gen_apigw.Base.Text.{split, codes, Text}
use protoc_gen_apigw.Agreement.Documenting.{is_some}
use protoc_gen_apigw.Agreement.{method_context-Agrees, AgreesIf}
use protoc_gen_apigw.Base.Outcome.{exhausted, panic, err, ok}
use protoc_gen_apigw.OpenApi.Samples.{
  no_state, shelf_method, message_with, one_name, shelf_messages, operation_on,
}
use protoc_gen_apigw.Base.{none, refl, true, [], some, Bool, ◌∷◌, ◌≡◌, Option, false}
use protoc_gen_apigw.Descriptor.{unknown_wkt}
use protoc_gen_apigw.Method.Params.{MethodInfo}
use protoc_gen_apigw.Method.Context.{method_context}
use protoc_gen_apigw.Base.Returns.{WhenOk}
use protoc_gen_apigw.Api.{Operation}
use protoc_gen_apigw.Method.Converter.{ImportTracker}

abbrev at_shelf : Text → Operation
at_shelf verb = operation_on verb (codes "/shelves/{shelf}")

abbrev served : Operation → MethodInfo
served operation = record {
  fully_qualified_name = codes ".p.ShelfService.Call";
  operations = operation ∷ [];
  input = message_with (codes "GetShelf") false unknown_wkt [];
  service_name = codes "ShelfServer";
  server_name = codes "ShelfServer";
  method_name = codes "Call";
  request_type = codes "GetShelf";
}

abbrev untouched : ImportTracker
untouched = record {
  apigw_v1 = false;
  grpc = false;
  grpc_codes = false;
  grpc_status = false;
  io = false;
  net_http = false;
  protobuf_encoding_json = false;
  protobuf_proto = false;
  protobuf_proto_pack = false;
  protobuf_encoding_protowire = false;
  strconv = false;
  strings = false;
}

method_context-Agrees_example :
    WhenOk
      (λ c.
        WhenOk
          (λ b. AgreesIf c.0 b.0)
          (build_operation shelf_messages
            (λ n. n)
            one_name
            (shelf_method (at_shelf (codes "PUT")) 1)
            none
            no_state))
      (method_context shelf_messages (served (at_shelf (codes "PUT"))) untouched)
method_context-Agrees_example =
    method_context-Agrees shelf_messages (served (at_shelf (codes "PUT"))) (λ n. n) one_name
      (at_shelf (codes "PUT")) untouched (shelf_method (at_shelf (codes "PUT")) 1) none no_state
      refl refl

-- Whether the generated code reads a body.
abbrev reads_body : Text → Option Bool
reads_body verb = elim (method_context shelf_messages (served (at_shelf verb)) untouched) [
  | ok (some context, ix) ↦ some context.has_body
  | ok (none, ix) ↦ none
  | err e ↦ none
  | panic e ↦ none
  | exhausted ↦ none
]

head_reads_body : reads_body (codes "HEAD") ≡ some true
unfolding method_context parse_tokens split find_field matches json_name
head_reads_body = refl

-- Whether the document has a body for the operation.
abbrev documents_body : Text → Option Bool
documents_body verb =
    elim (build_operation shelf_messages (λ n. n) one_name (shelf_method (at_shelf verb) 1) none
      no_state) [
        | ok (some built, state) ↦ some (is_some built.operation.request_body)
        | ok (none, state) ↦ none
        | err e ↦ none
        | panic e ↦ none
        | exhausted ↦ none
      ]

head_documents_no_body : documents_body (codes "HEAD") ≡ some false
unfolding build_operation parse_tokens split find_field matches json_name route_parsed parse_route
    snake_route store_canonical_route value canonicalize get_terraform_entity_operation_pagination
    field field_of_type schema_for_scalar set message is_well_known new_schema_container
    message_object add_fields add_one_ofs
head_documents_no_body = refl

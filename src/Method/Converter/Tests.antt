-- ===== src/Method/Converter/Tests.antt =====
-- Converters of concrete fields.
use protoc_gen_apigw.Method.Converter.Laws.{generate_nested_field_converter_lem, IsNested}
use protoc_gen_apigw.Method.Converter.{
  generate_nested_field_converter, query_get_param, ImportTracker, Snippet,
}
use protoc_gen_apigw.Base.{◌∷◌, [], none, false}
use protoc_gen_apigw.Descriptor.{no_oneof, uint32_t, scalar_type, Field}
use protoc_gen_apigw.Base.Text.{codes}

abbrev enum_field : Field
enum_field = record {
  name = codes "state";
  json_name = none;
  snake_name = codes "state";
  number = 7;
  type = scalar_type uint32_t;
  leading_comments = [];
  deprecated = false;
  message_name = codes "M";
  membership = no_oneof;
  options = [];
}

abbrev no_imports : ImportTracker
no_imports = record {
  apigw_v1 = false;
  grpc = false;
  grpc_codes = false;
  grpc_status = false;
  io = false;
  net_http = false;
  protobuf_encoding_json = false;
  protobuf_proto = false;
  protobuf_proto_pack = false;
  protobuf_encoding_protowire = false;
  strconv = false;
  strings = false;
}

abbrev a_getter : Snippet
a_getter = query_get_param (record {
  output_name = codes "vn1";
  param_name = codes "state";
  param_index = [];
  query_values_name = codes "vn0";
})

generate_nested_field_converter_example :
    IsNested
      (3 ∷ 2 ∷ [])
      4
      (generate_nested_field_converter (3 ∷ 2 ∷ []) no_imports a_getter 4 (codes "b.id"))
generate_nested_field_converter_example =
    generate_nested_field_converter_lem 3 (2 ∷ []) no_imports a_getter 4 (codes "b.id")

-- ===== src/Method/Converter.antt =====
-- internal/apigw/apigw_method.go: `generateFieldConverter`, `generateNestedFieldConverter` and the
-- template contexts, with `varNamer` of internal/apigw/templates.go and the marks that they leave
-- on `importTracker` of internal/apigw/apigw_imports.go. The text that a template gives is not
-- computed: a rendered template is the template's name with its context.
pub mod Laws
mod Tests
use protoc_gen_apigw.Descriptor.{
  enum_t, sint32_t, sfixed32_t, fixed32_t, int32_t, sint64_t, uint32_t, fixed64_t, sfixed64_t,
  bool_t, bytes_t, int64_t, map_type, string_t, uint64_t, proto_type, repeated_type, Field,
  FieldType, ProtoType,
}
use protoc_gen_apigw.Base.{if◌then◌else◌, false, ◌++◌, ◌∷◌, [], true, ◌+◌, Bool, List, ℕ}
use protoc_gen_apigw.Base.Outcome.{ok, err, panic, ◌>>=◌, Outcome}
use protoc_gen_apigw.OpenApi.Schema.Options.{json_name}
use protoc_gen_apigw.Base.Text.{itoa, codes, Text}

-- the marks of `importTracker` that these functions set
pub record ImportTracker : Type 0 where
  pub apigw_v1 : Bool
  pub grpc : Bool
  pub grpc_codes : Bool
  pub grpc_status : Bool
  pub io : Bool
  pub net_http : Bool
  pub protobuf_encoding_json : Bool
  pub protobuf_proto : Bool
  pub protobuf_proto_pack : Bool
  pub protobuf_encoding_protowire : Bool
  pub strconv : Bool
  pub strings : Bool

pub record RouteParseContext : Type 0 where
  pub output_name : Text
  pub param_name : Text
  pub param_index : Text
  pub query_values_name : Text

-- Rendered templates. `then_line` is the text of two templates with a line break between.
pub data Snippet : Type 0 where
  route_get_param query_get_param : RouteParseContext → Snippet
  field_int field_uint field_string :
      (field_name : Text) (getter : Snippet) (output_name input_name : Text) (tag : ℕ) → Snippet
  field_bool :
      (field_name : Text) (getter : Snippet) (output_name input_name : Text)
      (param_name query_values_name : Text) (is_query : Bool) (tag : ℕ)
      → Snippet
  protopack_accessor :
      (input_name : Text) (number : ℕ) (vn_name : Text) (value_getter : Snippet) (param_name : Text)
      → Snippet
  protopack_message : (number : ℕ) (previous_vn_name vn_name : Text) (param_name : Text) → Snippet
  then_line : Snippet → Snippet → Snippet

pub record ParamContext : Type 0 where
  pub param_name : Text
  pub converter : Snippet
  pub converter_output_name : Text

-- `varNamer.String` at an offset; `Next` adds one to the offset
unfoldable pub var_name : ℕ → Text
var_name offset = codes "vn" ++ itoa offset

unfoldable pub is_int : ProtoType → Bool
is_int int64_t = true
is_int sfixed64_t = true
is_int sint64_t = true
is_int int32_t = true
is_int sfixed32_t = true
is_int sint32_t = true
is_int enum_t = true
is_int _ = false

unfoldable pub is_uint : ProtoType → Bool
is_uint uint64_t = true
is_uint fixed64_t = true
is_uint uint32_t = true
is_uint fixed32_t = true
is_uint _ = false

abbrev pub is_string : ProtoType → Bool
is_string string_t = true
is_string _ = false

abbrev pub is_bool : ProtoType → Bool
is_bool bool_t = true
is_bool _ = false

abbrev pub is_bytes : ProtoType → Bool
is_bytes bytes_t = true
is_bytes _ = false

abbrev pub converted : Text → Snippet → ParamContext
converted output_name snippet = record {
  param_name = [];
  converter = snippet;
  converter_output_name = output_name;
}

abbrev pub invalid_target {ℓ} : {A : Type ℓ} → Text → Text → Outcome A
invalid_target what method = err (
    codes "apigw: methodContext: operation.Route invalid: target field is "
    ++ (what ++ (codes " '" ++ (method ++ codes "'"))))

-- What `generateFieldConverter` does for a field that is neither repeated nor a map; `method` is
-- the method's full name.
unfoldable pub scalar_converter :
    Text
    → ℕ
    → Field
    → ImportTracker
    → Snippet
    → Text
    → Text
    → Text
    → Text
    → Bool
    → Outcome (ParamContext × ImportTracker)
unfolding is_int is_uint
scalar_converter method tag f ix getter input output param query_values is_query =
    let t = proto_type f.type in
    let name = json_name f in
    if is_int t
    then ok (
      converted output (field_int name getter output input tag),
      record ix { strconv = true; grpc_status = true; grpc_codes = true },
    )
    else if is_uint t
    then ok
        (converted output (field_uint name getter output input tag), record ix { strconv = true })
    else if is_string t
    then ok (converted output (field_string name getter output input tag), ix)
    else if is_bool t
    then ok (
      converted output (field_bool name getter output input param query_values is_query tag),
      record ix { strconv = true; strings = true; grpc_codes = true; grpc_status = true },
    )
    else if is_bytes t
    then invalid_target (codes "bytes") method
    else invalid_target (codes "unknown") method

-- the cases `IsRepeated()` and `IsMap()` of `generateFieldConverter`, by the field's type
unfoldable pub converter_of_type :
    Text
    → FieldType
    → Outcome (ParamContext × ImportTracker)
    → Outcome (ParamContext × ImportTracker)
converter_of_type method (repeated_type e) other = invalid_target (codes "repeated") method
converter_of_type method (map_type k e) other = invalid_target (codes "map") method
converter_of_type method _ other = other

unfoldable pub generate_field_converter :
    Text
    → ℕ
    → Field
    → ImportTracker
    → Snippet
    → Text
    → Text
    → Text
    → Text
    → Bool
    → Outcome (ParamContext × ImportTracker)
unfolding converter_of_type scalar_converter
generate_field_converter method tag f ix getter input output param query_values is_query =
    converter_of_type method f.type
      (scalar_converter method tag f ix getter input output param query_values is_query)

-- `generateNestedProtoMessageOutput` from an index above 0 on, with the numbers from there; it
-- returns the offset that it leaves.
unfoldable pub nested_messages : ℕ → List ℕ → Text → ℕ → Snippet × ℕ
nested_messages number [] param offset =
    (protopack_message number (var_name offset) (var_name (offset + 1)) param, offset + 1)
nested_messages number (n ∷ ns) param offset =
    let (rest, last) = nested_messages n ns param (offset + 1) in
    (
      then_line (protopack_message number (var_name offset) (var_name (offset + 1)) param) rest,
      last,
    )

-- `generateNestedProtoMessageOutput` at index 0
unfoldable pub generate_nested_proto_message_output :
    List ℕ → Snippet → Text → ℕ → Outcome (Snippet × ℕ)
unfolding nested_messages
generate_nested_proto_message_output [] getter param offset = panic (codes "index out of range")
generate_nested_proto_message_output (number ∷ []) getter param offset =
    ok
      (protopack_accessor (var_name offset) number (var_name (offset + 1)) getter param, offset + 1)
generate_nested_proto_message_output (number ∷ n ∷ ns) getter param offset =
    let (rest, last) = nested_messages n ns param (offset + 1) in
    ok (
      then_line (protopack_accessor (var_name offset) number (var_name (offset + 1)) getter param)
          rest,
      last,
    )

unfoldable pub generate_nested_field_converter :
    List ℕ → ImportTracker → Snippet → ℕ → Text → Outcome (ParamContext × ImportTracker × ℕ)
unfolding generate_nested_proto_message_output
generate_nested_field_converter numbers ix getter offset param = do
  (snippet, last) ← generate_nested_proto_message_output numbers getter param offset
  ok (converted (var_name last) snippet, record ix { protobuf_proto_pack = true }, last)

-- ===== src/OpenApi/Schema/Scalar.antt =====
-- internal/apigw/apigw_openapi_scalar.go
use protoc_gen_apigw.Descriptor.{
  enum_t, message_t, group_t, bool_t, bytes_t, string_t, fixed32_t, uint32_t, fixed64_t, uint64_t,
  sint32_t, sfixed32_t, int32_t, sint64_t, sfixed64_t, int64_t, float_t, double_t, ProtoType,
}
use protoc_gen_apigw.Base.{[], ◌∷◌}
use protoc_gen_apigw.Base.Outcome.{panic, ok, Outcome}
use protoc_gen_apigw.Base.Text.{codes}
use protoc_gen_apigw.OpenApi.Schema.Data.{simple, typed, Schema, SchemaInfo}
use Prim.Native.String.{String}

abbrev one_type : String → SchemaInfo
one_type t = typed (codes t ∷ [])

abbrev formatted : String → String → Schema
formatted t format = simple (record (one_type t) { format = codes format })

unfoldable pub schema_for_scalar : ProtoType → Outcome Schema
schema_for_scalar double_t = ok (simple (one_type "number"))
schema_for_scalar float_t = ok (simple (one_type "number"))
schema_for_scalar int64_t = ok (formatted "string" "int64")
schema_for_scalar sfixed64_t = ok (formatted "string" "int64")
schema_for_scalar sint64_t = ok (formatted "string" "int64")
schema_for_scalar int32_t = ok (formatted "integer" "int32")
schema_for_scalar sfixed32_t = ok (formatted "integer" "int32")
schema_for_scalar sint32_t = ok (formatted "integer" "int32")
schema_for_scalar uint64_t = ok (formatted "string" "uint64")
schema_for_scalar fixed64_t = ok (formatted "string" "uint64")
schema_for_scalar uint32_t = ok (formatted "integer" "uint32")
schema_for_scalar fixed32_t = ok (formatted "integer" "uint32")
schema_for_scalar string_t = ok (simple (one_type "string"))
schema_for_scalar bytes_t = ok (formatted "string" "base64")
schema_for_scalar bool_t = ok (simple (one_type "boolean"))
schema_for_scalar group_t = panic (codes "not a scalar scalar type")
schema_for_scalar message_t = panic (codes "not a scalar scalar type")
schema_for_scalar enum_t = panic (codes "not a scalar scalar type")

-- ===== src/OpenApi/Schema/WellKnown.antt =====
-- internal/apigw/apigw_openapi_wkt.go, and the tests for well-known messages of
-- internal/apigw/apigw_openapi_schema.go.
use protoc_gen_apigw.Descriptor.{
  bytes_value_wkt, string_value_wkt, bool_value_wkt, uint32_value_wkt, int32_value_wkt,
  uint64_value_wkt, int64_value_wkt, float_value_wkt, double_value_wkt, list_value_wkt, value_wkt,
  timestamp_wkt, struct_wkt, empty_wkt, duration_wkt, any_wkt, other_wkt, unknown_wkt,
  field_mask_wkt, Message, WellKnownType,
}
use protoc_gen_apigw.Base.Outcome.{panic, ok, Outcome}
use protoc_gen_apigw.OpenApi.Schema.Data.{
  no_proxies, of_bool, no_dynamic, no_props, inline, null_type, prop, schema, simple, typed, Schema,
  SchemaInfo,
}
use protoc_gen_apigw.Base.{[], false, ◌∷◌, true, Bool, if◌then◌else◌}
use protoc_gen_apigw.Base.Text.{codes, text_eq}
use Prim.Native.String.{String}

unfoldable pub is_well_known : Message → Bool
is_well_known m =
    if m.is_well_known then true else if text_eq m.name (codes "FieldMask") then true else false

unfoldable pub well_known_type : Message → WellKnownType
well_known_type m =
    if m.is_well_known
    then m.well_known_type
    else if text_eq m.name (codes "FieldMask")
    then field_mask_wkt
    else unknown_wkt

abbrev types : String → SchemaInfo
types t = typed (codes t ∷ [])

-- A type or null, with a format.
abbrev or_null : String → String → Schema
or_null t format = simple (record (typed (codes t ∷ null_type ∷ [])) { format = codes format })

unfoldable pub schema_for_wkt : WellKnownType → Outcome Schema
schema_for_wkt any_wkt = ok (
    schema
      (record (types "object") {
        description =
            codes
              "Contains an arbitrary serialized message along with a @type that describes the type of the serialized message.";
      })
      (prop (codes "@type")
        (inline (
          simple (record (types "string") {
            description = codes "The type of the serialized message.";
          })))
        no_props)
      no_dynamic (of_bool true) no_proxies)
schema_for_wkt duration_wkt = ok (simple (record (types "string") { format = codes "duration" }))
schema_for_wkt empty_wkt = ok (or_null "object" "")
schema_for_wkt struct_wkt =
    ok (schema (types "object") no_props no_dynamic (of_bool true) no_proxies)
schema_for_wkt timestamp_wkt = ok (simple (record (types "string") { format = codes "date-time" }))
schema_for_wkt value_wkt = ok (
    simple (
      typed (
        codes "string"
        ∷ codes "number"
        ∷ codes "object"
        ∷ codes "array"
        ∷ codes "boolean"
        ∷ null_type
        ∷ [])))
schema_for_wkt list_value_wkt = ok (or_null "array" "")
schema_for_wkt double_value_wkt = ok (or_null "number" "double")
schema_for_wkt float_value_wkt = ok (or_null "number" "float")
schema_for_wkt int64_value_wkt = ok (or_null "string" "int64")
schema_for_wkt uint64_value_wkt = ok (or_null "string" "uint64")
schema_for_wkt int32_value_wkt = ok (or_null "integer" "int32")
schema_for_wkt uint32_value_wkt = ok (or_null "integer" "int64")
schema_for_wkt bool_value_wkt = ok (or_null "boolean" "")
schema_for_wkt string_value_wkt = ok (or_null "string" "")
schema_for_wkt bytes_value_wkt = ok (or_null "string" "bytes")
schema_for_wkt field_mask_wkt = ok (or_null "string" "")
schema_for_wkt unknown_wkt = panic (codes "UnknownWKT is not supported")
schema_for_wkt (other_wkt name) = panic (codes "Unknown WKT")

-- ===== src/Descriptor.antt =====
-- What the source reads of protobuf descriptors through the accessors of protoc-gen-star, which
-- is not part of this repository: each record holds the values that the accessors return. Messages
-- are named by their positions in a registry, since they may refer to one another.
use protoc_gen_apigw.Api.{FieldOption, MessageOption}
use protoc_gen_apigw.Base.{Bool, Option, List, ℕ}
use protoc_gen_apigw.Base.Text.{Text}

pub data ProtoType : Type 0 where
  double_t float_t int64_t uint64_t int32_t fixed64_t fixed32_t bool_t string_t : ProtoType
  group_t message_t bytes_t uint32_t enum_t sfixed32_t sfixed64_t sint32_t sint64_t : ProtoType

-- The names of protoc-gen-star, and `FieldMaskWKT` of internal/apigw/apigw_openapi_schema.go.
pub data WellKnownType : Type 0 where
  unknown_wkt any_wkt duration_wkt empty_wkt struct_wkt timestamp_wkt value_wkt : WellKnownType
  list_value_wkt double_value_wkt float_value_wkt int64_value_wkt uint64_value_wkt : WellKnownType
  int32_value_wkt uint32_value_wkt bool_value_wkt string_value_wkt : WellKnownType
  bytes_value_wkt field_mask_wkt : WellKnownType
  other_wkt : Text → WellKnownType

-- The names of an enum's values.
pub record EnumType : Type 0 where
  pub values : List Text

-- The element of a repeated or a map field.
pub data FieldTypeElem : Type 0 where
  scalar_elem : ProtoType → FieldTypeElem
  enum_elem : EnumType → FieldTypeElem
  embed_elem : ℕ → FieldTypeElem

-- A field's type is of exactly one of these kinds; a message stands by its position.
pub data FieldType : Type 0 where
  scalar_type : ProtoType → FieldType
  enum_type : EnumType → FieldType
  embed_type : ℕ → FieldType
  repeated_type : FieldTypeElem → FieldType
  map_type : ProtoType → FieldTypeElem → FieldType

abbrev pub elem_proto_type : FieldTypeElem → ProtoType
elem_proto_type (scalar_elem t) = t
elem_proto_type (enum_elem e) = enum_t
elem_proto_type (embed_elem m) = message_t

-- `ProtoType()`
abbrev pub proto_type : FieldType → ProtoType
proto_type (scalar_type t) = t
proto_type (enum_type e) = enum_t
proto_type (embed_type m) = message_t
proto_type (repeated_type e) = elem_proto_type e
proto_type (map_type k e) = message_t

-- Whether a field stands in a oneof, and in which; a synthetic one holds a proto3 optional field.
pub data OneOfMembership : Type 0 where
  no_oneof synthetic_oneof : OneOfMembership
  real_oneof : Text → OneOfMembership

pub record Field : Type 0 where
  pub name : Text
  pub json_name : Option Text
  pub snake_name : Text
  pub number : ℕ
  pub type : FieldType
  pub leading_comments : Text
  pub deprecated : Bool
  pub message_name : Text
  pub membership : OneOfMembership
  pub options : List FieldOption

pub record OneOf : Type 0 where
  pub name : Text
  pub fields : List Field

-- `options` is what `getMessageOptions` finds: the first of the message's options.
pub record Message : Type 0 where
  pub name : Text
  pub upper_camel_name : Text
  pub fully_qualified_name : Text
  pub leading_comments : Text
  pub deprecated : Bool
  pub is_well_known : Bool
  pub well_known_type : WellKnownType
  pub fields : List Field
  pub non_one_of_fields : List Field
  pub synthetic_one_of_fields : List Field
  pub real_one_ofs : List OneOf
  pub options : List MessageOption

-- ===== src/OpenApi/Schema/Options.antt =====
-- The readers of the field and message options in internal/apigw/apigw_openapi_schema.go, and
-- internal/apigw/annotation_bag.go.
use protoc_gen_apigw.Descriptor.{
  elem_proto_type, map_type, repeated_type, embed_type, enum_type, string_t, scalar_type, Field,
  Message, ProtoType,
}
use protoc_gen_apigw.OpenApi.Yaml.{
  seq_tag, sequence, str_tag, scalar, nodes, mapping, Extensions, Node,
}
use protoc_gen_apigw.Base.Text.{codes, Text, trim_byte}
use protoc_gen_apigw.Base.OrderedMap.{set}
use protoc_gen_apigw.Base.{
  is_empty, [], false, ◌++◌, ◌∷◌, any, none, not, true, Bool, Option, if◌then◌else◌, some, List,
}
use protoc_gen_apigw.Api.{MessageOption, stability_unspecified, FieldOption, Stability}
use protoc_gen_apigw.Validation.{Deprecation, DateError}

unfoldable pub get_message_options : Message → Option MessageOption
get_message_options m = elim m.options [ [] ↦ none | o ∷ os ↦ some o ]

unfoldable pub get_required_spec : Field → Bool
get_required_spec f = any (λ fo. fo.required_spec) f.options

unfoldable pub get_read_only_spec : Field → Bool
get_read_only_spec f = any (λ fo. fo.read_only_spec) f.options

unfoldable pub get_annotation_bag : Field → Bool
get_annotation_bag f = any (λ fo. fo.annotation_bag) f.options

abbrev is_unspecified : Stability → Bool
is_unspecified stability_unspecified = true
is_unspecified _ = false

-- the loop of `getFieldStability`
unfoldable pub first_stability : List FieldOption → Stability
first_stability [] = stability_unspecified
first_stability (fo ∷ fos) =
    if not (is_unspecified fo.stability) then fo.stability else first_stability fos

unfoldable pub get_field_stability : Field → Stability
unfolding first_stability
get_field_stability f = first_stability f.options

-- the loop of `getFieldDeprecation`
unfoldable pub first_deprecation : List FieldOption → Option Deprecation
first_deprecation [] = none
first_deprecation (fo ∷ fos) = elim fo.deprecation [
  | none ↦ first_deprecation fos
  | some deprecation ↦ some deprecation
]

unfoldable pub get_field_deprecation : Field → Option Deprecation
unfolding first_deprecation
get_field_deprecation f = first_deprecation f.options

unfoldable pub speakeasy_name_override : Message → Option MessageOption → Text
speakeasy_name_override m mopt =
    let override : Text = elim mopt [ none ↦ [] | some o ↦ o.name_override ] in
    if not (is_empty override) then override else m.upper_camel_name

unfoldable pub json_name : Field → Text
json_name f = elim f.json_name [ some name ↦ name | none ↦ f.snake_name ]

-- `nicerFQN`
unfoldable pub nicer_fqn : Text → Text
unfolding trim_byte
nicer_fqn name = trim_byte name b'.'

abbrev is_string : ProtoType → Bool
is_string string_t = true
is_string _ = false

unfoldable pub field_is_string_string_map : Field → Bool
field_is_string_string_map f = elim f.type [
  | scalar_type t ↦ false
  | enum_type e ↦ false
  | embed_type m ↦ false
  | repeated_type e ↦ false
  | map_type k e ↦ if not (is_string k) then false else is_string (elem_proto_type e)
]

unfoldable pub build_annotation_bag_extension_node : Node
build_annotation_bag_extension_node = mapping (
    nodes (
      scalar str_tag (codes "imports")
      ∷ sequence seq_tag (
          nodes (
            scalar str_tag
              (codes "github.com/conductorone/terraform-provider-conductorone/internal/annotations")
            ∷ []))
      ∷ scalar str_tag (codes "schemaDefinition")
      ∷ scalar str_tag (codes "annotations.PlanModifier()")
      ∷ []))

-- What is written to the standard error stream.
pub data Warning : Type 0 where
  invalid_field_deprecation : Text → Text → DateError → Warning
  misplaced_annotation_bag : Text → Text → Warning

unfoldable pub add_annotation_bag_extension :
    Extensions → Field → List Warning → Extensions × List Warning
add_annotation_bag_extension extensions f warnings =
    if not (get_annotation_bag f)
    then (extensions, warnings)
    else if not (field_is_string_string_map f)
    then (extensions, warnings ++ misplaced_annotation_bag (nicer_fqn f.message_name) f.name ∷ [])
    else (
      set (codes "x-speakeasy-terraform-plan-modifier") build_annotation_bag_extension_node
          extensions,
      warnings,
    )

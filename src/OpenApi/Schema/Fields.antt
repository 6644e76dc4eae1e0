-- ===== src/OpenApi/Schema/Fields.antt =====
-- internal/apigw/apigw_openapi_schema.go: `Field`, `FieldTypeElem` and `Enum`.
use protoc_gen_apigw.Descriptor.{
  FieldType, scalar_type, embed_type, enum_type, map_type, scalar_elem, synthetic_oneof, real_oneof,
  repeated_type, enum_elem, embed_elem, no_oneof, EnumType, Message, Field, FieldTypeElem,
}
use protoc_gen_apigw.OpenApi.Schema.Container.{Built, Container, MessageCall}
use protoc_gen_apigw.Base.{
  map, ◌∷◌, is_empty, none, some, ◌++◌, get_elem?, if◌then◌else◌, Bool, Option, List, [], ℕ,
}
use protoc_gen_apigw.OpenApi.Schema.Options.{
  json_name, add_annotation_bag_extension, get_field_stability, invalid_field_deprecation,
  nicer_fqn, get_field_deprecation, get_read_only_spec, Warning,
}
use protoc_gen_apigw.Base.OrderedMap.{set_all, set}
use protoc_gen_apigw.OpenApi.Schema.Data.{
  nullable_ref, admit_null, apply_nullable, update_info, no_proxies, of_proxy, no_dynamic,
  null_type, simple, inline, schema, no_props, oas_read_only, typed, SchemaInfo, SchemaProxy,
  oas_bool, oas_true,
}
use protoc_gen_apigw.OpenApi.Yaml.{Extensions, yaml_string}
use protoc_gen_apigw.OpenApi.Schema.Scalar.{schema_for_scalar}
use protoc_gen_apigw.OpenApi.Schema.WellKnown.{well_known_type, schema_for_wkt, is_well_known}
use protoc_gen_apigw.OpenApi.Extensions.{add_sunset_extension, add_stability_extension}
use protoc_gen_apigw.Base.Outcome.{panic, ok, ◌>>=◌}
use protoc_gen_apigw.Validation.{validate_deprecation_info}
use protoc_gen_apigw.Base.Text.{codes, trim_space, Text}

unfoldable pub enum_info : EnumType → SchemaInfo
unfolding yaml_string
enum_info e = record (typed (codes "string" ∷ [])) { enum = map yaml_string e.values }

abbrev pub unknown_values : Text
unknown_values = codes "x-speakeasy-unknown-values"

unfoldable pub field_type_elem : MessageCall → FieldTypeElem → Bool → Container → Built SchemaProxy
unfolding enum_info
field_type_elem call (embed_elem m) read_only c = call m read_only c
field_type_elem call (enum_elem e) read_only c =
    let info = record (enum_info e) {
      extensions = set unknown_values (yaml_string (codes "allow")) [];
    } in
    ok (inline (simple info), c)
field_type_elem call (scalar_elem t) read_only c = do s ← schema_for_scalar t; ok (inline s, c)

-- The description of a field and whether it is nullable.
unfoldable pub field_description : Field → Text
field_description f =
    let comments = trim_space f.leading_comments in
    let description =
      if is_empty comments then codes "The " ++ (json_name f ++ codes " field.") else comments in
    elim f.membership [
      | no_oneof ↦ description
      | synthetic_oneof ↦ description
      | real_oneof name ↦
          description
          ++ (codes "\nThis field is part of the `"
              ++ (name
                  ++ (codes "` oneof.\nSee the documentation for `"
                      ++ (nicer_fqn f.message_name ++ codes "` for more details."))))
    ]

unfoldable pub field_nullable : Field → Option Bool
unfolding oas_true
field_nullable f = elim f.membership [
  | no_oneof ↦ none
  | synthetic_oneof ↦ oas_true
  | real_oneof name ↦ oas_true
]

unfoldable pub field_deprecated : Field → Option Bool
unfolding oas_true oas_bool
field_deprecated f = elim (get_field_deprecation f) [
  | none ↦ oas_bool f.deprecated
  | some deprecation ↦ oas_true
]

-- The warning of a deprecation that is not valid.
unfoldable pub deprecation_warnings : Field → List Warning
deprecation_warnings f = elim (validate_deprecation_info (get_field_deprecation f)) [
  | none ↦ []
  | some e ↦ invalid_field_deprecation (nicer_fqn f.message_name) f.name e ∷ []
]

-- The extensions of a field, with the warnings of both checks.
unfoldable pub field_extensions : Field → List Warning → Extensions × List Warning
unfolding deprecation_warnings
field_extensions f warnings =
    let stability = add_stability_extension [] (get_field_stability f) in
    let sunset : Extensions = elim (get_field_deprecation f) [
      | none ↦ stability
      | some deprecation ↦ add_sunset_extension stability deprecation.sunset_date
    ] in
    add_annotation_bag_extension sunset f (warnings ++ deprecation_warnings f)

-- The part of `Field` for a field that holds the given message: a well-known one is rendered in
-- place and may be null, any other is a reference that may be null.
unfoldable pub embedded_message :
    MessageCall → Option Message → ℕ → Bool → Container → Built SchemaProxy
embedded_message call none m read_only c = panic (codes "nil pointer dereference")
embedded_message call (some embed) m read_only c =
    let known = schema_for_wkt (well_known_type embed) >>= λ s. ok (
      inline (update_info (λ i. admit_null (record i { read_only = oas_read_only read_only })) s),
      c,
    ) in
    let other = call m read_only c >>= λ (p, c'). ok (nullable_ref p, c') in
    if is_well_known embed then known else other

module _ (registry : List Message) where
  -- What `Field` sets on every schema but that of a message.
  unfoldable pub labelled : Field → SchemaInfo → SchemaInfo
  labelled f info = record info {
    description = field_description f;
    read_only = oas_read_only (get_read_only_spec f);
    deprecated = field_deprecated f;
  }

  -- The switch on the type; `extensions` is the map of the field's own extensions.
  unfoldable pub field_of_type :
      MessageCall → Field → FieldType → Extensions → Container → Built SchemaProxy
  unfolding labelled embedded_message
  field_of_type call f (repeated_type e) extensions c = do
    (p, c') ← field_type_elem call e (get_read_only_spec f) c
    let info = labelled f (typed (codes "array" ∷ null_type ∷ []))
    ok (
      inline (
          schema (record info { extensions = extensions }) no_props (of_proxy p) no_dynamic
            no_proxies),
      c',
    )
  field_of_type call f (map_type k e) extensions c = do
    (p, c') ← field_type_elem call e (get_read_only_spec f) c
    let info = apply_nullable (field_nullable f) (labelled f (typed (codes "object" ∷ [])))
    ok (
      inline (
          schema (record info { extensions = extensions }) no_props no_dynamic (of_proxy p)
            no_proxies),
      c',
    )
  field_of_type call f (enum_type e) extensions c =
      let allowed = set unknown_values (yaml_string (codes "allow")) [] in
      let info = labelled f (enum_info e) in
      let extended : SchemaInfo = record info { extensions = set_all extensions allowed } in
      ok (inline (simple (apply_nullable (field_nullable f) extended)), c)
  field_of_type call f (embed_type m) extensions c =
      embedded_message call (get_elem? registry m) m (get_read_only_spec f) c
  field_of_type call f (scalar_type t) extensions c = do
    s ← schema_for_scalar t
    ok (
      inline (
          update_info
            (λ i. record (labelled f (apply_nullable (field_nullable f) i)) {
              extensions = extensions;
            })
            s),
      c,
    )

  unfoldable pub field : MessageCall → Field → Container → Built SchemaProxy
  field call f c =
      let (extensions, warnings) = field_extensions f c.warnings in
      field_of_type call f f.type extensions (record c { warnings = warnings })

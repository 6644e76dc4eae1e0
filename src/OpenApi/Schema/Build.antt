-- ===== src/OpenApi/Schema/Build.antt =====
-- internal/apigw/apigw_openapi_schema.go: `Message`.
pub mod Parts
pub mod Closed
pub mod Fuel
pub mod Proper
mod Tests
use protoc_gen_apigw.OpenApi.Schema.Container.{ref_to, Built, Container, MessageCall}
use protoc_gen_apigw.OpenApi.Schema.Fields.{field}
use protoc_gen_apigw.Base.{
  zero, true, false, ◌||◌, map, ◌&&◌, ◌∷◌, is_empty, none, some, suc, ◌++◌, get_elem?,
  if◌then◌else◌, not, Bool, Option, List, [], ℕ,
}
use protoc_gen_apigw.OpenApi.Schema.Options.{
  json_name, add_annotation_bag_extension, get_required_spec, speakeasy_name_override,
  get_field_stability, invalid_field_deprecation, nicer_fqn, get_message_options,
  get_field_deprecation, get_read_only_spec, Warning,
}
use protoc_gen_apigw.Descriptor.{
  scalar_type, embed_type, enum_type, map_type, scalar_elem, synthetic_oneof, real_oneof,
  repeated_type, enum_elem, OneOf, embed_elem, no_oneof, EnumType, Message, Field, FieldTypeElem,
}
use protoc_gen_apigw.Base.OrderedMap.{set_all, set, value, OrderedMap}
use protoc_gen_apigw.OpenApi.Schema.Data.{
  nullable_ref, admit_null, apply_nullable, update_info, no_proxies, of_proxy, no_dynamic,
  null_type, simple, contains_text, inline, schema, set_prop, no_props, oas_read_only, typed, Props,
  Schema, SchemaInfo, ref, SchemaProxy, oas_bool, oas_true,
}
use protoc_gen_apigw.OpenApi.Yaml.{yaml_bool, Extensions, yaml_string}
use protoc_gen_apigw.OpenApi.Schema.Scalar.{schema_for_scalar}
use protoc_gen_apigw.OpenApi.Schema.WellKnown.{well_known_type, schema_for_wkt, is_well_known}
use protoc_gen_apigw.Api.{TerraformEntity}
use protoc_gen_apigw.OpenApi.Extensions.{add_sunset_extension, add_stability_extension}
use protoc_gen_apigw.Base.Outcome.{panic, ok, ◌>>=◌, exhausted, Outcome}
use protoc_gen_apigw.Validation.{validate_deprecation_info}
use protoc_gen_apigw.Base.Text.{codes, trim_space, Text}

-- Whether the filter drops a field, by its name or its JSON name.
unfoldable pub is_filtered : List Text → Field → Bool
is_filtered filter f =
    not (is_empty filter) && (contains_text f.name filter || contains_text (json_name f) filter)

-- The description that `Message` starts with.
unfoldable pub message_comments : Message → Text
message_comments m =
    let comments = trim_space m.leading_comments in
    if is_empty comments then codes "The " ++ (m.name ++ codes " message.") else comments

unfoldable pub message_extensions : Message → Bool → Extensions
message_extensions m forced =
    let mopt = get_message_options m in
    let named =
      set (codes "x-speakeasy-name-override") (yaml_string (speakeasy_name_override m mopt)) [] in
    let entity : Option TerraformEntity = elim mopt [ none ↦ none | some o ↦ o.terraform_entity ] in
    let entity_name : Text = elim entity [ none ↦ [] | some e ↦ e.name ] in
    let entity_json : Bool = elim entity [ none ↦ false | some e ↦ e.json ] in
    let with_entity =
      if not (is_empty entity_name)
      then set (codes "x-speakeasy-entity") (yaml_string entity_name) named
      else named in
    let with_include =
      if forced
      then set (codes "x-speakeasy-include") (yaml_bool true) with_entity
      else with_entity in
    if entity_json
    then set (codes "x-speakeasy-type-override") (yaml_string (codes "any")) with_include
    else with_include

-- The key of a message's schema.
unfoldable pub message_key : Message → List Text → Text
message_key m filter =
    if not (is_empty filter)
    then nicer_fqn m.fully_qualified_name ++ codes "Input"
    else nicer_fqn m.fully_qualified_name

module _ (registry : List Message) where
  -- The loops over the fields outside real oneofs, with `Properties` and `required`.
  unfoldable pub add_fields :
      MessageCall
      → List Text
      → List Field
      → Props
      → List Text
      → Container
      → Built (Props × List Text)
  unfolding is_filtered
  add_fields call filter [] props required c = ok ((props, required), c)
  add_fields call filter (f ∷ fs) props required c =
      let skipped = add_fields call filter fs props required c in
      let jn = json_name f in
      let required' = if get_required_spec f then required ++ jn ∷ [] else required in
      let added = field registry call f c >>= λ (p, c').
      add_fields call filter fs (set_prop jn p props) required' c' in
      if is_filtered filter f then skipped else added

  -- The loop over the fields of one oneof, with `Properties` and the description.
  unfoldable pub add_one_of_fields :
      MessageCall → List Field → Props → Text → Container → Built (Props × Text)
  add_one_of_fields call [] props description c = ok ((props, description), c)
  add_one_of_fields call (f ∷ fs) props description c = do
    (p, c') ← field registry call f c
    let jn = json_name f
    add_one_of_fields call fs (set_prop jn p props)
        (description ++ (codes "  - " ++ (jn ++ codes "\n"))) c'

  unfoldable pub add_one_ofs :
      MessageCall → List OneOf → Props → Text → Container → Built (Props × Text)
  unfolding add_one_of_fields
  add_one_ofs call [] props description c = ok ((props, description), c)
  add_one_ofs call (of ∷ ofs) props description c =
      let intro =
        description
        ++ (codes "\n\nThis message contains a oneof named "
            ++ (of.name
                ++ codes ". Only a single field of the following list may be set at a time:\n")) in
      add_one_of_fields call of.fields props intro c >>= λ ((props', description'), c').
      add_one_ofs call ofs props' description' c'

  -- `transformName` is built from third-party functions on names.
  module _ (transform_name : Text → Text) where
    unfoldable pub message_doc_name : Text → Message → Text
    message_doc_name title m = if not (is_empty title) then title else transform_name m.name

    -- The part of `Message` between the placeholder and the final schema: the object schema.
    unfoldable pub message_object :
        MessageCall → Message → List Text → Bool → Container → Built Schema
    unfolding message_doc_name message_comments message_extensions
    message_object call m filter forced c = do
      ((props1, required1), c1) ← add_fields call filter m.non_one_of_fields no_props [] c
      ((props2, required2), c2) ←
          add_fields call filter m.synthetic_one_of_fields props1 required1 c1
      ((props3, description), c3) ← add_one_ofs call m.real_one_ofs props2 (message_comments m) c2
      let title : Text = elim (get_message_options m) [ none ↦ [] | some o ↦ o.title ]
      let info = record (typed (codes "object" ∷ [])) {
        title = message_doc_name title m;
        description = description;
        deprecated = oas_bool m.deprecated;
        required = required2;
        extensions = message_extensions m forced;
      }
      ok (schema info props3 no_dynamic no_dynamic no_proxies, c3)

    -- `Message` of a message that is not well known, with what the schemas hold under its key:
    -- a placeholder is set first, and the schema at the end.
    unfoldable pub message_under :
        MessageCall
        → Message
        → List Text
        → Bool
        → Text
        → Option SchemaProxy
        → Container
        → Built SchemaProxy
    message_under call m filter forced fqn (some p) c = ok (ref_to fqn, c)
    message_under call m filter forced fqn none c =
        let started = record c { schemas = set fqn (ref_to fqn) c.schemas } in
        message_object call m filter forced started >>= λ (obj, c').
        ok (ref_to fqn, record c' { schemas = set fqn (inline obj) c'.schemas })

    -- `Message` of a message of the registry.
    unfoldable pub message_of :
        MessageCall → Option Message → List Text → Bool → Bool → Container → Built SchemaProxy
    unfolding message_under
    message_of call none filter read_only forced c = panic (codes "nil pointer dereference")
    message_of call (some m) filter read_only forced c =
        let known = schema_for_wkt (well_known_type m) >>= λ s.
        ok (inline (update_info (λ i. record i { read_only = oas_read_only read_only }) s), c) in
        let fqn = message_key m filter in
        let other = message_under call m filter forced fqn (value fqn c.schemas) c in
        if is_well_known m then known else other

    -- `Message`; the fuel bounds the depth of the recursion.
    unfoldable pub message : ℕ → ℕ → List Text → Bool → Bool → Container → Built SchemaProxy
    unfolding message_of
    message zero id filter read_only forced c = exhausted
    message (suc fuel) id filter read_only forced c =
        message_of (λ n r c'. message fuel n [] r false c') (get_elem? registry id) filter read_only
          forced c

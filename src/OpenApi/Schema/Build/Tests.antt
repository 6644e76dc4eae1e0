-- ===== src/OpenApi/Schema/Build/Tests.antt =====
-- Runs of `Message` on a message that refers to itself and to another one.
use protoc_gen_apigw.OpenApi.Schema.Ensures.{Resolves, Ensures}
use protoc_gen_apigw.OpenApi.Schema.Build.{
  add_one_ofs, message_key, add_fields, message_object, message,
}
use protoc_gen_apigw.OpenApi.Schema.Scalar.{schema_for_scalar}
use protoc_gen_apigw.OpenApi.Schema.Fields.{field_type_elem, field_of_type, field}
use protoc_gen_apigw.OpenApi.Schema.Options.{nicer_fqn}
use protoc_gen_apigw.Base.OrderedMap.{set, keys, value}
use protoc_gen_apigw.Base.Text.{text_eq, codes, Text}
use protoc_gen_apigw.OpenApi.Schema.WellKnown.{is_well_known}
use protoc_gen_apigw.Base.{none, refl, arith, ◌∷◌, ◌≡◌, ◌++◌, false, [], List}
use protoc_gen_apigw.Descriptor.{
  int32_t, scalar_type, embed_elem, repeated_type, unknown_wkt, embed_type, no_oneof, Field,
  FieldType, Message,
}
use protoc_gen_apigw.OpenApi.Schema.Build.Fuel.{message-IsClosed}
use protoc_gen_apigw.OpenApi.Schema.Container.{new_schema_container, Built}
use protoc_gen_apigw.Base.Outcome.{ok}
use protoc_gen_apigw.OpenApi.Schema.Closed.{IsClosed}
use protoc_gen_apigw.OpenApi.Schema.Data.{SchemaProxy}

abbrev text_field : Text → FieldType → Field
text_field n t = record {
  name = n;
  json_name = none;
  snake_name = n;
  number = 1;
  type = t;
  leading_comments = [];
  deprecated = false;
  message_name = codes "M";
  membership = no_oneof;
  options = [];
}

abbrev plain_message : Text → List Field → Message
plain_message n fs = record {
  name = n;
  upper_camel_name = n;
  fully_qualified_name = codes ".p." ++ n;
  leading_comments = [];
  deprecated = false;
  is_well_known = false;
  well_known_type = unknown_wkt;
  fields = fs;
  non_one_of_fields = fs;
  synthetic_one_of_fields = [];
  real_one_ofs = [];
  options = [];
}

abbrev two_messages : List Message
two_messages =
    plain_message (codes "Node") (
      text_field (codes "next") (embed_type 0)
      ∷ text_field (codes "leaf") (repeated_type (embed_elem 1))
      ∷ [])
    ∷ plain_message (codes "Leaf") (text_field (codes "size") (scalar_type int32_t) ∷ [])
    ∷ []

no_schemas : IsClosed []
unfolding value
no_schemas k p e = cc

message-IsClosed_example :
    Ensures IsClosed Resolves new_schema_container
      (message two_messages (λ n. n) 4 0 [] false false new_schema_container)
unfolding new_schema_container
message-IsClosed_example =
    message-IsClosed two_messages (λ n. n) 3 0 [] false false new_schema_container no_schemas
      (unfold value in omega arith)

-- The keys of the schemas that the run builds.
abbrev built_keys : Built SchemaProxy → List Text
built_keys (ok (p, c)) = keys c.schemas
built_keys _ = []

message_keys :
    built_keys (message two_messages (λ n. n) 4 0 [] false false new_schema_container)
    ≡ codes "p.Node" ∷ codes "p.Leaf" ∷ []
unfolding message is_well_known text_eq value new_schema_container message_object add_fields field
    field_of_type set message_key nicer_fqn field_type_elem schema_for_scalar add_one_ofs
message_keys = refl

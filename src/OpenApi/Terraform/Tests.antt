-- ===== src/OpenApi/Terraform/Tests.antt =====
-- Entities of the repository's example, and the theorem at them.
use protoc_gen_apigw.Base.{refl, true, ◌≤◌, [], false, ◌∷◌, ℕ, ◌≡◌, List}
use protoc_gen_apigw.Api.{
  type_unspecified, delete, resource_only, data_source_only, create, exclusion_unspecified,
  OptionalExclusion, read, TerraformEntity, MethodType,
}
use protoc_gen_apigw.OpenApi.Terraform.Laws.{collect_entities-texts, nulls, texts}
use protoc_gen_apigw.Base.Int.{pos, int_text}
use protoc_gen_apigw.OpenApi.Yaml.{null_tag, str_tag}
use mathlib.Core.List.{flat_map}
use protoc_gen_apigw.OpenApi.Terraform.Listed.{resource_text, datasource_text}
use protoc_gen_apigw.Base.Text.{codes, Text}
use protoc_gen_apigw.OpenApi.Terraform.{no_values, collect_entities}

abbrev entity : MethodType → Text → ℕ → OptionalExclusion → TerraformEntity
entity t name n x = record {
  type = t;
  name = name;
  json = false;
  operation_number = pos n;
  optional_exclusion = x;
}

abbrev entities : List TerraformEntity
entities =
    entity read (codes "App") 1 exclusion_unspecified
    ∷ entity create (codes "App") 0 data_source_only
    ∷ entity read (codes "User") 0 resource_only
    ∷ entity delete (codes "App") 0 data_source_only
    ∷ entity type_unspecified (codes "X") 0 exclusion_unspecified
    ∷ []

collected : collect_entities entities (no_values, no_values) ≡ (
  record { entries = (str_tag, codes "App#read#1") ∷ (null_tag, []) ∷ []; has_null = true },
  record {
    entries = (str_tag, codes "App#read#1") ∷ (null_tag, []) ∷ (str_tag, codes "User#read") ∷ [];
    has_null = true;
  },
)
unfolding collect_entities int_text
collected = refl

collect_entities-texts_example :
    (texts (collect_entities entities (no_values, no_values)).0.entries
      ≡ flat_map datasource_text entities)
    × (texts (collect_entities entities (no_values, no_values)).1.entries
        ≡ flat_map resource_text entities)
    × (nulls (collect_entities entities (no_values, no_values)).0.entries ≤ 1)
    × (nulls (collect_entities entities (no_values, no_values)).1.entries ≤ 1)
collect_entities-texts_example = collect_entities-texts entities

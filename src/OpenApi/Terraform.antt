-- ===== src/OpenApi/Terraform.antt =====
-- internal/apigw/apigw_openapi.go: `getTerraformEntityOperationExtension`.
pub mod Laws
pub mod Listed
mod Tests
-- A tag and a value: `[]string{tag, value}`.
use protoc_gen_apigw.Api.{
  delete, update, read, create, type_unspecified, data_source_only, other_type, resource_only,
  MethodType, Operation, OptionalExclusion, TerraformEntity,
}
use protoc_gen_apigw.Base.{
  map, is_empty, some, true, Bool, Option, false, if◌then◌else◌, none, ◌++◌, ◌∷◌, List, [],
}
use protoc_gen_apigw.OpenApi.Yaml.{
  nodes, mapping, seq_tag, sequence, scalar, str_tag, Node, null_tag, Tag,
}
use protoc_gen_apigw.Base.Int.{int_text, is_zero}
use protoc_gen_apigw.Base.Text.{codes, Text}

abbrev pub Entry : Type 0
Entry = Tag × Text

-- The values of one of the two lists, and whether the null value was added.
pub record Values : Type 0 where
  pub entries : List Entry
  pub has_null : Bool

-- The two branches that append a value: a null only once.
unfoldable pub add_entry : Tag → Text → Values → Values
add_entry null_tag v vs =
    if vs.has_null
    then vs
    else record { entries = vs.entries ++ (null_tag, v) ∷ []; has_null = true }
add_entry tag v vs = record { entries = vs.entries ++ (tag, v) ∷ []; has_null = vs.has_null }

-- The switch on the type: `requiresDatasource` and what stands behind `te.Name`, or `continue`.
unfoldable pub method_suffix : MethodType → Option (Bool × Text)
method_suffix type_unspecified = none
method_suffix create = some (false, codes "#create")
method_suffix read = some (true, codes "#read")
method_suffix update = some (false, codes "#update")
method_suffix delete = some (false, codes "#delete")
method_suffix (other_type n) = none

-- `terraformEntity` with its operation number
unfoldable pub entity_text : TerraformEntity → Text → Text
entity_text te suffix =
    let terraform_entity = te.name ++ suffix in
    if is_zero te.operation_number
    then terraform_entity
    else terraform_entity ++ (b'#' ∷ int_text te.operation_number)

-- The switch on the exclusion, for the data source and for the resource.
abbrev pub datasource_entry : OptionalExclusion → Text → Entry
datasource_entry resource_only entity = (null_tag, [])
datasource_entry _ entity = (str_tag, entity)

abbrev pub resource_entry : OptionalExclusion → Text → Entry
resource_entry data_source_only entity = (null_tag, [])
resource_entry _ entity = (str_tag, entity)

-- One round of the loop: the data source's values and the resource's.
unfoldable pub collect_entity : TerraformEntity → Values × Values → Values × Values
unfolding method_suffix entity_text add_entry
collect_entity te (datasource, resource) = elim (method_suffix te.type) [
  | none ↦ (datasource, resource)
  | some (requires_datasource, suffix) ↦
      let entity = entity_text te suffix in
      let source = datasource_entry te.optional_exclusion entity in
      let target = resource_entry te.optional_exclusion entity in
      (
        if requires_datasource then add_entry source.0 source.1 datasource else datasource,
        add_entry target.0 target.1 resource,
      )
]

abbrev no_values : Values
no_values = record { entries = []; has_null = false }

unfoldable pub collect_entities : List TerraformEntity → Values × Values → Values × Values
unfolding collect_entity
collect_entities [] values = values
collect_entities (te ∷ tes) values = collect_entities tes (collect_entity te values)

-- A key and its value: nothing, a scalar for a single value, a sequence for several.
unfoldable pub entry_nodes : Text → List Entry → List Node
entry_nodes key [] = []
entry_nodes key ((tag, v) ∷ []) = scalar str_tag key ∷ scalar tag v ∷ []
entry_nodes key (e ∷ f ∷ es) =
    scalar str_tag key
    ∷ sequence seq_tag (nodes (map (λ (x : Entry). scalar x.0 x.1) (e ∷ f ∷ es)))
    ∷ []

unfoldable pub get_terraform_entity_operation_extension : Operation → Option Node
unfolding collect_entities entry_nodes
get_terraform_entity_operation_extension operation =
    let values = collect_entities operation.terraform_entity (no_values, no_values) in
    let content =
      entry_nodes (codes "terraform-datasource") values.0.entries
      ++ entry_nodes (codes "terraform-resource") values.1.entries in
    if is_empty operation.terraform_entity
    then none
    else if is_empty content
    then none
    else some (mapping (nodes content))

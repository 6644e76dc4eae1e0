-- ===== src/OpenApi/Pagination.antt =====
-- internal/apigw/apigw_openapi.go: `getTerraformEntityOperationPagination`.
pub mod Laws
mod Tests
use protoc_gen_apigw.Base.{
  not, ◌++◌, is_empty, ◌∷◌, false, if◌then◌else◌, none, some, Option, [], true, Bool, List,
}
use protoc_gen_apigw.OpenApi.Yaml.{no_tag, sequence, nodes, str_tag, mapping, scalar, Node}
use protoc_gen_apigw.Base.Outcome.{panic, ok, Outcome}
use protoc_gen_apigw.Api.{
  pagination_unspecified, input_cursor, pagination_cursor, request_body, PaginationOutput,
  in_unspecified, input_unspecified, Operation, Pagination, PaginationInput, PaginationInputIn,
  PaginationInputType, PaginationType,
}
use protoc_gen_apigw.Base.Text.{codes, Text}

abbrev pub pagination_type : PaginationType → Text
pagination_type pagination_cursor = codes "cursor"
pagination_type _ = []

abbrev pub input_in : PaginationInputIn → Text
input_in request_body = codes "requestBody"
input_in _ = []

abbrev pub input_type : PaginationInputType → Text
input_type input_cursor = codes "cursor"
input_type _ = []

abbrev pub is_located : PaginationInput → Bool
is_located input = elim input.location [ in_unspecified ↦ false | _ ↦ true ]

abbrev pub is_typed : PaginationInput → Bool
is_typed input = elim input.type [ input_unspecified ↦ false | _ ↦ true ]

abbrev str : Text → Node
str v = scalar str_tag v

unfoldable pub input_node : PaginationInput → Node
input_node input = mapping (
    nodes (
      str (codes "name")
      ∷ str input.name
      ∷ str (codes "in")
      ∷ str (input_in input.location)
      ∷ str (codes "type")
      ∷ str (input_type input.type)
      ∷ []))

-- The loop over the inputs; `none` is its `return nil`.
unfoldable pub collect_inputs : List PaginationInput → List Node → Option (List Node)
collect_inputs [] content = some content
collect_inputs (input ∷ inputs) content =
    let skipped = collect_inputs inputs content in
    let added = collect_inputs inputs (content ++ input_node input ∷ []) in
    if not (is_located input) then skipped else if not (is_typed input) then none else added

unfoldable pub pagination_node : PaginationType → List Node → PaginationOutput → Node
pagination_node type inputs outputs = mapping (
    nodes (
      str (codes "type")
      ∷ str (pagination_type type)
      ∷ str (codes "inputs")
      ∷ sequence no_tag (nodes inputs)
      ∷ str (codes "outputs")
      ∷ mapping (nodes (str (codes "nextCursor") ∷ str outputs.next_cursor ∷ []))
      ∷ []))

abbrev pub is_unspecified : PaginationType → Bool
is_unspecified pagination_unspecified = true
is_unspecified _ = false

-- The part below the loop; the outputs are read through a pointer that may be nil.
unfoldable pub finish_pagination : Pagination → List Node → Outcome (Option Node)
finish_pagination pagination content =
    if is_empty content then ok none else elim pagination.outputs [
      | none ↦ panic (codes "nil pointer dereference")
      | some outputs ↦ ok (some (pagination_node pagination.type content outputs))
    ]

unfoldable pub get_terraform_entity_operation_pagination : Operation → Outcome (Option Node)
unfolding finish_pagination collect_inputs
get_terraform_entity_operation_pagination operation = elim operation.pagination [
  | none ↦ ok none
  | some pagination ↦
      if is_unspecified pagination.type
      then ok none
      else elim (collect_inputs pagination.inputs []) [
        | none ↦ ok none
        | some content ↦ finish_pagination pagination content
      ]
]

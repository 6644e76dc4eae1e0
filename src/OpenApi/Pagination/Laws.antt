-- ===== src/OpenApi/Pagination/Laws.antt =====
-- The pagination node against filters over the inputs.
use protoc_gen_apigw.Base.{
  refl, append_assoc, arith, append-nil, sym, ap, none, is_empty, map, not, ◌++◌, ◌||◌, [], all,
  some, if◌then◌else◌, ◌≡◌, ◌∷◌, List,
}
use protoc_gen_apigw.OpenApi.Pagination.{
  finish_pagination, pagination_node, input_node, is_typed, is_unspecified, is_located,
  collect_inputs, get_terraform_entity_operation_pagination,
}
use protoc_gen_apigw.Base.Text.{codes}
use protoc_gen_apigw.Base.Outcome.{panic, ok}
use protoc_gen_apigw.Api.{Pagination, Operation, PaginationInput}
use protoc_gen_apigw.OpenApi.Yaml.{Node}

-- The inputs that are rendered: those with a location.
abbrev pub located : List PaginationInput → List PaginationInput
located [] = []
located (input ∷ inputs) = if is_located input then input ∷ located inputs else located inputs

collect_inputs-eq :
    (inputs : List PaginationInput) (content : List Node)
    → collect_inputs inputs content ≡ (
        if all is_typed (located inputs)
        then some (content ++ map input_node (located inputs))
        else none)
unfolding collect_inputs
collect_inputs-eq [] content = ap some (sym (append-nil content))
collect_inputs-eq (input ∷ inputs) content = ground (
  arith,
  collect_inputs-eq inputs content,
  collect_inputs-eq inputs (content ++ input_node input ∷ []),
  append_assoc content (input_node input ∷ []) (map input_node (located inputs)),
)

finish_pagination-map :
    (p : Pagination) (inputs : List PaginationInput)
    → finish_pagination p (map input_node inputs) ≡ (
        if is_empty inputs then ok none else elim p.outputs [
          | none ↦ panic (codes "nil pointer dereference")
          | some outputs ↦ ok (some (pagination_node p.type (map input_node inputs) outputs))
        ])
unfolding finish_pagination
finish_pagination-map p [] = refl
finish_pagination-map p (input ∷ inputs) = refl

-- The extension of an operation with a pagination, on every branch: it is left out if the
-- pagination's type is unspecified, if some input with a location has no type, or if no input has
-- a location; otherwise it lists the inputs with a location, in order, and reading the outputs
-- panics where they are not set.
pub pagination_classified :
    (o : Operation) (p : Pagination)
    → o.pagination ≡ some p
    → get_terraform_entity_operation_pagination o ≡ (
        if (is_unspecified p.type || not (all is_typed (located p.inputs)))
          || is_empty (located p.inputs)
        then ok none
        else elim p.outputs [
          | none ↦ panic (codes "nil pointer dereference")
          | some outputs ↦
              ok (some (pagination_node p.type (map input_node (located p.inputs)) outputs))
        ])
unfolding get_terraform_entity_operation_pagination
pagination_classified o p e = rw e (
    rw (collect_inputs-eq p.inputs []) (ground (arith, finish_pagination-map p (located p.inputs))))

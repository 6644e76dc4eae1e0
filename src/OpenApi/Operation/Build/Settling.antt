-- ===== src/OpenApi/Operation/Build/Settling.antt =====
-- The parts of `buildOperation` that build no schema do not run out of fuel.
use protoc_gen_apigw.OpenApi.Pagination.{
  collect_inputs, is_unspecified, finish_pagination, get_terraform_entity_operation_pagination,
}
use protoc_gen_apigw.Base.{
  get_elem?, ℕ, if◌then◌else◌, none, [], ◌++◌, inr, inl, some, Bool-cases, Option-cases, ◌∷◌, Bool,
  List, Option,
}
use protoc_gen_apigw.OpenApi.Operation.Build.Parameters.{AllOk-if, AllOk->>=, Settles}
use protoc_gen_apigw.Base.Outcome.{ok}
use protoc_gen_apigw.Canonical.{param_part, CanonicalRoute, snake_route}
use protoc_gen_apigw.Descriptor.{Message}
use protoc_gen_apigw.Base.Text.{codes, has_prefix, Text}
use protoc_gen_apigw.Validation.{validate_deprecation_info, Deprecation}
use protoc_gen_apigw.Api.{ServiceOptions, Operation, Pagination}
use protoc_gen_apigw.OpenApi.Yaml.{Extensions, Node}
use protoc_gen_apigw.OpenApi.Operation.Data.{ApiMethod}
use protoc_gen_apigw.OpenApi.Operation.Labels.{
  operation_extensions, checked_deprecation, operation_deprecation,
}
use protoc_gen_apigw.Route.{RouteToken, parse_route}
use protoc_gen_apigw.OpenApi.Operation.Build.{route_parsed}

pub checked_deprecation-Settles :
    (prefix : Text) (d : Deprecation) → Settles (checked_deprecation prefix d)
unfolding checked_deprecation
checked_deprecation-Settles prefix d = elim (Option-cases (validate_deprecation_info (some d))) [
  | inl fine ↦ rw (fine, checked_deprecation) tt
  | inr (e, bad) ↦ rw (bad, checked_deprecation) tt
]

operation_deprecation-Settles :
    (fqn : Text) (d : Option Deprecation) (deprecated : Bool) (x : Extensions)
    → Settles (operation_deprecation fqn d deprecated x)
unfolding operation_deprecation
operation_deprecation-Settles fqn none deprecated x = tt
operation_deprecation-Settles fqn (some d) deprecated x =
    AllOk->>= {D = Bool × Extensions} (λ _. Unit {0}) (λ _. Unit {0})
      (checked_deprecation
        (codes "operation deprecation validation failed for '" ++ (fqn ++ codes "': ")) d)
      _
      (checked_deprecation-Settles
        (codes "operation deprecation validation failed for '" ++ (fqn ++ codes "': ")) d)
      (λ a _. tt)

finish_pagination-Settles :
    (p : Pagination) (content : List Node) → Settles (finish_pagination p content)
unfolding finish_pagination
finish_pagination-Settles p [] = tt
finish_pagination-Settles p (n ∷ ns) = elim (Option-cases p.outputs) [
  | inl missing ↦ rw missing tt
  | inr (outputs, there) ↦ rw there tt
]

pagination-Settles :
    (operation : Operation) → Settles (get_terraform_entity_operation_pagination operation)
unfolding get_terraform_entity_operation_pagination
pagination-Settles operation = elim (Option-cases operation.pagination) [
  | inl missing ↦ rw (missing, get_terraform_entity_operation_pagination) tt
  | inr (p, there) ↦ elim (Bool-cases (is_unspecified p.type)) [
    | inl unspecified ↦ rw (there, get_terraform_entity_operation_pagination, unspecified) tt
    | inr specified ↦ elim (Option-cases (collect_inputs p.inputs [])) [
      | inl elsewhere ↦
          rw (there, get_terraform_entity_operation_pagination, specified, elsewhere) tt
      | inr (content, found) ↦
          rw (there, get_terraform_entity_operation_pagination, specified, found)
            (finish_pagination-Settles p content)
    ]
  ]
]

module _ (camel_split : Text → List Text) (transform_name : Text → Text) where
  pub operation_extensions-Settles :
      (method : ApiMethod) (operation : Operation) (options : Option ServiceOptions)
      → Settles (operation_extensions camel_split transform_name method operation options)
  unfolding operation_extensions
  operation_extensions-Settles method operation options =
      AllOk->>= {D = Bool × Extensions} (λ _. Unit {0}) (λ _. Unit {0})
        (get_terraform_entity_operation_pagination operation) _ (pagination-Settles operation)
        (λ pagination _.
          operation_deprecation-Settles method.fully_qualified_name operation.deprecation
            method.deprecated _)

param_part-Settles : (canon : CanonicalRoute) (i : ℕ) → Settles (param_part canon i)
unfolding param_part
param_part-Settles canon i = elim (Option-cases (get_elem? canon.params i)) [
  | inl missing ↦ rw (missing, param_part) tt
  | inr (name, there) ↦ rw (there, param_part) tt
]

pub snake_route-Settles :
    (canon : CanonicalRoute) (ts : List RouteToken) → Settles (snake_route ts canon)
unfolding snake_route
snake_route-Settles canon [] = tt
snake_route-Settles canon (t ∷ ts) =
    AllOk->>= {D = Text} (λ _. Unit {0}) (λ _. Unit {0})
      (if t.is_param then param_part canon t.param_index else ok t.value) _
      (AllOk-if (λ _. Unit {0}) t.is_param (param_part canon t.param_index) (ok t.value)
        (param_part-Settles canon t.param_index) tt)
      (λ part _.
        AllOk->>= {D = Text} (λ _. Unit {0}) (λ _. Unit {0}) (snake_route ts canon) _
          (snake_route-Settles canon ts) (λ rest _. tt))

module _ (registry : List Message) (transform_name : Text → Text) where
  pub route_parsed-Settles :
      (route : Text) → Settles (route_parsed registry transform_name route (parse_route route))
  unfolding route_parsed parse_route
  route_parsed-Settles route = elim (Bool-cases (has_prefix route (codes "/"))) [
    | inl rooted ↦ rw rooted tt
    | inr other ↦ rw other tt
  ]

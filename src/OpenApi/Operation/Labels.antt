-- ===== src/OpenApi/Operation/Labels.antt =====
-- The summary, the group, the extensions and the deprecation of an operation, of `buildOperation`,
-- `operationSummary` and `getOpGroup` in internal/apigw/apigw_openapi.go. `camelcase.Split` and
-- `transformName` are third-party functions on names, and parameters here.
use protoc_gen_apigw.Validation.{
  day_out_of_range, month_out_of_range, missing_sunset_date, invalid_format, empty_date, bad_layout,
  invalid_date, validate_deprecation_info, DateError, Deprecation,
}
use protoc_gen_apigw.OpenApi.Yaml.{yaml_string, yaml_string_slice, yaml_int_slice, Extensions, Node}
use protoc_gen_apigw.OpenApi.Extensions.{
  add_sunset_extension, resolve_speakeasy_name_override, add_stability_extension,
  resolve_speakeasy_group,
}
use protoc_gen_apigw.Base.{
  true, ◌++◌, [], none, Bool, is_empty, not, some, if◌then◌else◌, ◌∷◌, List, Option,
}
use protoc_gen_apigw.OpenApi.Pagination.{get_terraform_entity_operation_pagination}
use protoc_gen_apigw.Base.Text.{remove_all, join, split, codes, Text}
use protoc_gen_apigw.OpenApi.Terraform.{get_terraform_entity_operation_extension}
use protoc_gen_apigw.Base.Outcome.{err, ◌>>=◌, ok, Outcome}
use protoc_gen_apigw.Base.OrderedMap.{set}
use protoc_gen_apigw.Api.{ServiceOptions, Operation}
use protoc_gen_apigw.OpenApi.Operation.Data.{ApiMethod}

unfoldable pub or_default : Text → Text → Text
or_default s default = if is_empty s then default else s

-- fmt.Sprintf of the error of `ValidateDeprecationInfo`
unfoldable pub date_error_text : Text → DateError → Text
date_error_text date empty_date = codes "sunset date cannot be empty"
date_error_text date invalid_format = codes "sunset date must be in YYYY-MM-DD format"
date_error_text date missing_sunset_date = codes "deprecated item must have a sunset date"
date_error_text date (invalid_date fault) =
    let cause : Text = elim fault [
      | bad_layout ↦ []
      | month_out_of_range ↦ codes ": month out of range"
      | day_out_of_range ↦ codes ": day out of range"
    ] in
    codes "sunset date must be in YYYY-MM-DD format: parsing time \""
    ++ (date ++ (codes "\"" ++ cause))

-- `if err := ValidateDeprecationInfo(...); err != nil` with the error wrapped in a prefix
unfoldable pub checked_deprecation : Text → Deprecation → Outcome (Unit {0})
unfolding date_error_text
checked_deprecation prefix deprecation = elim (validate_deprecation_info (some deprecation)) [
  | none ↦ ok tt
  | some e ↦ err (prefix ++ date_error_text deprecation.sunset_date e)
]

-- The end of `buildOperation` for the operation's deprecation, with `isDeprecated`.
unfoldable pub operation_deprecation :
    Text → Option Deprecation → Bool → Extensions → Outcome (Bool × Extensions)
unfolding checked_deprecation
operation_deprecation fqn none deprecated extensions = ok (deprecated, extensions)
operation_deprecation fqn (some deprecation) deprecated extensions = do
  _ ←
      checked_deprecation
        (codes "operation deprecation validation failed for '" ++ (fqn ++ codes "': ")) deprecation
  ok (true, add_sunset_extension extensions deprecation.sunset_date)

-- `if terraformEntity != nil`
unfoldable pub add_entity_extension : Option Node → Extensions → Extensions
add_entity_extension none extensions = extensions
add_entity_extension (some node) extensions =
    set (codes "x-speakeasy-entity-missing-codes") (yaml_int_slice (404 ∷ []))
      (set (codes "x-speakeasy-entity-operation") node extensions)

unfoldable pub add_pagination_extension : Option Node → Extensions → Extensions
add_pagination_extension none extensions = extensions
add_pagination_extension (some node) extensions =
    set (codes "x-speakeasy-pagination") node extensions

-- The last two parts of a name, if it has more than two.
unfoldable pub last_two : List Text → Option (Text × Text)
last_two (a ∷ b ∷ c ∷ []) = some (b, c)
last_two (a ∷ b ∷ c ∷ d ∷ rest) = last_two (b ∷ c ∷ d ∷ rest)
last_two _ = none

module _ (camel_split : Text → List Text) (transform_name : Text → Text) where
  unfoldable pub operation_summary : Operation → Text → Text
  operation_summary operation method_name =
      if not (is_empty operation.summary) then operation.summary else transform_name method_name

  unfoldable pub get_op_group : Text → Operation → Text
  get_op_group prefix operation =
      if not (is_empty operation.group) then operation.group else join (camel_split prefix) b' '

  -- the extensions that are set from the method's name
  unfoldable pub name_extensions :
      Option (Text × Text) → Operation → Option ServiceOptions → Extensions
  unfolding get_op_group
  name_extensions none operation service_options = []
  name_extensions (some (service, method_name)) operation service_options =
      let prefix = remove_all service (codes "Service") in
      let tags = yaml_string_slice (get_op_group prefix operation ∷ []) in
      let group = resolve_speakeasy_group prefix (some operation) service_options in
      let name = resolve_speakeasy_name_override method_name (some operation) in
      set (codes "x-speakeasy-name-override") (yaml_string name)
        (set (codes "x-speakeasy-group") (yaml_string group) (set (codes "tags") tags []))

  -- The part of `buildOperation` that makes the extensions, with `isDeprecated`.
  unfoldable pub operation_extensions :
      ApiMethod → Operation → Option ServiceOptions → Outcome (Bool × Extensions)
  unfolding name_extensions add_entity_extension add_pagination_extension operation_deprecation
      last_two
  operation_extensions method operation service_options = do
    let fqn = split method.fully_qualified_name b'.'
    let named = name_extensions (last_two fqn) operation service_options
    let with_entity =
        add_entity_extension (get_terraform_entity_operation_extension operation) named
    pagination ← get_terraform_entity_operation_pagination operation
    let with_pagination = add_pagination_extension pagination with_entity
    let with_stability = add_stability_extension with_pagination operation.stability
    operation_deprecation method.fully_qualified_name operation.deprecation method.deprecated
        with_stability

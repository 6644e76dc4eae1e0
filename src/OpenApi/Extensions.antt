-- ===== src/OpenApi/Extensions.antt =====
-- The extensions of operations and fields: stability and sunset of
-- internal/apigw/apigw_openapi.go, and the overrides that it resolves.
use protoc_gen_apigw.Api.{
  stability_unspecified, stable, beta, alpha, draft, other_stability, Operation, ServiceOptions,
  Stability,
}
use protoc_gen_apigw.OpenApi.Yaml.{yaml_string, Extensions}
use protoc_gen_apigw.Base.OrderedMap.{set}
use protoc_gen_apigw.Base.{is_empty, some, [], none, not, if◌then◌else◌, Option}
use protoc_gen_apigw.Base.Text.{codes, Text}

unfoldable pub stability_to_string : Stability → Text
stability_to_string draft = codes "draft"
stability_to_string alpha = codes "alpha"
stability_to_string beta = codes "beta"
stability_to_string stable = codes "stable"
stability_to_string stability_unspecified = []
stability_to_string (other_stability n) = []

unfoldable pub add_stability_extension : Extensions → Stability → Extensions
unfolding stability_to_string
add_stability_extension extensions stability =
    let stability_str = stability_to_string stability in
    if not (is_empty stability_str)
    then set (codes "x-stability-level") (yaml_string stability_str) extensions
    else extensions

unfoldable pub add_sunset_extension : Extensions → Text → Extensions
add_sunset_extension extensions sunset_date =
    if not (is_empty sunset_date)
    then set (codes "x-sunset") (yaml_string sunset_date) extensions
    else extensions

-- `service != nil && service.GroupOverride != ""`
abbrev service_group : Option ServiceOptions → Text
service_group none = []
service_group (some options) = elim options.service [
  | none ↦ []
  | some service ↦ service.group_override
]

unfoldable pub resolve_speakeasy_group : Text → Option Operation → Option ServiceOptions → Text
resolve_speakeasy_group default_group operation service_options =
    let operation_group : Text = elim operation [ none ↦ [] | some o ↦ o.group_override ] in
    if not (is_empty operation_group)
    then operation_group
    else if not (is_empty (service_group service_options))
    then service_group service_options
    else default_group

unfoldable pub resolve_speakeasy_name_override : Text → Option Operation → Text
resolve_speakeasy_name_override default_name operation =
    let name : Text = elim operation [ none ↦ [] | some o ↦ o.name_override ] in
    if not (is_empty name) then name else default_name

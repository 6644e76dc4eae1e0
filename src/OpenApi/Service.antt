-- ===== src/OpenApi/Service.antt =====
-- internal/apigw/apigw_openapi.go: `buildOpenAPIService` and `buildOpenAPIWithoutService`, from the
-- options of a service to a document. The constant parts of a document are not kept.
pub mod Webhooks
mod Tests
pub mod Merge
pub mod Adding
pub mod Listing
pub mod Sound
use protoc_gen_apigw.OpenApi.Extensions.{add_sunset_extension, add_stability_extension}
use protoc_gen_apigw.OpenApi.Yaml.{yaml_bool, Extensions}
use protoc_gen_apigw.Base.{true, ◌∷◌, none, ◌++◌, [], if◌then◌else◌, some, Bool, List, Option}
use protoc_gen_apigw.Base.Outcome.{◌>>=◌, err, ok, Outcome}
use protoc_gen_apigw.Base.OrderedMap.{set}
use protoc_gen_apigw.OpenApi.Operation.Data.{BuildState, ApiMethod, ApiOperation, BuiltOperation}
use protoc_gen_apigw.Base.Text.{codes, Text}
use protoc_gen_apigw.OpenApi.Operation.Build.{build_operation}
use protoc_gen_apigw.Canonical.{Mapper}
use protoc_gen_apigw.Api.{Service, ServiceOptions}
use protoc_gen_apigw.Descriptor.{Message}
use protoc_gen_apigw.Validation.{Deprecation}
use protoc_gen_apigw.OpenApi.Schema.Options.{nicer_fqn}
use protoc_gen_apigw.OpenApi.Operation.Labels.{checked_deprecation}
use protoc_gen_apigw.OpenApi.Document.{Document, add_operation}

-- A service with the methods of a file, as `buildOpenAPIService` reads it.
pub record ApiService : Type 0 where
  pub fully_qualified_name : Text
  pub deprecated : Bool
  pub options : Option ServiceOptions
  pub methods : List ApiMethod

-- `dm_base.Info` and the description of the server
pub record Info : Type 0 where
  pub title : Text
  pub description : Text
  pub server : Text
  pub extensions : Extensions

pub record ServiceDocument : Type 0 where
  pub info : Info
  pub document : Document ApiOperation

abbrev pub empty_document : Document ApiOperation
empty_document = record { path_items = []; schemas = [] }

-- the flag "deprecated"
unfoldable pub add_deprecated_flag : Bool → Extensions → Extensions
add_deprecated_flag deprecated extensions =
    if deprecated then set (codes "deprecated") (yaml_bool true) extensions else extensions

-- The sunset date of a service's deprecation, if it has one; `isServiceDeprecated` with it.
unfoldable pub service_deprecation :
    Text → Option Deprecation → Bool → Extensions → Outcome (Bool × Extensions)
unfolding checked_deprecation
service_deprecation fqn none deprecated extensions = ok (deprecated, extensions)
service_deprecation fqn (some deprecation) deprecated extensions = do
  _ ←
      checked_deprecation
        (codes "service deprecation validation failed for '" ++ (fqn ++ codes "': ")) deprecation
  ok (true, add_sunset_extension extensions deprecation.sunset_date)

-- The extensions of a service, for `sext.Service`.
unfoldable pub extensions_of : Text → Bool → Option Service → Outcome Extensions
unfolding service_deprecation add_deprecated_flag
extensions_of fqn deprecated none = ok []
extensions_of fqn deprecated (some service) = do
  let stable_extensions = add_stability_extension [] service.stability
  (flag, extensions) ← service_deprecation fqn service.deprecation deprecated stable_extensions
  ok (add_deprecated_flag flag extensions)

unfoldable pub service_of : Option ServiceOptions → Option Service
service_of none = none
service_of (some options) = options.service

unfoldable pub service_info : Text → Extensions → Info
unfolding nicer_fqn
service_info full_name extensions =
    let fqn = nicer_fqn full_name in
    record {
      title = codes "API For " ++ fqn;
      description = codes "This is an auto-generated API for " ++ (fqn ++ codes ".\n");
      server = codes "The server for " ++ (fqn ++ codes ".");
      extensions = extensions;
    }

-- the error of `buildOperation`, wrapped
unfoldable pub operation_failed {ℓ} : {A : Type ℓ} → Text → Outcome A → Outcome A
operation_failed fqn (err e) =
    err (codes "opeapi.buildOperation failed for '" ++ (fqn ++ codes "': " ++ e))
operation_failed fqn r = r

-- `if route == nil { continue }`, and `addOperation`
unfoldable pub add_built :
    Option BuiltOperation → Document ApiOperation → Outcome (Document ApiOperation)
unfolding add_operation
add_built none doc = ok doc
add_built (some built) doc =
    add_operation built.route built.method built.operation built.schemas doc

module _ (registry : List Message) (transform_name : Text → Text)
    (camel_split : Text → List Text) where
  -- the loop over the methods
  unfoldable pub build_methods :
      List ApiMethod
      → Option ServiceOptions
      → BuildState
      → Document ApiOperation
      → Outcome (Document ApiOperation × BuildState)
  unfolding build_operation operation_failed add_built
  build_methods [] options state doc = ok (doc, state)
  build_methods (m ∷ ms) options state doc = do
    (built, state') ←
        operation_failed m.fully_qualified_name
          (build_operation registry transform_name camel_split m options state)
    doc' ← add_built built doc
    build_methods ms options state' doc'

  -- `buildOpenAPIService`; the mapper of canonical routes is the module's, the tracker is new
  unfoldable pub build_open_api_service : ApiService → Mapper → Outcome (ServiceDocument × Mapper)
  unfolding extensions_of service_info build_methods service_of
  build_open_api_service service mapper = do
    extensions ←
        extensions_of service.fully_qualified_name service.deprecated (service_of service.options)
    (doc, state) ←
        build_methods service.methods service.options (record { mapper = mapper; tracker = [] })
          empty_document
    ok (
      record { info = service_info service.fully_qualified_name extensions; document = doc },
      state.mapper,
    )

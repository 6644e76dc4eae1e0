-- ===== src/OpenApi/Service/Sound.antt =====
-- The references of a service's document resolve in the document.
use protoc_gen_apigw.OpenApi.Service.Adding.{IsSoundDocument, add_built-Sound}
use protoc_gen_apigw.Base.{◌++◌, [], ◌∷◌, none, All, Bool, some, ◌≡◌, List, Option}
use protoc_gen_apigw.OpenApi.Operation.Build.Settling.{checked_deprecation-Settles}
use protoc_gen_apigw.OpenApi.Service.{
  service_of, ServiceDocument, empty_document, ApiService, build_methods, build_open_api_service,
  extensions_of, service_deprecation, add_built, operation_failed,
}
use protoc_gen_apigw.OpenApi.Operation.Labels.{checked_deprecation}
use protoc_gen_apigw.OpenApi.Operation.Sound.{build_operation-Leaves}
use protoc_gen_apigw.OpenApi.Operation.Build.{build_operation}
use protoc_gen_apigw.OpenApi.Document.{
  head_verb, patch_verb, delete_verb, item_at, put_verb, post_verb, get_verb, Document, Verb,
}
use protoc_gen_apigw.Base.Outcome.{exhausted, panic, err, ok, Outcome}
use protoc_gen_apigw.Base.Text.{codes, Text}
use protoc_gen_apigw.OpenApi.Extensions.{add_stability_extension}
use protoc_gen_apigw.OpenApi.Operation.Build.Parameters.{AllOk->>=, Settles}
use protoc_gen_apigw.OpenApi.Document.Laws.{operation_at}
use protoc_gen_apigw.Base.OrderedMap.{value}
use protoc_gen_apigw.Api.{Service, ServiceOptions}
use protoc_gen_apigw.Canonical.{Mapper}
use protoc_gen_apigw.OpenApi.Operation.Build.Messages.{IsTracked}
use protoc_gen_apigw.OpenApi.Operation.Build.Closed.{IsOwn}
use protoc_gen_apigw.OpenApi.Yaml.{Extensions}
use protoc_gen_apigw.Validation.{Deprecation}
use protoc_gen_apigw.OpenApi.Operation.Build.Assembled.{Leaves}
use protoc_gen_apigw.OpenApi.Operation.Data.{ApiMethod, BuildState, BuiltOperation, ApiOperation}
use protoc_gen_apigw.OpenApi.Schema.Ensures.{AllOk}
use protoc_gen_apigw.Descriptor.{Message}

operation_failed-AllOk :
    {A : Type 0} (P : A → Type 0) (fqn : Text) (m : Outcome A)
    → AllOk P m
    → AllOk P (operation_failed fqn m)
unfolding operation_failed
operation_failed-AllOk P fqn (ok a) h = h
operation_failed-AllOk P fqn (err e) h = tt
operation_failed-AllOk P fqn (panic e) h = tt
operation_failed-AllOk P fqn exhausted h = h

module _ (registry : List Message) (transform_name : Text → Text)
    (camel_split : Text → List Text) where
  -- No message that the methods name is well known.
  abbrev pub AreOwn : List ApiMethod → Type 0
  AreOwn ms = All (λ m. IsOwn registry m.input × IsOwn registry m.output) ms

  add_left :
      (built : Option BuiltOperation) (state : BuildState) (doc : Document ApiOperation)
      → Leaves registry (built, state)
      → IsSoundDocument doc
      → IsTracked registry state.tracker × AllOk IsSoundDocument (add_built built doc)
  add_left none state doc tracked sound = (tracked, unfold add_built in sound)
  add_left (some built) state doc (tracked, own) sound =
      (tracked, add_built-Sound built doc own sound)

  build_methods-Sound :
      (ms : List ApiMethod) (options : Option ServiceOptions) (state : BuildState)
      (doc : Document ApiOperation)
      → AreOwn ms
      → IsTracked registry state.tracker
      → IsSoundDocument doc
      → AllOk
          (λ out. IsSoundDocument out.0)
          (build_methods registry transform_name camel_split ms options state doc)
  unfolding build_methods
  build_methods-Sound [] options state doc own tracked sound = sound
  build_methods-Sound (m ∷ ms) options state doc ((own_in, own_out), own) tracked sound =
      AllOk->>= {D = Document ApiOperation × BuildState} (Leaves registry) _
        (operation_failed m.fully_qualified_name
          (build_operation registry transform_name camel_split m options state))
        _
        (operation_failed-AllOk (Leaves registry) m.fully_qualified_name
          (build_operation registry transform_name camel_split m options state)
          (build_operation-Leaves registry transform_name camel_split m options state own_in own_out
            tracked))
        (λ (built, state') left.
          let (tracked', added) = add_left built state' doc left sound in
          AllOk->>= {D = Document ApiOperation × BuildState} IsSoundDocument _ (add_built built doc)
            _ added (λ doc' sound'. build_methods-Sound ms options state' doc' own tracked' sound'))

  service_deprecation-Settles :
      (fqn : Text) (d : Option Deprecation) (deprecated : Bool) (x : Extensions)
      → Settles (service_deprecation fqn d deprecated x)
  unfolding service_deprecation
  service_deprecation-Settles fqn none deprecated x = tt
  service_deprecation-Settles fqn (some d) deprecated x =
      let prefix = codes "service deprecation validation failed for '" ++ (fqn ++ codes "': ") in
      AllOk->>= {D = Bool × Extensions} (λ _. Unit {0}) (λ _. Unit {0})
        (checked_deprecation prefix d) _ (checked_deprecation-Settles prefix d) (λ a _. tt)

  extensions_of-Settles :
      (fqn : Text) (deprecated : Bool) (service : Option Service)
      → Settles (extensions_of fqn deprecated service)
  unfolding extensions_of
  extensions_of-Settles fqn deprecated none = tt
  extensions_of-Settles fqn deprecated (some service) =
      let x = add_stability_extension [] service.stability in
      AllOk->>= {D = Extensions} (λ _. Unit {0}) (λ _. Unit {0})
        (service_deprecation fqn service.deprecation deprecated x) _
        (service_deprecation-Settles fqn service.deprecation deprecated x) (λ a _. tt)

  no_operation :
      (r : Text) (v : Verb) (op : ApiOperation) → ¬ (operation_at r v empty_document ≡ some op)
  unfolding value operation_at item_at
  no_operation r get_verb op e = cc
  no_operation r post_verb op e = cc
  no_operation r put_verb op e = cc
  no_operation r delete_verb op e = cc
  no_operation r patch_verb op e = cc
  no_operation r head_verb op e = cc

  empty_document-Sound : IsSoundDocument empty_document
  unfolding value operation_at item_at
  empty_document-Sound = (((λ k p e. cc), tt), λ r v op e. absurd (no_operation r v op e))

  -- `buildOpenAPIService` of a service whose methods name no well-known message does not run out of
  -- fuel, and where it returns a document, every reference of each of its operations and of its
  -- schemas resolves in the document's schemas.
  pub build_open_api_service-Sound :
      (service : ApiService) (mapper : Mapper)
      → AreOwn service.methods
      → AllOk
          (λ out. IsSoundDocument out.0.document)
          (build_open_api_service registry transform_name camel_split service mapper)
  unfolding build_open_api_service value
  build_open_api_service-Sound service mapper own =
      let start : BuildState = record { mapper = mapper; tracker = [] } in
      AllOk->>= {D = ServiceDocument × Mapper} (λ _. Unit {0}) _
        (extensions_of service.fully_qualified_name service.deprecated (service_of service.options))
        _
        (extensions_of-Settles service.fully_qualified_name service.deprecated
          (service_of service.options))
        (λ x _.
          AllOk->>= {D = ServiceDocument × Mapper} (λ out. IsSoundDocument out.0) _
            (build_methods registry transform_name camel_split service.methods service.options start
              empty_document)
            _
            (build_methods-Sound service.methods service.options start empty_document own
              (λ k sd e. cc) empty_document-Sound)
            (λ out sound. sound))

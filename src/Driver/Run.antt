-- ===== src/Driver/Run.antt =====
-- internal/apigw/apigw.go: the module that protoc calls, and `renderOpenAPI` and
-- `renderOpenAPIWithoutService` of internal/apigw/apigw_openapi.go. What depends on the environment
-- (dumps for debugging) is left out.
use protoc_gen_apigw.Base.Outcome.{panic, err, ok, ◌>>=◌, Outcome}
use protoc_gen_apigw.Base.{none, some, Option, [], ℕ, false, ◌++◌, ◌∷◌, List}
use protoc_gen_apigw.OpenApi.Service.{ServiceDocument, build_open_api_service}
use protoc_gen_apigw.OpenApi.Service.Webhooks.{Definitions, build_open_api_without_service}
use protoc_gen_apigw.Base.Text.{codes, Text}
use protoc_gen_apigw.Driver.{
  HeaderTemplateContext, render_header, render_service, FileService, FileImports,
  ServiceTemplateContext,
}
use protoc_gen_apigw.Descriptor.{Message}
use protoc_gen_apigw.Canonical.{Mapper}

-- A file to generate code for; its messages are named by their positions in the registry.
pub record ProtoFile : Type 0 where
  pub name : Text
  pub fully_qualified_name : Text
  pub package_name : Text
  pub package_snake_name : Text
  -- `m.ctx.OutputPath(f).SetExt(extension)`
  pub output_path : Text → Text
  pub services : List FileService
  pub messages : List ℕ

-- `AddGeneratorFile`
pub record Artifact : Type 0 where
  pub name : Text
  pub contents : Text

-- what the module keeps from file to file
pub record Module : Type 0 where
  pub mapper : Mapper
  pub artifacts : List Artifact

-- The third-party code that gives texts: the templates, `doc.Render` with `yamlfmt.Format`, and the
-- two functions on names.
pub record Texts : Type 0 where
  pub service_text : ServiceTemplateContext → Outcome Text
  pub header_text : HeaderTemplateContext → Outcome Text
  pub document_text : Text → ServiceDocument → Outcome Text
  pub definitions_text : Text → Definitions → Outcome Text
  pub transform_name : Text → Text
  pub camel_split : Text → List Text

abbrev pub add_generator_file : Text → Text → Module → Module
add_generator_file name contents m = record m {
  artifacts = m.artifacts ++ record { name = name; contents = contents } ∷ [];
}

abbrev pub oas_extension : Text → Text
oas_extension name = b'.' ∷ (name ++ codes ".oas31.yaml")

-- `importTracker` at the start of `applyTemplate`
abbrev pub no_imports : FileImports
no_imports = record {
  tracker = record {
    apigw_v1 = false;
    grpc = false;
    grpc_codes = false;
    grpc_status = false;
    io = false;
    net_http = false;
    protobuf_encoding_json = false;
    protobuf_proto = false;
    protobuf_proto_pack = false;
    protobuf_encoding_protowire = false;
    strconv = false;
    strings = false;
  };
  embed = false;
}

module _ (registry : List Message) (texts : Texts) where
  -- `renderOpenAPI`
  unfoldable pub render_open_api : FileService → Mapper → Outcome (Text × Mapper)
  unfolding build_open_api_service
  render_open_api service mapper = do
    (doc, mapper') ←
        build_open_api_service registry texts.transform_name texts.camel_split service.api mapper
    text ← texts.document_text service.server_name doc
    ok (text, mapper')

  -- the text of the definitions, if there are any
  unfoldable pub definitions_rendered : Text → Option Definitions → Outcome (Option Text)
  definitions_rendered name none = ok none
  definitions_rendered name (some doc) = texts.definitions_text name doc >>= λ text. ok (some text)

  -- `renderOpenAPIWithoutService`; none where nothing is rendered
  unfoldable pub render_open_api_without_service : ProtoFile → Outcome (Option Text)
  unfolding build_open_api_without_service definitions_rendered
  render_open_api_without_service f =
      build_open_api_without_service registry texts.transform_name f.fully_qualified_name f.messages
      >>= definitions_rendered f.package_name

  unfoldable pub forced_artifact : ProtoFile → Option Text → Module → Module
  forced_artifact f none m = m
  forced_artifact f (some text) m =
      add_generator_file (f.output_path (oas_extension f.package_snake_name)) text m

  -- `renderForcedMessages`
  unfoldable pub render_forced_messages : ProtoFile → Module → Outcome Module
  unfolding render_open_api_without_service forced_artifact
  render_forced_messages f m =
      render_open_api_without_service f >>= λ text. ok (forced_artifact f text m)

  -- the loop of `applyTemplate` over the services, with the text of `bodyBuf`
  unfoldable pub render_services :
      ProtoFile
      → List FileService
      → Text
      → FileImports
      → Module
      → Outcome ((Text × FileImports) × Module)
  unfolding render_service render_open_api
  render_services f [] body ix m = ok ((body, ix), m)
  render_services f (service ∷ services) body ix m = do
    let oas_name = f.output_path (oas_extension service.snake_name)
    (text, ix') ← render_service registry texts.service_text service oas_name ix
    (oas, mapper) ← render_open_api service m.mapper
    render_services f services (body ++ text) ix'
        (add_generator_file oas_name oas (record m { mapper = mapper }))

  -- the end of `applyTemplate`; none where it returns false
  unfoldable pub with_header :
      ProtoFile → List FileService → Text × FileImports → Module → Outcome (Option Text × Module)
  unfolding render_header
  with_header f [] (body, ix) m = ok (none, m)
  with_header f (s ∷ ss) (body, ix) m =
      render_header texts.header_text f.name f.package_name ix >>= λ header.
      ok (some (header ++ body), m)

  -- `applyTemplate`
  unfoldable pub apply_template : ProtoFile → Module → Outcome (Option Text × Module)
  unfolding render_services render_forced_messages with_header
  apply_template f m = do
    (written, m') ← render_services f f.services [] no_imports m
    m'' ← render_forced_messages f m'
    with_header f f.services written m''

  -- `m.Fail` of an error, which ends the process
  unfoldable pub or_fail {ℓ} : {A : Type ℓ} → Outcome A → Outcome A
  or_fail (err e) = panic (codes "code generation failed")
  or_fail r = r

  -- the artifact of the Go code, if there is any
  unfoldable pub go_artifact : ProtoFile → Option Text → Module → Module
  go_artifact f none m = m
  go_artifact f (some text) m = add_generator_file (f.output_path (codes ".apigw.go")) text m

  -- `processFile`
  unfoldable pub process_file : ProtoFile → Module → Outcome Module
  unfolding apply_template or_fail go_artifact
  process_file f m = do (text, m') ← or_fail (apply_template f m); ok (go_artifact f text m')

  -- `Execute`, on the targets in the order in which Go iterates over their map
  unfoldable pub execute : List ProtoFile → Module → Outcome (List Artifact)
  unfolding process_file
  execute [] m = ok m.artifacts
  execute (f ∷ fs) m = process_file f m >>= λ m'. execute fs m'

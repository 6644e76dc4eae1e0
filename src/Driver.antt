-- ===== src/Driver.antt =====
-- internal/apigw/apigw_service.go and internal/apigw/apigw_header.go: what the templates of a
-- generated Go file are given. The texts that the templates give are parameters.
pub mod Run
mod Tests
pub mod Artifacts
use protoc_gen_apigw.Base.Text.{split, slash, codes, Text}
use protoc_gen_apigw.Base.Outcome.{ok, ◌>>=◌, err, Outcome}
use protoc_gen_apigw.Base.{
  is_empty, none, true, ◌==◌, [], if◌then◌else◌, reverse, some, ◌++◌, Bool, ◌∷◌, List, Option,
}
use protoc_gen_apigw.Method.Context.{method_context, MethodTemplateContext}
use protoc_gen_apigw.OpenApi.Service.{ApiService}
use protoc_gen_apigw.Method.Params.{MethodInfo}
use protoc_gen_apigw.Descriptor.{Message}
use protoc_gen_apigw.Method.Converter.{ImportTracker}

-- A service of a file: what `methodContext` and `buildOpenAPIService` read of it, and its names.
pub record FileService : Type 0 where
  pub name : Text
  pub snake_name : Text
  pub package_name : Text
  pub server_name : Text
  pub methods : List MethodInfo
  pub api : ApiService

pub record ServiceTemplateContext : Type 0 where
  pub server_name : Text
  pub fully_qualified_name : Text
  pub oas_file_name : Text
  pub methods : List MethodTemplateContext

-- the marks on `importTracker`, with `Embed`
pub record FileImports : Type 0 where
  pub tracker : ImportTracker
  pub embed : Bool

abbrev strip_slashes : Text → Text
strip_slashes [] = []
strip_slashes (c ∷ s) = if c == slash then strip_slashes s else c ∷ s

abbrev last_part : List Text → Text
last_part [] = []
last_part (p ∷ []) = p
last_part (p ∷ q ∷ ps) = last_part (q ∷ ps)

-- filepath.Base
unfoldable pub base_name : Text → Text
base_name [] = codes "."
base_name (c ∷ s) =
    let stripped = reverse (strip_slashes (reverse (c ∷ s))) in
    if is_empty stripped then slash ∷ [] else last_part (split stripped slash)

-- the error of `methodContext` in `renderService`, with the verb of the source
unfoldable pub method_failed {ℓ} : {A : Type ℓ} → Text → Outcome A → Outcome A
method_failed fqn (err e) = err (codes "method generation failed [" ++ (fqn ++ (codes "t: " ++ e)))
method_failed fqn r = r

-- `if methodCtx == nil { continue }`, and `append`
unfoldable pub with_method :
    Option MethodTemplateContext → List MethodTemplateContext → List MethodTemplateContext
with_method none contexts = contexts
with_method (some m) contexts = contexts ++ m ∷ []

module _ (registry : List Message) where
  -- the loop over the methods
  unfoldable pub method_contexts :
      List MethodInfo
      → List MethodTemplateContext
      → ImportTracker
      → Outcome (List MethodTemplateContext × ImportTracker)
  unfolding method_context method_failed with_method
  method_contexts [] contexts ix = ok (contexts, ix)
  method_contexts (m ∷ ms) contexts ix = do
    (context, ix') ← method_failed m.fully_qualified_name (method_context registry m ix)
    method_contexts ms (with_method context contexts) ix'

  -- `renderService`, with the text of the template "service.tmpl"
  unfoldable pub render_service :
      (ServiceTemplateContext → Outcome Text)
      → FileService
      → Text
      → FileImports
      → Outcome (Text × FileImports)
  unfolding method_contexts base_name
  render_service template service oas_name ix = do
    (contexts, tracker) ← method_contexts service.methods [] (record ix.tracker { apigw_v1 = true })
    text ← template (record {
      server_name = service.server_name;
      fully_qualified_name = service.package_name ++ (b'.' ∷ service.name);
      oas_file_name = base_name oas_name;
      methods = contexts;
    })
    ok (text, record { tracker = tracker; embed = true })

pub record HeaderTemplateContext : Type 0 where
  pub version : Text
  pub package_name : Text
  pub source_file : Text
  pub imports : FileImports

-- `renderHeader`, with the text of the template "header.tmpl"
unfoldable pub render_header :
    (HeaderTemplateContext → Outcome Text) → Text → Text → FileImports → Outcome Text
render_header template source_file package_name ix = template (record {
  version = codes "0.1.28";
  package_name = package_name;
  source_file = source_file;
  imports = ix;
})

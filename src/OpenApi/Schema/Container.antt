-- ===== src/OpenApi/Schema/Container.antt =====
-- `schemaContainer` of internal/apigw/apigw_openapi_schema.go, and what its methods return.
use protoc_gen_apigw.Base.{◌++◌, Bool, List, [], ℕ}
use protoc_gen_apigw.OpenApi.Schema.Options.{Warning}
use protoc_gen_apigw.Base.OrderedMap.{OrderedMap}
use protoc_gen_apigw.OpenApi.Schema.Data.{ref, SchemaProxy}
use protoc_gen_apigw.Base.Outcome.{Outcome}
use protoc_gen_apigw.Base.Text.{codes, Text}

-- `schemaContainer`, with what was written to the standard error stream.
pub record Container : Type 0 where
  pub schemas : OrderedMap SchemaProxy
  pub warnings : List Warning

unfoldable pub new_schema_container : Container
new_schema_container = record { schemas = []; warnings = [] }

-- What a function that builds a part of a document returns.
abbrev pub Built : Type 0 → Type 0
Built A = Outcome (A × Container)

-- The recursive call `sc.Message(m, nil, readOnly, false)`.
abbrev pub MessageCall : Type 0
MessageCall = ℕ → Bool → Container → Built SchemaProxy

-- `SchemaProxyRefPrefix + fqn`
unfoldable pub ref_to : Text → SchemaProxy
ref_to fqn = ref (codes "#/components/schemas/" ++ fqn)

-- ===== src/OpenApi/Service/Webhooks.antt =====
-- internal/apigw/apigw_openapi.go: `buildOpenAPIWithoutService`, the document of the messages of a
-- file that are exposed without a service.
pub mod Sound
mod Tests
use protoc_gen_apigw.Base.{
  true, length, suc, ◌∷◌, is_empty, not, if◌then◌else◌, none, ℕ, ◌++◌, ◌||◌, [], false, some, Bool,
  List, Option,
}
use protoc_gen_apigw.Base.OrderedMap.{set_all, set, value, OrderedMap}
use protoc_gen_apigw.OpenApi.Schema.Build.{message}
use protoc_gen_apigw.Base.Outcome.{◌>>=◌, ok, Outcome}
use protoc_gen_apigw.OpenApi.Schema.Container.{new_schema_container, Container}
use protoc_gen_apigw.OpenApi.Schema.Data.{oas_true, SchemaProxy}
use protoc_gen_apigw.OpenApi.Schema.Options.{get_message_options, nicer_fqn}
use protoc_gen_apigw.OpenApi.Operation.Build.{message_at}
use protoc_gen_apigw.Base.Text.{codes, Text}
use protoc_gen_apigw.Api.{MessageOption}
use protoc_gen_apigw.Descriptor.{Message}

-- `dm_v3.PathItem` of a webhook, with the descriptions and the schema of its request body
pub record Webhook : Type 0 where
  pub description : Text
  pub body_description : Text
  pub schema : SchemaProxy
  pub required : Option Bool

-- the title and the description of the document, its webhooks and its schemas
pub record Definitions : Type 0 where
  pub title : Text
  pub description : Text
  pub webhooks : OrderedMap Webhook
  pub schemas : OrderedMap SchemaProxy

-- what the loop changes
pub record Forced : Type 0 where
  pub found : Bool
  pub webhooks : OrderedMap Webhook
  pub container : Container

unfoldable pub webhook_of : Text → SchemaProxy → Webhook
webhook_of name proxy = record {
  description = codes "Schema for " ++ (name ++ codes " webhook");
  body_description = codes "Schema for " ++ (name ++ codes " webhook request body");
  schema = proxy;
  required = oas_true;
}

-- the webhook of a message; a name that is there keeps the webhook that it has
unfoldable pub add_webhook_under :
    Text → SchemaProxy → Option Webhook → OrderedMap Webhook → OrderedMap Webhook
unfolding webhook_of
add_webhook_under name proxy (some w) webhooks = webhooks
add_webhook_under name proxy none webhooks = set name (webhook_of name proxy) webhooks

unfoldable pub add_webhook : Text → SchemaProxy → OrderedMap Webhook → OrderedMap Webhook
unfolding add_webhook_under
add_webhook name proxy webhooks =
    let added = add_webhook_under name proxy (value name webhooks) webhooks in
    if is_empty name then webhooks else added

-- `hasForceProp`
unfoldable pub has_force_prop : Option MessageOption → Bool
has_force_prop none = false
has_force_prop (some opts) = opts.force_expose || not (is_empty opts.webhook_request_name)

unfoldable pub webhook_name : Option MessageOption → Text
webhook_name none = []
webhook_name (some opts) = opts.webhook_request_name

module _ (registry : List Message) (transform_name : Text → Text) where
  -- the loop over the messages of a file, which are named by their positions in the registry
  unfoldable pub force_messages : List ℕ → Forced → Outcome Forced
  unfolding has_force_prop webhook_name add_webhook message_at get_message_options
  force_messages [] done = ok done
  force_messages (id ∷ ids) done = do
    m ← message_at registry transform_name id
    let skipped = force_messages ids done
    let exposed =
        message registry transform_name (suc (suc (length registry))) id [] false true
          done.container
        >>= λ (proxy, c'). force_messages ids (record {
          found = true;
          webhooks = add_webhook (webhook_name (get_message_options m)) proxy done.webhooks;
          container = c';
        })
    if has_force_prop (get_message_options m) then exposed else skipped

  -- `buildOpenAPIWithoutService`, for a file with this full name; none is a nil document. The
  -- `addOperation` at its end has no route and only copies the schemas.
  unfoldable pub build_open_api_without_service : Text → List ℕ → Outcome (Option Definitions)
  unfolding force_messages nicer_fqn
  build_open_api_without_service full_name ids = do
    let start : Forced = record { found = false; webhooks = []; container = new_schema_container }
    forced ← force_messages ids start
    let fqn = nicer_fqn full_name
    let doc : Definitions = record {
      title = codes "Definitions For " ++ fqn;
      description = codes "This is an auto-generated Definitions for " ++ (fqn ++ codes ".\n");
      webhooks = forced.webhooks;
      schemas = set_all forced.container.schemas [];
    }
    if forced.found then ok (some doc) else ok none

-- ===== src/OpenApi/Document.antt =====
-- internal/apigw/apigw_openapi.go: `addOperation`. What an operation holds does not matter here.
pub mod Laws
mod Tests
use protoc_gen_apigw.Base.OrderedMap.{set, set_all, value, OrderedMap}
use protoc_gen_apigw.Base.Outcome.{ok, panic, ◌>>=◌, Outcome}
use protoc_gen_apigw.Base.{◌++◌, if◌then◌else◌, Option, none, some}
use protoc_gen_apigw.Base.Text.{codes, Text, text_eq}
use protoc_gen_apigw.OpenApi.Schema.Data.{SchemaProxy}

pub record PathItem {ℓ} (Op : Type ℓ) : Type ℓ where
  pub get : Option Op
  pub post : Option Op
  pub put : Option Op
  pub delete : Option Op
  pub patch : Option Op
  pub head : Option Op

-- what `addOperation` changes of a document
pub record Document {ℓ} (Op : Type ℓ) : Type ℓ where
  pub path_items : OrderedMap (PathItem Op)
  pub schemas : OrderedMap SchemaProxy

-- the methods that `addOperation` supports, with the constants of net/http
pub data Verb : Type 0 where
  get_verb post_verb put_verb delete_verb patch_verb head_verb : Verb

unfoldable pub verb_of : Text → Option Verb
unfolding text_eq
verb_of m =
    if text_eq m (codes "GET")
    then some get_verb
    else if text_eq m (codes "POST")
    then some post_verb
    else if text_eq m (codes "PUT")
    then some put_verb
    else if text_eq m (codes "DELETE")
    then some delete_verb
    else if text_eq m (codes "PATCH")
    then some patch_verb
    else if text_eq m (codes "HEAD")
    then some head_verb
    else none

module _ {ℓ} {Op : Type ℓ} where
  abbrev pub empty_item : PathItem Op
  empty_item = record {
    get = none;
    post = none;
    put = none;
    delete = none;
    patch = none;
    head = none;
  }

  -- the assignment of the switch
  unfoldable pub assign : Verb → Op → PathItem Op → PathItem Op
  assign get_verb op item = record item { get = some op }
  assign post_verb op item = record item { post = some op }
  assign put_verb op item = record item { put = some op }
  assign delete_verb op item = record item { delete = some op }
  assign patch_verb op item = record item { patch = some op }
  assign head_verb op item = record item { head = some op }

  -- `doc.Paths.PathItems.Value(r.Route)` after the item was set if it was missing
  unfoldable pub item_at : Option (PathItem Op) → PathItem Op
  item_at none = empty_item
  item_at (some item) = item

  unfoldable pub add_at : Text → Text → Op → Option Verb → Document Op → Outcome (Document Op)
  unfolding item_at assign
  add_at route method op none doc = panic (
      codes "apigw_openapi: addOperation: unsupported method: " ++ (method ++ (codes " " ++ route)))
  add_at route method op (some verb) doc =
      let item = item_at (value route doc.path_items) in
      ok (record doc { path_items = set route (assign verb op item) doc.path_items })

  -- `addOperation`, for a route that is not nil
  unfoldable pub add_operation :
      Text → Text → Op → OrderedMap SchemaProxy → Document Op → Outcome (Document Op)
  unfolding add_at verb_of
  add_operation route method op schemas doc =
      add_at route method op (verb_of method) doc >>= λ doc'.
      ok (record doc' { schemas = set_all schemas doc'.schemas })

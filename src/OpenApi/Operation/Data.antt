-- ===== src/OpenApi/Operation/Data.antt =====
-- What `buildOperation` of internal/apigw/apigw_openapi.go reads and returns.
use protoc_gen_apigw.Base.{ℕ, List, Bool, Option}
use protoc_gen_apigw.Api.{Operation}
use protoc_gen_apigw.OpenApi.Yaml.{Extensions}
use protoc_gen_apigw.OpenApi.Schema.Data.{SchemaProxy}
use protoc_gen_apigw.Base.OrderedMap.{OrderedMap}
use protoc_gen_apigw.OpenApi.Tracker.{MsgTracker}
use protoc_gen_apigw.Base.Text.{Text}
use protoc_gen_apigw.Canonical.{Mapper}

-- What `buildOperation` reads of a method; messages are named by their positions in the registry.
pub record ApiMethod : Type 0 where
  pub name : Text
  pub fully_qualified_name : Text
  pub leading_comments : Text
  pub deprecated : Bool
  pub operations : List Operation
  pub input : ℕ
  pub output : ℕ

-- `dm_v3.Parameter`, in the path or in the query
pub data Location : Type 0 where
  in_path in_query : Location

pub record Parameter : Type 0 where
  pub name : Text
  pub location : Location
  pub required : Option Bool
  pub schema : SchemaProxy

-- `dm_v3.Operation`, with the fields that the source sets. There is one response, "200", and both
-- it and the request body have one content, "application/json", of which the schema is kept.
pub record ApiOperation : Type 0 where
  pub operation_id : Text
  pub summary : Text
  pub description : Text
  pub deprecated : Option Bool
  pub response_description : Text
  pub response_schema : SchemaProxy
  pub extensions : Extensions
  pub parameters : List Parameter
  pub request_body : Option SchemaProxy

pub record BuiltOperation : Type 0 where
  pub method : Text
  pub route : Text
  pub operation : ApiOperation
  pub schemas : OrderedMap SchemaProxy

-- What the calls of `buildOperation` for a service share.
pub record BuildState : Type 0 where
  pub mapper : Mapper
  pub tracker : MsgTracker

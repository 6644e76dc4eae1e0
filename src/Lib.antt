-- ===== src/Lib.antt =====
-- A verification library of protoc-gen-apigw: a protoc plugin that reads annotated protobuf
-- services and generates Go code for an HTTP gateway and an OpenAPI document, and the small Go
-- runtime that the generated code uses.
--
-- The parts and their models:
--   Base        texts as lists of bytes, lists, ordered maps, sorting, and `Outcome`, what a Go call
--               may do: return, return an error or panic.
--   Route       apigw/v1/http_bridge.go: `ParseRoute` is `parse_route`; Route/Render prints tokens.
--   Canonical   internal/apigw/apigw_openapi.go, internal/apigw/apigw.go: `storeCanonicalRoute` is
--               `store_canonical_route`, with the module's mapper passed in and out; the route that
--               `buildOperation` writes from the mapper's entry is `snake_route`.
--   Validation  internal/apigw/validation.go: the checks of sunset dates.
--   Grpc        apigw/v1/grpc_internals.go: HTTP status codes and the chain of interceptors.
--   Api         apigw/v1/apigw.pb.go: the annotations, as enums and records.
--   Descriptor  what protoc-gen-star's accessors return for messages and fields.
--   OpenApi     internal/apigw/apigw_openapi.go, apigw_openapi_schema.go, apigw_openapi_scalar.go,
--               apigw_openapi_wkt.go and annotation_bag.go: the extensions of operations
--               (OpenApi/Extensions, Terraform, Pagination), the schemas of messages
--               (OpenApi/Schema: `Message` is `message`, `Field` is `field`), the messages in use
--               (OpenApi/Tracker: `msgTracker`), the document's paths (OpenApi/Document:
--               `addOperation`), `buildOperation` (OpenApi/Operation) and the documents of a
--               service and of a file without one (OpenApi/Service, OpenApi/Service/Webhooks).
--   Method      internal/apigw/apigw_method.go: `path2fieldNumbers` (FieldPath), the converters of
--               parameters (Converter) and `methodContext` (Params, Context).
--   Agreement   apigw_method.go against apigw_openapi.go: what both make of one operation.
--   Driver      internal/apigw/apigw.go, apigw_service.go and apigw_header.go: from `Execute` to the
--               generated files, with the texts of templates as parameters.
--   Imports     internal/apigw/apigw_imports.go: the aliases of packages and the types of fields.
--   HttpBridge  apigw/v1/http_bridge.go: the metadata of a request.
--   Gin         routers/ginapi: `ConvertRoute` is `convert_route`, the stream of a call is Gin/Stream,
--               `ErrorResponse` is in Gin/Error, `Handler` in Gin/Handler and `RegisterService` in
--               Gin/Registry. What is done to a response is the list of the calls on its writer;
--               the status that it has is read off them by what gin documents of its writer.
--
-- For each file the driver makes the contexts of the methods, the document of each service and that
-- of the exposed messages; one mapper of routes is passed from service to service and from file to
-- file. `methodContext` and the document both take routes from `ParseRoute`; the document's writer stores
-- each route in the mapper, so routes that differ in parameter names share one path. `Message`
-- and `Field` call each other and fill one container of schemas, which is passed in and out.
--
-- Bounds: `message` has fuel for the depth of its recursion. Each level below the first sets a
-- schema for a message that had none, so fuel that is by more than one above the number of messages
-- without a schema is enough. `get_chain_unary_handler` has fuel for the interceptors left, and the chain starts with
-- as much as there are interceptors. `buildOperation` calls `message` with fuel that is by two above
-- the number of messages of the registry. `find_alias` has fuel for its rounds, each of which meets a longer alias
-- that the map has, so one more than the map has entries is enough. Numbers are natural numbers;
-- int32 fields are integers without a bound, as they are only compared with zero and printed.
--
-- Third-party code is not modelled: protoc-gen-star's descriptors are records of what the accessors
-- return, messages refer to one another by their position in a registry, libopenapi's schemas and
-- YAML nodes are plain data, and text/template is left out, so that a rendered template is its name
-- with its context. `transformName` and `camelcase.Split` are parameters, and so are the calls of
-- grpc, gin and protojson in the gin transport (which registrations gin's router refuses, too), and the texts of templates and documents in the
-- driver. Reading an option of a descriptor is taken to succeed. Not modelled: logging, dumps for
-- debugging and the command's start; the generated decoders, of which the templates are texts; and
-- generated and vendored code, beyond the annotations' types and one service's description.
pub mod Agreement
pub mod Base
pub mod Route
pub mod Canonical
pub mod Validation
pub mod Grpc
pub mod Api
pub mod Descriptor
pub mod OpenApi
pub mod Method
pub mod Driver
pub mod Imports
pub mod HttpBridge
pub mod Gin

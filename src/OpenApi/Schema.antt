-- ===== src/OpenApi/Schema.antt =====
-- Schemas of the OpenAPI document and how they are built, from
-- internal/apigw/apigw_openapi_schema.go, apigw_openapi_scalar.go and apigw_openapi_wkt.go.
pub mod Data
pub mod Scalar
pub mod WellKnown
pub mod Options
pub mod Closed
pub mod Ensures
pub mod Container
pub mod Fields
pub mod Build

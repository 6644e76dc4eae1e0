-- ===== src/OpenApi/Operation.antt =====
-- internal/apigw/apigw_openapi.go: `buildOperation`, with `operationSummary` and `getOpGroup`.
mod Tests
pub mod Data
pub mod Labels
pub mod Build
pub mod Sound
pub mod Names
pub mod WellKnown

-- ===== src/Method.antt =====
-- internal/apigw/apigw_method.go: what the code generated for a method is made from.
pub mod FieldPath
pub mod Converter
pub mod Params
pub mod Context

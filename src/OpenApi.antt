-- ===== src/OpenApi.antt =====
-- The generation of the OpenAPI document.
pub mod Yaml
pub mod Extensions
pub mod Terraform
pub mod Pagination
pub mod Schema
pub mod Tracker
pub mod Document
pub mod Operation
pub mod Service
pub mod Samples

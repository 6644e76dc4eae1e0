-- ===== src/Api.antt =====
-- apigw/v1/apigw.pb.go: the options that annotate services, methods, messages and fields. A nil
-- pointer is `none`; a number that an open enum does not name is kept by a constructor.
use protoc_gen_apigw.Base.Int.{ℤ}
use protoc_gen_apigw.Validation.{Deprecation}
use protoc_gen_apigw.Base.Text.{Text}
use protoc_gen_apigw.Base.{Bool, List, Option, ℕ}

pub data Stability : Type 0 where
  stability_unspecified draft alpha beta stable : Stability
  other_stability : ℕ → Stability

pub data MethodType : Type 0 where
  type_unspecified create read update delete : MethodType
  other_type : ℕ → MethodType

pub data OptionalExclusion : Type 0 where
  exclusion_unspecified resource_only data_source_only : OptionalExclusion
  other_exclusion : ℕ → OptionalExclusion

pub record TerraformEntity : Type 0 where
  pub type : MethodType
  pub name : Text
  pub json : Bool
  pub operation_number : ℤ
  pub optional_exclusion : OptionalExclusion

pub data PaginationType : Type 0 where
  pagination_unspecified pagination_cursor : PaginationType
  other_pagination : ℕ → PaginationType

pub data PaginationInputIn : Type 0 where
  in_unspecified request_body : PaginationInputIn
  other_in : ℕ → PaginationInputIn

pub data PaginationInputType : Type 0 where
  input_unspecified input_cursor : PaginationInputType
  other_input : ℕ → PaginationInputType

pub record PaginationInput : Type 0 where
  pub name : Text
  pub location : PaginationInputIn
  pub type : PaginationInputType

pub record PaginationOutput : Type 0 where
  pub next_cursor : Text

pub record Pagination : Type 0 where
  pub type : PaginationType
  pub inputs : List PaginationInput
  pub outputs : Option PaginationOutput

-- The query map is a list of its entries, in the order in which a loop meets them.
pub record Operation : Type 0 where
  pub method : Text
  pub route : Text
  pub query : List (Text × Text)
  pub stability : Stability
  pub terraform_entity : List TerraformEntity
  pub summary : Text
  pub group : Text
  pub pagination : Option Pagination
  pub deprecation : Option Deprecation
  pub group_override : Text
  pub name_override : Text

pub record Service : Type 0 where
  pub stability : Stability
  pub deprecation : Option Deprecation
  pub group_override : Text

pub record ServiceOptions : Type 0 where
  pub service : Option Service

pub record MessageOption : Type 0 where
  pub terraform_entity : Option TerraformEntity
  pub title : Text
  pub force_expose : Bool
  pub webhook_request_name : Text
  pub name_override : Text

pub record FieldOption : Type 0 where
  pub required_spec : Bool
  pub read_only_spec : Bool
  pub stability : Stability
  pub deprecation : Option Deprecation
  pub annotation_bag : Bool

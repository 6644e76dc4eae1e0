-- ===== src/OpenApi/Pagination/Tests.antt =====
-- An operation with one located input, with and without outputs.
use protoc_gen_apigw.Base.{◌∷◌, some, refl, [], ◌≡◌, none, Option}
use protoc_gen_apigw.Api.{
  pagination_cursor, stability_unspecified, input_cursor, Operation, request_body, PaginationOutput,
  PaginationInput,
}
use protoc_gen_apigw.OpenApi.Pagination.Laws.{pagination_classified}
use protoc_gen_apigw.Base.Outcome.{panic}
use protoc_gen_apigw.Base.Text.{codes}
use protoc_gen_apigw.OpenApi.Pagination.{get_terraform_entity_operation_pagination}

abbrev cursor_input : PaginationInput
cursor_input = record { name = codes "pageToken"; location = request_body; type = input_cursor }

abbrev paginated : Option PaginationOutput → Operation
paginated outputs = record {
  method = codes "POST";
  route = codes "/v1/search";
  query = [];
  stability = stability_unspecified;
  terraform_entity = [];
  summary = [];
  group = [];
  pagination =
      some (record { type = pagination_cursor; inputs = cursor_input ∷ []; outputs = outputs });
  deprecation = none;
  group_override = [];
  name_override = [];
}

outputs_missing :
    get_terraform_entity_operation_pagination (paginated none)
    ≡ panic (codes "nil pointer dereference")
unfolding get_terraform_entity_operation_pagination
outputs_missing = refl

pagination_classified_example :
    get_terraform_entity_operation_pagination (paginated none)
    ≡ panic (codes "nil pointer dereference")
pagination_classified_example =
    pagination_classified (paginated none)
      (record { type = pagination_cursor; inputs = cursor_input ∷ []; outputs = none }) refl

-- ===== src/OpenApi/Document/Tests.antt =====
-- A document with one operation, to which another one of the same path is added.
use protoc_gen_apigw.OpenApi.Document.Laws.{IsVerbOf, add_operation-AddsIf, AddsIf}
use protoc_gen_apigw.OpenApi.Document.{Verb, add_operation, empty_item, Document}
use protoc_gen_apigw.Base.{Option, ◌∷◌, some, [], ℕ}
use protoc_gen_apigw.Base.Text.{codes}

abbrev one_operation : Document ℕ
one_operation = record {
  path_items = (codes "/v1/{id}", record empty_item { get = some 1 }) ∷ [];
  schemas = [];
}

add_operation-AddsIf_example :
    (verb : Option Verb) × IsVerbOf (codes "POST") verb
    × AddsIf
        (codes "/v1/{id}")
        2
        []
        one_operation
        verb
        (add_operation (codes "/v1/{id}") (codes "POST") 2 [] one_operation)
add_operation-AddsIf_example =
    add_operation-AddsIf (codes "/v1/{id}") (codes "POST") 2 [] one_operation

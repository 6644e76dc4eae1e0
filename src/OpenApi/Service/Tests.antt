-- ===== src/OpenApi/Service/Tests.antt =====
-- The document of a small service with two operations of one path.
use protoc_gen_apigw.OpenApi.Service.Listing.{build_open_api_service-Lists, listed, Builds}
use protoc_gen_apigw.OpenApi.Document.Laws.{operation_at}
use protoc_gen_apigw.OpenApi.Document.{Verb}
use protoc_gen_apigw.Base.Text.{Text}
use protoc_gen_apigw.Base.{◌≡◌, none, List, []}
use protoc_gen_apigw.OpenApi.Operation.Data.{BuildState, BuiltOperation}
use protoc_gen_apigw.Base.Returns.{WhenOk}
use protoc_gen_apigw.OpenApi.Samples.{
  output-IsOwn, input-IsOwn, shelf_service, one_name, shelf_messages,
}
use protoc_gen_apigw.OpenApi.Service.Sound.{build_open_api_service-Sound}
use protoc_gen_apigw.OpenApi.Service.Adding.{IsSoundDocument}
use protoc_gen_apigw.OpenApi.Service.{build_open_api_service}
use protoc_gen_apigw.OpenApi.Schema.Ensures.{AllOk}

build_open_api_service-Sound_example :
    AllOk
      (λ out. IsSoundDocument out.0.document)
      (build_open_api_service shelf_messages (λ n. n) one_name shelf_service [])
build_open_api_service-Sound_example =
    build_open_api_service-Sound shelf_messages (λ n. n) one_name shelf_service []
      ((input-IsOwn, output-IsOwn), ((input-IsOwn, output-IsOwn), tt))

build_open_api_service-Lists_example :
    WhenOk
      (λ out.
        (all : List BuiltOperation) × (last : BuildState) × Builds shelf_messages
          (λ n. n)
          one_name
          shelf_service.methods
          none
          (record { mapper = []; tracker = [] })
          all
          last
        × (out.1 ≡ last.mapper)
        × ((r : Text) (v : Verb) → operation_at r v out.0.document ≡ listed all r v none))
      (build_open_api_service shelf_messages (λ n. n) one_name shelf_service [])
build_open_api_service-Lists_example =
    build_open_api_service-Lists shelf_messages (λ n. n) one_name shelf_service []

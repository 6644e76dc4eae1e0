-- ===== src/OpenApi/Service/Webhooks/Tests.antt =====
-- The definitions of a file with one message that has a webhook.
use protoc_gen_apigw.OpenApi.Service.Webhooks.Sound.{
  build_open_api_without_service-Defines, Defines,
}
use protoc_gen_apigw.Base.Text.{codes}
use protoc_gen_apigw.OpenApi.Service.Webhooks.{build_open_api_without_service}
use protoc_gen_apigw.Base.{[], ◌∷◌}
use protoc_gen_apigw.OpenApi.Samples.{shelf_messages}
use protoc_gen_apigw.OpenApi.Schema.Ensures.{AllOk}

build_open_api_without_service-Defines_example :
    AllOk
      (Defines shelf_messages (λ n. n) (0 ∷ 2 ∷ []))
      (build_open_api_without_service shelf_messages (λ n. n) (codes ".p") (0 ∷ 2 ∷ []))
build_open_api_without_service-Defines_example =
    build_open_api_without_service-Defines shelf_messages (λ n. n) (codes ".p") (0 ∷ 2 ∷ [])
